-- ===== src/Openai/Headers/Valid.antt =====
-- What `validate_headers` accepts.
use zk_prompt.Base.{◌≡◌, ◌↔◌, true, arith}
use zk_prompt.Base.Text.{codes, str_eq_iff}
use zk_prompt.Base.Words.{eq_ignore_ascii_case}
use zk_prompt.Base.Outcome.{ok}
use zk_prompt.Openai.Config.{RequestConfig}
use zk_prompt.Openai.Headers.{ParsedHeaders, validate_headers}

-- `validate_headers` succeeds exactly when host, path and API key are the configured ones, the
-- content type is JSON, and the connection is to be closed, in any case.
pub validate_headers_iff :
    (parsed : ParsedHeaders) (config : RequestConfig)
    → (validate_headers parsed config ≡ ok tt) ↔ (
        (parsed.host ≡ config.host)
        × (parsed.basepath ≡ config.basepath)
        × (parsed.api_key ≡ config.api_key)
        × (parsed.content_type ≡ codes "application/json")
        × (eq_ignore_ascii_case parsed.connection (codes "close") ≡ true))
unfolding validate_headers
validate_headers_iff parsed config = ground (
  arith,
  str_eq_iff parsed.host config.host,
  str_eq_iff parsed.basepath config.basepath,
  str_eq_iff parsed.api_key config.api_key,
  str_eq_iff parsed.content_type (codes "application/json"),
)
