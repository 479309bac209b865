-- ===== src/Openai/Env.antt =====
-- prover/src/openai/wire.rs: `RequestConfig::from_env`. The environment is an argument.
use zk_prompt.Base.{ℕ, ◌^◌, ◌<◌, ◌≡◌, refl, Option, some}
use zk_prompt.Base.Text.{Str, codes, decimal}
use zk_prompt.Base.Numbers.{parse_unsigned, parse_unsigned-decimal}
use zk_prompt.Base.Outcome.{Outcome, ok, ◌>>=◌, ok_or}
use zk_prompt.Openai.Config.{RequestConfig}

pub data EnvError : Type 0 where
  must_be_set : Str → EnvError
  invalid_content_length : EnvError

-- `usize`
abbrev pub usize_bound : ℕ
usize_bound = 2 ^ 64

unfoldable pub from_env : (Str → Option Str) → Outcome EnvError RequestConfig
from_env var = do
  host ← ok_or (must_be_set (codes "HOST")) (var (codes "HOST"))
  basepath ← ok_or (must_be_set (codes "BASEPATH")) (var (codes "BASEPATH"))
  api_key ← ok_or (must_be_set (codes "API_KEY")) (var (codes "API_KEY"))
  length_text ← ok_or (must_be_set (codes "CONTENT_LENGTH")) (var (codes "CONTENT_LENGTH"))
  content_length ← ok_or invalid_content_length (parse_unsigned usize_bound length_text)
  ok (record {
    host = host;
    basepath = basepath;
    api_key = api_key;
    content_length = content_length;
  })

-- If the four variables are set to the texts of a configuration, its content length in decimal and
-- below 2 ^ 64, then `from_env` reads the configuration back.
pub from_env-decimal :
    (var : Str → Option Str) (c : RequestConfig)
    → var (codes "HOST") ≡ some c.host
    → var (codes "BASEPATH") ≡ some c.basepath
    → var (codes "API_KEY") ≡ some c.api_key
    → var (codes "CONTENT_LENGTH") ≡ some (decimal c.content_length)
    → c.content_length < usize_bound
    → from_env var ≡ ok c
unfolding from_env
from_env-decimal var c host path key size fits =
    rw (host, path, key, size, parse_unsigned-decimal usize_bound c.content_length fits) refl
