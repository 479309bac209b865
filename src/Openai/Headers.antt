-- ===== src/Openai/Headers.antt =====
-- prover/src/openai/wire.rs: `parse_headers` and `validate_headers`.
pub mod Valid
use zk_prompt.Base.{
  ℕ, Bool, true, false, ◌&&◌, not, Option, none, some, List, [], ◌∷◌, ◌++◌, Bytes, ◌==◌,
  if◌then◌else◌,
}
use zk_prompt.Base.Text.{Str, codes, str_eq}
use zk_prompt.Base.Utf8.{from_utf8}
use zk_prompt.Base.Words.{
  lowercase, eq_ignore_ascii_case, trim, strip_prefix, split_once, split_crlf, split_whitespace,
}
use zk_prompt.Base.Outcome.{Outcome, ok, err, panic, ◌>>=◌, ◌>>◌, ok_or, guard}
use zk_prompt.Openai.Config.{RequestConfig}
use zk_prompt.Openai.Wire.{
  WireError, invalid_utf8, missing_request_line, missing_method, not_post, missing_path,
  missing_bearer_token, missing_host, missing_authorization, missing_content_type,
  missing_connection, host_mismatch, path_mismatch, api_key_mismatch, content_type_mismatch,
  connection_mismatch,
}

pub record ParsedHeaders : Type 0 where
  pub host : Str
  pub basepath : Str
  pub api_key : Str
  pub content_type : Str
  pub connection : Str

-- The four variables that the loop over the lines sets.
pub record Found : Type 0 where
  pub host : Option Str
  pub api_key : Option Str
  pub content_type : Option Str
  pub connection : Option Str

abbrev pub nothing_found : Found
nothing_found = record { host = none; api_key = none; content_type = none; connection = none }

-- `Iterator::next`
abbrev pub next {ℓ} : {A : Type ℓ} → List A → Option A
next [] = none
next (x ∷ xs) = some x

abbrev pub rest {ℓ} : {A : Type ℓ} → List A → List A
rest [] = []
rest (x ∷ xs) = xs

-- `strip_prefix(..).or_else(..)`
abbrev pub or_else {ℓ} : {A : Type ℓ} → Option A → Option A → Option A
or_else none b = b
or_else (some a) b = some a

unfoldable pub bearer_token : Str → Outcome WireError Str
bearer_token value = ok_or missing_bearer_token (
    or_else (strip_prefix (codes "Bearer ") (trim value))
      (strip_prefix (codes "bearer ") (trim value)))

-- The `match` on the name of one header.
unfoldable pub header_line : Found → Str → Str → Outcome WireError Found
header_line found name value =
    let key = lowercase (trim name) in
    if str_eq key (codes "host")
    then ok (record found { host = some (trim value) })
    else if str_eq key (codes "authorization")
    then (do token ← bearer_token value; ok (record found { api_key = some token }))
    else if str_eq key (codes "content-type")
    then ok (record found { content_type = some (trim value) })
    else if str_eq key (codes "connection")
    then ok (record found { connection = some (trim value) })
    else ok found

-- The loop over the lines behind the request line.
unfoldable pub lines_loop : List Str → Found → Outcome WireError Found
lines_loop [] found = ok found
lines_loop (line ∷ lines) found = elim (split_once b':' line) [
  | none ↦ lines_loop lines found
  | some (name, value) ↦ (do found' ← header_line found name value; lines_loop lines found')
]

-- The method and the path of the request line.
unfoldable pub request_path : Str → Outcome WireError Str
request_path request_line = do
  let parts = split_whitespace request_line
  method ← ok_or missing_method (next parts)
  guard (str_eq method (codes "POST")) not_post
  ok_or missing_path (next (rest parts))

unfoldable pub parse_headers : Bytes → Outcome WireError ParsedHeaders
parse_headers headers = do
  headers_str ← ok_or invalid_utf8 (from_utf8 headers)
  let lines = split_crlf headers_str
  request_line ← ok_or missing_request_line (next lines)
  basepath ← request_path request_line
  found ← lines_loop (rest lines) nothing_found
  host ← ok_or missing_host found.host
  api_key ← ok_or missing_authorization found.api_key
  content_type ← ok_or missing_content_type found.content_type
  connection ← ok_or missing_connection found.connection
  ok (record {
    host = host;
    basepath = basepath;
    api_key = api_key;
    content_type = content_type;
    connection = connection;
  })

unfoldable pub validate_headers : ParsedHeaders → RequestConfig → Outcome WireError (Unit {0})
validate_headers parsed config = do
  guard (str_eq parsed.host config.host) host_mismatch
  guard (str_eq parsed.basepath config.basepath) path_mismatch
  guard (str_eq parsed.api_key config.api_key) api_key_mismatch
  guard (str_eq parsed.content_type (codes "application/json")) content_type_mismatch
  guard (eq_ignore_ascii_case parsed.connection (codes "close")) connection_mismatch
