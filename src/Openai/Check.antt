-- ===== src/Openai/Check.antt =====
-- prover/src/openai/wire.rs: `validate_chat_body`, `rebuild_request` and `check_and_pad`. The JSON
-- parser (serde_json) is an argument: what it reads of a body, or nothing if the body is not a
-- chat request.
pub mod Lines
pub mod Blank
pub mod Parsed
pub mod Rebuilt
pub mod Accepted
pub mod Checked
pub mod Total
use zk_prompt.Base.{
  ℕ, suc, ◌+◌, Bool, true, false, ◌&&◌, ◌||◌, not, Option, none, some, List, [], ◌∷◌, ◌++◌, Bytes,
  length, ltb, ◌==◌, if◌then◌else◌,
}
use zk_prompt.Base.Text.{Str, codes, str_eq, into_bytes, decimal}
use zk_prompt.Base.Utf8.{from_utf8}
use zk_prompt.Base.Words.{eq_ignore_ascii_case, split_once, split_crlf}
use zk_prompt.Base.Outcome.{Outcome, ok, err, panic, ◌>>=◌, ◌>>◌, ok_or, guard}
use zk_prompt.Openai.Config.{RequestConfig}
use zk_prompt.Openai.Wire.{
  WireError, invalid_utf8, invalid_json, empty_model, missing_roles, split_http, pad_body,
}
use zk_prompt.Openai.Headers.{ParsedHeaders, parse_headers, validate_headers}

pub record ChatMessage : Type 0 where
  pub role : Str

pub record ChatRequest : Type 0 where
  pub model : Str
  pub messages : List ChatMessage

-- `messages.iter().any(|message| message.role == role)`
unfoldable pub has_role : Str → List ChatMessage → Bool
has_role role [] = false
has_role role (m ∷ messages) = str_eq m.role role || has_role role messages

-- `str::is_empty`
abbrev pub is_empty : Str → Bool
is_empty [] = true
is_empty (c ∷ s) = false

unfoldable pub validate_chat_body :
    (Bytes → Option ChatRequest) → Bytes → Outcome WireError (Unit {0})
validate_chat_body parse_chat body = do
  request ← ok_or invalid_json (parse_chat body)
  guard (not (is_empty request.model)) empty_model
  guard (has_role (codes "system") request.messages && has_role (codes "user") request.messages)
      missing_roles

-- The bytes of one line: a content length header is replaced.
abbrev pub is_content_length : Option (Str × Str) → Bool
is_content_length none = false
is_content_length (some (key, _)) = eq_ignore_ascii_case key (codes "content-length")

unfoldable pub rebuild_line : ℕ → Str → Bytes
rebuild_line content_length line =
    if is_content_length (split_once b':' line)
    then into_bytes (codes "Content-Length: " ++ decimal content_length)
    else into_bytes line

-- The loop over the lines with their index.
unfoldable pub rebuild_loop : ℕ → List Str → ℕ → Bytes → Bytes
rebuild_loop content_length [] index wire = wire
rebuild_loop content_length (line ∷ lines) index wire =
    rebuild_loop content_length lines (index + 1)
      ((if ltb 0 index then wire ++ codes "\r\n" else wire) ++ rebuild_line content_length line)

unfoldable pub rebuild_request : Bytes → Bytes → ℕ → Outcome WireError Bytes
rebuild_request headers body content_length = do
  headers_str ← ok_or invalid_utf8 (from_utf8 headers)
  let wire = rebuild_loop content_length (split_crlf headers_str) 0 []
  ok (wire ++ (codes "\r\n\r\n" ++ body))

pub record PaddedRequest : Type 0 where
  pub request : Bytes
  pub body : Bytes

-- The part of `check_and_pad` behind the checks.
unfoldable pub pad_request : Bytes → Bytes → Bytes → ℕ → Outcome WireError PaddedRequest
pad_request data' headers body target_len =
    if length body == target_len then ok (record { request = data'; body = body }) else (do
      new_body ← pad_body body target_len
      request ← rebuild_request headers new_body target_len
      ok (record { request = request; body = new_body }))

unfoldable pub check_and_pad :
    (Bytes → Option ChatRequest) → RequestConfig → Bytes → Outcome WireError PaddedRequest
check_and_pad parse_chat config data' = do
  (headers, body) ← split_http data'
  parsed ← parse_headers headers
  validate_headers parsed config
  validate_chat_body parse_chat body
  pad_request data' headers body config.content_length
