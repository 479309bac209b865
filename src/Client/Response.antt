-- ===== src/Client/Response.antt =====
-- client/src/utils.rs: `decode_response`. The builder of responses (http) is an interface: what the
-- function calls of it.
pub mod Decoded
pub mod Headers
use zk_prompt.Base.{ℕ, ◌+◌, ◌^◌, Option, none, some, List, [], ◌∷◌, Bytes, length}
use zk_prompt.Base.Text.{Str}
use zk_prompt.Base.Utf8.{from_utf8}
use zk_prompt.Base.Words.{trim, split_once, split_crlf, split_whitespace}
use zk_prompt.Base.Numbers.{parse_unsigned}
use zk_prompt.Base.Partial.{slice}
use zk_prompt.Base.Outcome.{Outcome, ok, ◌>>=◌, in_range, ok_or}
use zk_prompt.Openai.Wire.{http_body_sep, position}
use zk_prompt.Openai.Headers.{next, rest}

pub record Http : Type 1 where
  pub Builder : Type 0
  pub Response : Type 0
  -- `Response::builder`, and its `status`, `header` and `body`
  pub builder : Builder
  pub status : ℕ → Builder → Builder
  pub header : Str → Str → Builder → Builder
  pub body : Bytes → Builder → Option Response

pub data DecodeError : Type 0 where
  missing_terminator : DecodeError
  invalid_headers : DecodeError
  missing_status_line : DecodeError
  missing_status_code : DecodeError
  invalid_status : DecodeError
  protocol : DecodeError

module _ (h : Http) where
  abbrev pub add_header : Option (Str × Str) → h.Builder → h.Builder
  add_header none builder = builder
  add_header (some (name, value)) builder = h.header (trim name) (trim value) builder

  -- The loop over the lines behind the status line.
  unfoldable pub builder_loop : List Str → h.Builder → h.Builder
  builder_loop [] builder = builder
  builder_loop (line ∷ lines) builder =
      builder_loop lines (add_header (split_once b':' line) builder)

  unfoldable pub decode_response : Bytes → Outcome DecodeError (h.Response)
  decode_response data' = do
    header_end ← ok_or missing_terminator (position http_body_sep data' 0)
    head ← in_range (slice 0 (header_end + 4) data')
    body ← in_range (slice (header_end + 4) (length data') data')
    head_bytes ← in_range (slice 0 header_end head)
    text ← ok_or invalid_headers (from_utf8 head_bytes)
    let lines = split_crlf text
    status_line ← ok_or missing_status_line (next lines)
    status_code ← ok_or missing_status_code (next (rest (split_whitespace status_line)))
    status ← ok_or invalid_status (parse_unsigned (2 ^ 16) status_code)
    let builder = builder_loop (rest lines) (h.status status (h.builder))
    ok_or protocol (h.body body builder)
