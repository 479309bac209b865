-- ===== src/Openai/Wire.antt =====
-- prover/src/openai/wire.rs: the request as bytes. `split_http`, the padding of the body, and
-- `body_region_from_wire`; the texts of the errors are left out.
pub mod Padding
pub mod Split
use zk_prompt.Base.{
  ℕ, zero, suc, ◌+◌, ◌-◌, ◌^◌, Bool, true, false, ◌&&◌, Option, none, some, List, [], ◌∷◌, ◌++◌,
  Bytes, length, drop, replicate, ltb, ◌==◌, if◌then◌else◌,
}
use zk_prompt.Base.Text.{codes}
use zk_prompt.Base.Partial.{slice}
use zk_prompt.Base.Outcome.{Outcome, ok, err, panic, ◌>>=◌, ◌>>◌, assert, in_range, ok_or}
use zk_prompt.Openai.Config.{RequestConfig, body_start}

pub data WireError : Type 0 where
  missing_separator : WireError
  no_user_content : WireError
  body_too_long : WireError
  padding_failed : WireError
  wire_too_short : WireError
  invalid_utf8 : WireError
  missing_request_line : WireError
  missing_method : WireError
  not_post : WireError
  missing_path : WireError
  missing_bearer_token : WireError
  missing_host : WireError
  missing_authorization : WireError
  missing_content_type : WireError
  missing_connection : WireError
  host_mismatch : WireError
  path_mismatch : WireError
  api_key_mismatch : WireError
  content_type_mismatch : WireError
  connection_mismatch : WireError
  invalid_json : WireError
  empty_model : WireError
  missing_roles : WireError

abbrev pub http_body_sep : Bytes
http_body_sep = codes "\r\n\r\n"

abbrev pub user_content_marker : Bytes
user_content_marker = codes "\"role\":\"user\",\"content\":\""

-- Whether the bytes begin with the pattern: the window at their start equals it.
unfoldable pub starts_with : Bytes → Bytes → Bool
starts_with [] bytes = true
starts_with (p ∷ ps) [] = false
starts_with (p ∷ ps) (b ∷ bytes) = p == b && starts_with ps bytes

-- `windows(pattern.len()).position(|window| window == pattern)` for a pattern that is not empty,
-- with the windows numbered from `i` on.
unfoldable pub position : Bytes → Bytes → ℕ → Option ℕ
position pattern' [] i = none
position pattern' (b ∷ bytes) i =
    let later = position pattern' bytes (i + 1) in
    if starts_with pattern' (b ∷ bytes) then some i else later

unfoldable pub split_http : Bytes → Outcome WireError (Bytes × Bytes)
split_http data' = do
  sep_pos ← ok_or missing_separator (position http_body_sep data' 0)
  headers ← in_range (slice 0 sep_pos data')
  body ← in_range (slice (sep_pos + length http_body_sep) (length data') data')
  ok (headers, body)

-- The `while` loop of `user_content_pad_position`, over the bytes from `pos` on.
unfoldable pub pad_loop : Bytes → ℕ → Bool → Option ℕ
pad_loop [] pos escaped = none
pad_loop (byte ∷ rest) pos escaped =
    let next = pad_loop rest (pos + 1) in
    if escaped
    then next false
    else if byte == b'\\'
    then next true
    else if byte == b'"'
    then some pos
    else next false

unfoldable pub user_content_pad_position : Bytes → Outcome WireError ℕ
user_content_pad_position body = do
  start ← ok_or no_user_content (position user_content_marker body 0)
  let pos = start + length user_content_marker
  ok_or no_user_content (pad_loop (drop pos body) pos false)

-- The part of `pad_body` behind the two tests of the length. `Vec::with_capacity` panics above
-- `isize::MAX`, here that of 64 bits.
unfoldable pub insert_padding : Bytes → ℕ → Outcome WireError Bytes
insert_padding body target_len = do
  insert_pos ← user_content_pad_position body
  assert (ltb target_len (2 ^ 63))
  before ← in_range (slice 0 insert_pos body)
  after ← in_range (slice insert_pos (length body) body)
  let new_body = before ++ replicate (target_len - length body) b' ' ++ after
  (if length new_body == target_len then ok new_body else err padding_failed)

unfoldable pub pad_body : Bytes → ℕ → Outcome WireError Bytes
pad_body body target_len =
    let padded = insert_padding body target_len in
    if length body == target_len
    then ok body
    else if ltb target_len (length body)
    then err body_too_long
    else padded

-- The sum is one of ℕ: where that of `usize` would overflow, no wire is long enough.
unfoldable pub body_region_from_wire : Bytes → RequestConfig → Outcome WireError Bytes
body_region_from_wire wire config =
    let body_end = body_start config + config.content_length in
    if ltb (length wire) body_end
    then err wire_too_short
    else in_range (slice (body_start config) body_end wire)
