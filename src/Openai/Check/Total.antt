-- ===== src/Openai/Check/Total.antt =====
-- The panics of `check_and_pad` (prover/src/openai/wire.rs) and of what it calls.
use zk_prompt.Base.{
  ℕ, ◌+◌, ◌^◌, ◌<◌, ◌≢◌, inl, inr, not, Option, none, some, List, [], ◌∷◌, Bytes, length, ◌==◌,
  arith, Bool-cases,
}
use zk_prompt.Base.Text.{Str, codes, str_eq}
use zk_prompt.Base.Utf8.{from_utf8}
use zk_prompt.Base.Words.{split_once, split_crlf, split_whitespace}
use zk_prompt.Base.Partial.{slice-zero}
use zk_prompt.Base.Outcome.{
  panic, ◌>>=◌, ok_or, guard, NoPanic, ok-NoPanic, >>=-NoPanic, ok_or-NoPanic, guard-NoPanic,
  ok_or-eq-ok,
}
use zk_prompt.Openai.Config.{RequestConfig}
use zk_prompt.Openai.Wire.{missing_separator, http_body_sep, position, split_http, pad_body}
use zk_prompt.Openai.Wire.Padding.{pad_body_outcome, position_lem, slice-to_end}
use zk_prompt.Openai.Headers.{
  Found, nothing_found, next, rest, bearer_token, header_line, lines_loop, request_path,
  parse_headers, ParsedHeaders, validate_headers,
}
use zk_prompt.Openai.Check.{
  ChatRequest, is_empty, validate_chat_body, rebuild_request, pad_request, check_and_pad,
}

split_http-NoPanic : (data' : Bytes) → NoPanic (split_http data')
unfolding split_http
split_http-NoPanic data' =
    >>=-NoPanic (ok_or missing_separator (position http_body_sep data' 0)) _ (ok_or-NoPanic _ _)
      (λ n found.
        let (k, e, fits, at) =
          position_lem http_body_sep data' 0 n (ok_or-eq-ok missing_separator _ found) in
        rw
          (
            slice-zero n data' (omega (arith, fits, e)),
            slice-to_end (n + 4) data' (omega (arith, fits, e)),
          )
          (ok-NoPanic _))

header_line-NoPanic : (found : Found) (name value : Str) → NoPanic (header_line found name value)
unfolding header_line bearer_token
header_line-NoPanic found name value = ground arith

lines_loop-NoPanic : (lines : List Str) (found : Found) → NoPanic (lines_loop lines found)
unfolding lines_loop
lines_loop-NoPanic [] found = ok-NoPanic found
lines_loop-NoPanic (line ∷ lines) found =
    elim (split_once b':' line)
      as (λ o. NoPanic (elim o [
        | none ↦ lines_loop lines found
        | some (name, value) ↦ (header_line found name value >>= λ found'. lines_loop lines found')
      ])) [
        | none ↦ lines_loop-NoPanic lines found
        | some (name, value) ↦
            >>=-NoPanic (header_line found name value) _ (header_line-NoPanic found name value)
              (λ found' read. lines_loop-NoPanic lines found')
      ]

request_path-NoPanic : (line : Str) → NoPanic (request_path line)
unfolding request_path
request_path-NoPanic line =
    >>=-NoPanic (ok_or _ (next (split_whitespace line))) _ (ok_or-NoPanic _ _) (λ method found.
      >>=-NoPanic (guard (str_eq method (codes "POST")) _) _ (guard-NoPanic _ _)
        (λ _ passed. ok_or-NoPanic _ _))

parse_headers-NoPanic : (headers : Bytes) → NoPanic (parse_headers headers)
unfolding parse_headers
parse_headers-NoPanic headers =
    >>=-NoPanic (ok_or _ (from_utf8 headers)) _ (ok_or-NoPanic _ _) (λ text decoded.
      >>=-NoPanic (ok_or _ (next (split_crlf text))) _ (ok_or-NoPanic _ _) (λ line found.
        >>=-NoPanic (request_path line) _ (request_path-NoPanic line) (λ path is_path.
          >>=-NoPanic (lines_loop (rest (split_crlf text)) nothing_found) _ (lines_loop-NoPanic _ _)
            (λ found' loop. >>=-NoPanic (ok_or _ found'.host) _ (ok_or-NoPanic _ _) (λ host h1.
              >>=-NoPanic (ok_or _ found'.api_key) _ (ok_or-NoPanic _ _) (λ key h2.
                >>=-NoPanic (ok_or _ found'.content_type) _ (ok_or-NoPanic _ _) (λ type' h3.
                  >>=-NoPanic (ok_or _ found'.connection) _ (ok_or-NoPanic _ _)
                    (λ close h4. ok-NoPanic _))))))))

validate_headers-NoPanic :
    (parsed : ParsedHeaders) (config : RequestConfig) → NoPanic (validate_headers parsed config)
unfolding validate_headers
validate_headers-NoPanic parsed config = ground arith

validate_chat_body-NoPanic :
    (parse_chat : Bytes → Option ChatRequest) (body : Bytes)
    → NoPanic (validate_chat_body parse_chat body)
unfolding validate_chat_body
validate_chat_body-NoPanic parse_chat body =
    >>=-NoPanic (ok_or _ (parse_chat body)) _ (ok_or-NoPanic _ _) (λ request read.
      >>=-NoPanic (guard (not (is_empty request.model)) _) _ (guard-NoPanic _ _)
        (λ _ passed. guard-NoPanic _ _))

pad_body-NoPanic : (body : Bytes) (n : ℕ) → n < 2 ^ 63 → NoPanic (pad_body body n)
pad_body-NoPanic body n fits = elim (pad_body_outcome body n) [
  | inl padded ↦ λ e. cc (e, padded.1)
  | inr (inl long) ↦ λ e. cc (e, long.0)
  | inr (inr (inl short)) ↦ λ e. cc (e, short.0)
  | inr (inr (inr large)) ↦ absurd (omega (arith, large.2, fits))
]

pad_request-NoPanic :
    (data' headers body : Bytes) (n : ℕ) → n < 2 ^ 63 → NoPanic (pad_request data' headers body n)
unfolding pad_request rebuild_request
pad_request-NoPanic data' headers body n fits = elim (Bool-cases (length body == n)) [
  | inl same ↦ rw same (ok-NoPanic _)
  | inr differs ↦
      let rebuilt : (new_body : Bytes) → NoPanic (rebuild_request headers new_body n) = λ new_body.
        >>=-NoPanic (ok_or _ (from_utf8 headers)) _ (ok_or-NoPanic _ _)
          (λ text decoded. ok-NoPanic _) in
      rw differs (
        >>=-NoPanic (pad_body body n) _ (pad_body-NoPanic body n fits) (λ new_body padded.
          >>=-NoPanic (rebuild_request headers new_body n) _ (rebuilt new_body)
            (λ wire built. ok-NoPanic _)))
]

-- `check_and_pad` does not panic for a configured length below 2 ^ 63, whatever the bytes are and
-- whatever the JSON parser reads of them.
pub check_and_pad_total :
    (parse_chat : Bytes → Option ChatRequest) (config : RequestConfig) (data' : Bytes)
    → config.content_length < 2 ^ 63
    → check_and_pad parse_chat config data' ≢ panic
unfolding check_and_pad
check_and_pad_total parse_chat config data' fits =
    >>=-NoPanic (split_http data') _ (split_http-NoPanic data') (λ (headers, body) splits.
      >>=-NoPanic (parse_headers headers) _ (parse_headers-NoPanic headers) (λ parsed parses.
        >>=-NoPanic (validate_headers parsed config) _ (validate_headers-NoPanic parsed config)
          (λ _ valid.
            >>=-NoPanic (validate_chat_body parse_chat body) _ (validate_chat_body-NoPanic _ _)
              (λ _ chat. pad_request-NoPanic data' headers body config.content_length fits))))
