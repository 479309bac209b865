-- ===== src/Openai/Check/Checked.antt =====
-- What `check_and_pad` guarantees of the request that it returns.
use zk_prompt.Base.{
  ℕ, ◌≡◌, inl, inr, ap, sym, ◌∙◌, true, Option, [], ◌++◌, Bytes, length, ◌==◌, ==_iff, arith,
  Bool-cases, replicate, ◌-◌,
}
use zk_prompt.Base.Text.{codes}
use zk_prompt.Base.Utf8.{from_utf8}
use zk_prompt.Base.Words.{split_crlf, eq_ignore_ascii_case}
use zk_prompt.Base.Outcome.{ok, ok_or, >>=-eq-ok}
use zk_prompt.Openai.Config.{RequestConfig}
use zk_prompt.Openai.Wire.{http_body_sep, split_http, pad_body}
use zk_prompt.Openai.Wire.Padding.{Padded, pad_body_outcome, split_http-joins}
use zk_prompt.Openai.Headers.{ParsedHeaders, parse_headers, validate_headers}
use zk_prompt.Openai.Headers.Valid.{validate_headers_iff}
use zk_prompt.Openai.Check.{
  ChatRequest, PaddedRequest, validate_chat_body, rebuild_loop, rebuild_request, pad_request,
  check_and_pad,
}

pub pad_body-length :
    (body : Bytes) (target_len : ℕ) {new_body : Bytes}
    → pad_body body target_len ≡ ok new_body
    → (length new_body ≡ target_len) × Padded body target_len new_body
pad_body-length body target_len {new_body} h = elim (pad_body_outcome body target_len) [
  | inl padded ↦
      let (other, e, size, pads) = padded in
      let same : other ≡ new_body = cc (e, h) in
      (sym (ap length same) ∙ size, (pads.0, pads.1, sym same ∙ pads.2))
  | inr (inl long) ↦ cc (h, long.0)
  | inr (inr (inl short)) ↦ cc (h, short.0)
  | inr (inr (inr large)) ↦ cc (h, large.0)
]

rebuild_request-body :
    (headers body : Bytes) (n : ℕ) {wire : Bytes}
    → rebuild_request headers body n ≡ ok wire
    → (front : Bytes) × (wire ≡ front ++ (http_body_sep ++ body))
unfolding rebuild_request
rebuild_request-body headers body n h =
    let (text, decoded, e) = >>=-eq-ok (ok_or _ (from_utf8 headers)) _ h in
    (rebuild_loop n (split_crlf text) 0 [], cc (e))

-- A request that ends, behind a blank line, in a body of the wanted length.
abbrev pub EndsIn : ℕ → PaddedRequest → Type 0
EndsIn n p =
    (length p.body ≡ n) × ((front : Bytes) × (p.request ≡ front ++ (http_body_sep ++ p.body)))

pad_request_lem :
    (data' headers body : Bytes) (n : ℕ) {p : PaddedRequest}
    → data' ≡ headers ++ (http_body_sep ++ body)
    → pad_request data' headers body n ≡ ok p
    → EndsIn n p × Padded body n p.body
unfolding pad_request
pad_request_lem data' headers body n {p} joined h = elim (Bool-cases (length body == n)) [
  | inl same ↦
      let kept = rw same at h in
      let size = (==_iff (length body) n).0 same in
      let is_data : data' ≡ p.request = cc (kept) in
      let is_body : body ≡ p.body = cc (kept) in
      let pads : Padded body n body =
        let z : 0 ≡ n - length body = omega (arith, size) in
        (0, omega arith, ap (λ (k : ℕ). replicate k b' ' ++ body) z) in
      (
        (
          sym (ap length is_body) ∙ size,
          (
            headers,
            sym is_data ∙ joined ∙ ap (λ (l : Bytes). headers ++ (http_body_sep ++ l)) is_body,
          ),
        ),
        (pads.0, pads.1, sym is_body ∙ pads.2),
      )
  | inr differs ↦
      let run = rw differs at h in
      let (new_body, padded, run') = >>=-eq-ok (pad_body body n) _ run in
      let (wire, rebuilt, done) = >>=-eq-ok (rebuild_request headers new_body n) _ run' in
      let (front, joins) = rebuild_request-body headers new_body n rebuilt in
      let is_wire : wire ≡ p.request = cc (done) in
      let is_body : new_body ≡ p.body = cc (done) in
      let good = pad_body-length body n padded in
      (
        (
          sym (ap length is_body) ∙ good.0,
          (front, sym is_wire ∙ joins ∙ ap (λ (l : Bytes). front ++ (http_body_sep ++ l)) is_body),
        ),
        (good.1.0, good.1.1, sym is_body ∙ good.1.2),
      )
]

-- What the checks found in a request: its headers are the configured ones, and its body is a chat.
pub record IsChecked (parse_chat : Bytes → Option ChatRequest) (config : RequestConfig)
    (headers body : Bytes) : Type 0 where
  pub parsed : ParsedHeaders
  pub parses : parse_headers headers ≡ ok parsed
  pub same_host : parsed.host ≡ config.host
  pub same_path : parsed.basepath ≡ config.basepath
  pub same_key : parsed.api_key ≡ config.api_key
  pub is_json : parsed.content_type ≡ codes "application/json"
  pub closes : eq_ignore_ascii_case parsed.connection (codes "close") ≡ true
  pub is_chat : validate_chat_body parse_chat body ≡ ok tt

-- If `check_and_pad` accepts a request, then the request is headers, a blank line and a body, the
-- headers parse to the configured host, path and key, ask for JSON and close the connection, and
-- the body is a chat. The body that it returns is that body with spaces put in at one place, has
-- the configured length, and is what the request that it returns ends in, behind a blank line.
pub check_and_pad_sound :
    (parse_chat : Bytes → Option ChatRequest) (config : RequestConfig) (data' : Bytes)
    (p : PaddedRequest)
    → check_and_pad parse_chat config data' ≡ ok p
    → (headers : Bytes) × (body : Bytes) × (data' ≡ headers ++ (http_body_sep ++ body))
      × IsChecked parse_chat config headers body
      × EndsIn config.content_length p
      × Padded body config.content_length p.body
unfolding check_and_pad
check_and_pad_sound parse_chat config data' p h =
    let ((headers, body), splits, h1) = >>=-eq-ok (split_http data') _ h in
    let (parsed, parses, h2) = >>=-eq-ok (parse_headers headers) _ h1 in
    let (_, valid, h3) = >>=-eq-ok (validate_headers parsed config) _ h2 in
    let (_, chat, h4) = >>=-eq-ok (validate_chat_body parse_chat body) _ h3 in
    let (host, path, key, json, close) = (validate_headers_iff parsed config).0 valid in
    let joined = split_http-joins data' headers body splits in
    let ends = pad_request_lem data' headers body config.content_length joined h4 in
    let checked : IsChecked parse_chat config headers body = record {
      parsed = parsed;
      parses = parses;
      same_host = host;
      same_path = path;
      same_key = key;
      is_json = json;
      closes = close;
      is_chat = chat;
    } in
    (headers, body, joined, checked, ends.0, ends.1)
