-- ===== src/Openai/Check/Accepted.antt =====
-- `check_and_pad` on a chat under the header template, with a body of any length.
use zk_prompt.Base.{
  ℕ, ◌<◌, ltb, true, false, arith, ◌∙◌, ◌≡◌, refl, Option, ◌++◌, Bytes, length, ◌==◌, ==_iff,
  Bool-cases, inl, inr,
}
use zk_prompt.Base.Text.{codes}
use zk_prompt.Base.Words.{eq_ignore_ascii_case}
use zk_prompt.Base.Outcome.{ok, err}
use zk_prompt.Openai.Config.{RequestConfig, template}
use zk_prompt.Openai.Wire.{body_too_long, pad_body}
use zk_prompt.Openai.Headers.{validate_headers}
use zk_prompt.Openai.Headers.Valid.{validate_headers_iff}
use zk_prompt.Openai.Check.{
  ChatRequest, PaddedRequest, validate_chat_body, pad_request, check_and_pad,
}
use zk_prompt.Openai.Check.Lines.{IsTidy}
use zk_prompt.Openai.Check.Blank.{header_bytes}
use zk_prompt.Openai.Check.Parsed.{parsed_of, split_http-template, parse_headers-template}
use zk_prompt.Openai.Check.Rebuilt.{sized, rebuild_request-template}

pub sized-IsTidy : (c : RequestConfig) (n : ℕ) → IsTidy c → IsTidy (sized c n)
sized-IsTidy c n t = record {
  host_scalar = t.host_scalar;
  path_scalar = t.path_scalar;
  key_scalar = t.key_scalar;
  host_line = t.host_line;
  host_trimmed = t.host_trimmed;
  path_word = t.path_word;
  path_some = t.path_some;
  key_line = t.key_line;
  key_trimmed = t.key_trimmed;
  key_some = t.key_some;
}

-- The request as it arrives: the template with the body's own length, an empty line and the body.
abbrev pub arriving : RequestConfig → Bytes → Bytes
arriving c body = template (sized c (length body)) ++ (codes "\r\n" ++ body)

module _ (parse_chat : Bytes → Option ChatRequest) (c : RequestConfig) (t : IsTidy c) (body : Bytes)
    (chat : validate_chat_body parse_chat body ≡ ok tt) where
  validated : validate_headers (parsed_of (sized c (length body))) c ≡ ok tt
  unfolding eq_ignore_ascii_case
  validated =
      (validate_headers_iff (parsed_of (sized c (length body))) c).1 (refl, refl, refl, refl, refl)

  -- A chat under the template passes the checks.
  check_and_pad-template :
      check_and_pad parse_chat c (arriving c body)
      ≡ pad_request (arriving c body) (header_bytes (sized c (length body))) body c.content_length
  unfolding check_and_pad
  check_and_pad-template =
      rw
        (
          split_http-template (sized c (length body)) (sized-IsTidy c (length body) t) body,
          parse_headers-template (sized c (length body)) (sized-IsTidy c (length body) t),
          validated,
          chat,
        )
        refl

  pub check_and_pad-too_long :
      c.content_length < length body
      → check_and_pad parse_chat c (arriving c body) ≡ err body_too_long
  unfolding pad_request pad_body
  check_and_pad-too_long long =
      let differs : (length body == c.content_length) ≡ false = ground (arith, long) in
      let longer : ltb c.content_length (length body) ≡ true = ground (arith, long) in
      check_and_pad-template ∙ rw (differs, longer) refl

module _ (parse_chat : Bytes → Option ChatRequest) (c : RequestConfig) (t : IsTidy c)
    (body new_body : Bytes) (chat : validate_chat_body parse_chat body ≡ ok tt)
    (pads : pad_body body c.content_length ≡ ok new_body) where
  -- The request as it is expected.
  abbrev padded : PaddedRequest
  padded = record { request = template c ++ (codes "\r\n" ++ new_body); body = new_body }

  pads_request :
      pad_request (arriving c body) (header_bytes (sized c (length body))) body c.content_length
      ≡ ok padded
  unfolding pad_request
  pads_request = elim (Bool-cases (length body == c.content_length)) [
    | inl same ↦
        let size = (==_iff (length body) c.content_length).0 same in
        let unpadded : pad_body body c.content_length ≡ ok body = unfold pad_body in rw same refl in
        let whole : body ≡ new_body = cc (unpadded, pads) in
        rw same (λ i. ok (record {
          request = template (sized c (size i)) ++ (codes "\r\n" ++ whole i);
          body = whole i;
        }))
    | inr differs ↦
        rw
          (
            differs,
            pads,
            rebuild_request-template (sized c (length body)) (sized-IsTidy c (length body) t)
                new_body c.content_length,
          )
          refl
  ]

  -- If the texts of the configuration fit the syntax of headers (`IsTidy`), the body is a chat, and
  -- it can be padded to the configured length, then `check_and_pad` accepts the header template
  -- with the body's own length, an empty line and the body; it returns the template of the
  -- configuration, an empty line and the padded body.
  pub check_and_pad_complete : check_and_pad parse_chat c (arriving c body) ≡ ok padded
  check_and_pad_complete = check_and_pad-template parse_chat c t body chat ∙ pads_request
