-- ===== src/Session/Refused.antt =====
-- A chat that is longer than the configuration allows, from the client's request to `execute`.
use zk_prompt.Base.{◌<◌, ◌≡◌, refl, ap, ◌∙◌, Option, Bytes, length}
use zk_prompt.Base.Outcome.{ok, err}
use zk_prompt.Openai.Config.{RequestConfig}
use zk_prompt.Openai.Wire.{body_too_long}
use zk_prompt.Openai.Check.{ChatRequest, validate_chat_body, check_and_pad}
use zk_prompt.Openai.Check.Lines.{IsTidy}
use zk_prompt.Openai.Check.Rebuilt.{sized}
use zk_prompt.Openai.Check.Accepted.{check_and_pad-too_long}
use zk_prompt.Client.{encode_request}
use zk_prompt.Client.Encoded.{chat_request, encode_request-template}
use zk_prompt.Session.Prove.{ProveSession}
use zk_prompt.Session.Execute.{Network, rejected, execute}

-- A chat whose body is longer than the configured length is refused, under a configuration whose
-- texts fit the syntax of headers: whatever the network would answer, `execute` on the bytes that
-- the client writes returns the error that the body is too long, and the session is as before.
pub chat_refused :
    (parse_chat : Bytes → Option ChatRequest) (c : RequestConfig) (session : ProveSession)
    (network : Network) (content : Bytes)
    → IsTidy c
    → validate_chat_body parse_chat content ≡ ok tt
    → c.content_length < length content
    → execute parse_chat c session network (encode_request (chat_request c content))
      ≡ (err (rejected body_too_long), session)
unfolding execute
chat_refused parse_chat c session network content tidy chat long =
    let refused =
      ap (check_and_pad parse_chat c)
        (encode_request-template (sized c (length content)) content refl)
      ∙ check_and_pad-too_long parse_chat c tidy content chat long in
    rw refused refl
