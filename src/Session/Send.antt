-- ===== src/Session/Send.antt =====
-- client/src/client/mod.rs: `send` of `ZKClient` as an HTTP client: the request is encoded, executed,
-- and the response decoded. `send_multipart` and `send_streaming`, which only pass the call on to
-- the plain HTTP client, are left out.
use zk_prompt.Base.{
  AllBytes, ℕ, ◌+◌, ◌^◌, ◌≤◌, ◌<◌, ◌≡◌, refl, ap, ◌∙◌, Option, none, some, List, Bytes, ◌++◌,
}
use zk_prompt.Base.Text.{Str, into_bytes}
use zk_prompt.Base.Utf8.{AllScalar}
use zk_prompt.Base.Words.{NoCr}
use zk_prompt.Base.Outcome.{Outcome, ok, err, panic, ok_or}
use zk_prompt.Field.{PrimeField}
use zk_prompt.Gadgets.{Gadgets}
use zk_prompt.Openai.Config.{RequestConfig, body_start}
use zk_prompt.Openai.Wire.{http_body_sep, pad_body}
use zk_prompt.Openai.Check.{ChatRequest, validate_chat_body}
use zk_prompt.Openai.Check.Lines.{IsTidy, join_lines, AllLines, AllScalars}
use zk_prompt.Client.{Request, encode_request}
use zk_prompt.Client.Encoded.{chat_request}
use zk_prompt.Client.Response.{Http, DecodeError, protocol, builder_loop, decode_response}
use zk_prompt.Client.Response.Decoded.{status_text, decode_response-written}
use zk_prompt.Session.Rustls.{Rustls, max_plaintext}
use zk_prompt.Session.Groth16.{Groth16}
use zk_prompt.Session.Prove.{ProveSession, prove}
use zk_prompt.Session.Execute.{Network, ExecuteError, execute}
use zk_prompt.Session.Chat.{IsWorking, chat_proved}

pub data SendError : Type 0 where
  not_executed : ExecuteError → SendError
  not_decoded : DecodeError → SendError

module _ (h : Http) where
  abbrev pub as_not_decoded : Outcome DecodeError (h.Response) → Outcome SendError (h.Response)
  as_not_decoded (ok response) = ok response
  as_not_decoded (err e) = err (not_decoded e)
  as_not_decoded panic = panic

  -- The session is what `execute` leaves, also if the response cannot be decoded.
  abbrev pub decode_result :
      Outcome ExecuteError Bytes × ProveSession → Outcome SendError (h.Response) × ProveSession
  decode_result (ok response, session) = (as_not_decoded (decode_response h response), session)
  decode_result (err e, session) = (err (not_executed e), session)
  decode_result (panic, session) = (panic, session)

  unfoldable pub send :
      (Bytes → Option ChatRequest)
      → RequestConfig
      → ProveSession
      → Network
      → Request
      → Outcome SendError (h.Response) × ProveSession
  send parse_chat config session network req =
      decode_result (execute parse_chat config session network (encode_request req))

module _ (h : Http) (parse_chat : Bytes → Option ChatRequest) (t : Rustls) {f : PrimeField}
    (g : Gadgets f) (s : Groth16 g) where
  -- A chat whose body can be padded to the configured length is sent under a configuration whose
  -- texts fit the syntax of headers, with a request no longer than the cipher takes, on a network
  -- that works. The server answers with a status line with a status below 2 ^ 16, header lines that
  -- are not empty, a blank line and a body, the lines in Unicode and without a carriage return, and
  -- the builder accepts them. Then `send` returns what the builder makes of the answer's status,
  -- header lines and body, and on the session that it leaves `prove` succeeds and empties it.
  pub send_proved :
      (c : RequestConfig) (session : ProveSession) (network : Network) (content new_body : Bytes)
      (n : ℕ) (reason : Str) (lines : List Str) (answer : Bytes) (response : h.Response)
      → IsTidy c
      → IsWorking network
          (into_bytes (join_lines (status_text n reason) lines) ++ (http_body_sep ++ answer))
      → AllBytes content
      → validate_chat_body parse_chat content ≡ ok tt
      → pad_body content c.content_length ≡ ok new_body
      → body_start c + c.content_length ≤ max_plaintext
      → n < 2 ^ 16
      → NoCr reason
      → AllScalar reason
      → AllLines lines
      → AllScalars lines
      → h.body answer (builder_loop h lines (h.status n (h.builder))) ≡ some response
      → (session' : ProveSession) × (send h parse_chat c session network (chat_request c content)
          ≡ (ok response, session'))
        × (prove t g s c session' ≡ (ok tt, none))
  unfolding send
  send_proved c session network content new_body n reason lines answer response tidy w bytes chat
        pads room small line_r scalar_r line_l scalar_l builds =
      let (m, executes, same_body, same_response, proves) =
        chat_proved parse_chat t g s c session network _ content new_body tidy w bytes chat pads
          room in
      let decodes =
        decode_response-written h n reason lines answer small line_r scalar_r line_l scalar_l
        ∙ ap (ok_or protocol) builds in
      (some m, rw (executes, decodes) refl, proves)
