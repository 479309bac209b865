-- ===== src/Session/Calculator/Proves.antt =====
-- A run of the example.
use zk_prompt.Base.{
  AllBytes, ℕ, ◌+◌, ◌^◌, ◌≤◌, ◌<◌, ◌≡◌, refl, ◌∙◌, Option, none, some, List, Bytes, ◌++◌,
}
use zk_prompt.Base.Text.{Str, codes, decimal, into_bytes}
use zk_prompt.Base.Utf8.{AllScalar}
use zk_prompt.Base.Words.{NoCr}
use zk_prompt.Base.Outcome.{Outcome, ok}
use zk_prompt.Field.{PrimeField}
use zk_prompt.Gadgets.{Gadgets}
use zk_prompt.Openai.Config.{RequestConfig, body_start}
use zk_prompt.Openai.Env.{usize_bound, from_env-decimal}
use zk_prompt.Openai.Wire.{http_body_sep, pad_body}
use zk_prompt.Openai.Check.{ChatRequest, validate_chat_body}
use zk_prompt.Openai.Check.Lines.{IsTidy, join_lines, AllLines, AllScalars}
use zk_prompt.Client.{Request}
use zk_prompt.Client.Encoded.{chat_request}
use zk_prompt.Client.Response.{Http, builder_loop}
use zk_prompt.Client.Response.Decoded.{status_text}
use zk_prompt.Session.Rustls.{Rustls, max_plaintext}
use zk_prompt.Session.Groth16.{Groth16}
use zk_prompt.Session.Prove.{new_prove_session}
use zk_prompt.Session.Execute
use zk_prompt.Session.Execute.{Network}
use zk_prompt.Session.Chat.{IsWorking}
use zk_prompt.Session.Send.{SendError, send_proved}
use zk_prompt.Session.Calculator.{Agent, answered, asks, or_else, Library, prompt, finish, main}

-- An environment that sets the four variables to the texts of a configuration.
pub record IsConfigured (var : Str → Option Str) (c : RequestConfig) : Type 0 where
  pub is_api_key : var (codes "API_KEY") ≡ some c.api_key
  pub host : var (codes "HOST") ≡ some c.host
  pub basepath : var (codes "BASEPATH") ≡ some c.basepath
  pub content_length : var (codes "CONTENT_LENGTH") ≡ some (decimal c.content_length)
  pub fits : c.content_length < usize_bound

-- What the library makes of the program's texts.
abbrev pub agent_of : (h : Http) → Library h → (Str → Option Str) → RequestConfig → Option (Agent h)
agent_of h library var c =
    library c.api_key
      (or_else (var (codes "URL")) (codes "https://dashscope.aliyuncs.com/compatible-mode/v1"))
      (codes "qwen3.6-plus")
      (codes "You are a calculator here to help the user perform arithmetic operations.")
      (codes "Calculate 2 - 5.")

-- An agent that sends this request and answers with what the text makes of the response.
abbrev pub one_chat : (h : Http) → Request → (Outcome SendError h.Response → Option Str) → Agent h
one_chat h req text = asks req (λ result. answered (text result))

module _ (h : Http) (parse_chat : Bytes → Option ChatRequest) (t : Rustls) {f : PrimeField}
    (g : Gadgets f) (s : Groth16 g) where
  main_finishes :
      (var : Str → Option Str) (c : RequestConfig) (library : Library h) (networks : ℕ → Network)
      (agent : Agent h)
      → IsConfigured var c
      → agent_of h library var c ≡ some agent
      → main h parse_chat t g s var library networks
        ≡ finish h parse_chat t g s c (prompt h parse_chat c networks agent 0 new_prove_session)
  unfolding main Execute.new
  main_finishes var c library networks agent e builds =
      let config = from_env-decimal var c e.host e.basepath e.is_api_key e.content_length e.fits in
      rw (e.is_api_key) (rw config (rw builds refl))

  -- The environment sets the four variables to the texts of a configuration, and the library makes
  -- an agent of the program's texts that sends one chat and answers with a text of the response. The
  -- chat's body can be padded to the configured length, the configuration's texts fit the syntax of
  -- headers, the request is no longer than the cipher takes, and the network works; the server
  -- answers with a status line with a status below 2 ^ 16, header lines that are not empty, a blank
  -- line and a body, the lines in Unicode and without a carriage return, and the builder accepts
  -- them. Then `main` of the example proves the request and returns the agent's text, and the
  -- session is empty at the end.
  pub main_proves :
      (var : Str → Option Str) (c : RequestConfig) (library : Library h) (networks : ℕ → Network)
      (text : Outcome SendError h.Response → Option Str) (content new_body : Bytes) (n : ℕ)
      (reason : Str) (lines : List Str) (answer : Bytes) (response : h.Response) (result : Str)
      → IsConfigured var c
      → agent_of h library var c ≡ some (one_chat h (chat_request c content) text)
      → text (ok response) ≡ some result
      → IsTidy c
      → IsWorking
          (networks 0)
          (into_bytes (join_lines (status_text n reason) lines) ++ (http_body_sep ++ answer))
      → AllBytes content
      → validate_chat_body parse_chat content ≡ ok tt
      → pad_body content c.content_length ≡ ok new_body
      → body_start c + c.content_length ≤ max_plaintext
      → n < 2 ^ 16
      → NoCr reason
      → AllScalar reason
      → AllLines lines
      → AllScalars lines
      → h.body answer (builder_loop h lines (h.status n (h.builder))) ≡ some response
      → main h parse_chat t g s var library networks ≡ ok (result, none)
  unfolding prompt finish
  main_proves var c library networks text content new_body n reason lines answer response result e
        builds reads tidy w bytes chat pads room small line_r scalar_r line_l scalar_l body =
      let (session, sends, proves) =
        send_proved h parse_chat t g s c new_prove_session (networks 0) content new_body n reason
          lines answer response tidy w bytes chat pads room small line_r scalar_r line_l scalar_l
          body in
      main_finishes var c library networks (one_chat h (chat_request c content) text) e builds
      ∙ rw sends (rw reads (rw proves refl))
