-- ===== src/Session/Calculator.antt =====
-- example/src/main.rs. The library for agents (rig) is an argument: what an agent sends through the
-- HTTP client, one request after the other, and what it makes of the results. The clone of the
-- client that the library gets shares its session.
pub mod Proves
use zk_prompt.Base.{ℕ, ◌+◌, Option, none, some, List, Bytes}
use zk_prompt.Base.Text.{Str, codes}
use zk_prompt.Base.Outcome.{Outcome, ok, err, panic, ◌>>=◌, ◌>>◌, ok_or}
use zk_prompt.Field.{PrimeField}
use zk_prompt.Gadgets.{Gadgets}
use zk_prompt.Openai.Config.{RequestConfig}
use zk_prompt.Openai.Env.{EnvError, from_env}
use zk_prompt.Openai.Check.{ChatRequest}
use zk_prompt.Client.{Request}
use zk_prompt.Client.Response.{Http}
use zk_prompt.Session.Rustls.{Rustls}
use zk_prompt.Session.Groth16.{Groth16}
use zk_prompt.Session.Materials.{ProveError}
use zk_prompt.Session.Prove.{ProveSession, prove}
use zk_prompt.Session.Execute
use zk_prompt.Session.Execute.{Network}
use zk_prompt.Session.Send.{SendError, send}

pub data MainError : Type 0 where
  api_key_unset : MainError
  not_configured : EnvError → MainError
  not_built : MainError
  not_answered : MainError
  not_proved : ProveError → MainError

abbrev pub or_else {ℓ} : {A : Type ℓ} → Option A → A → A
or_else none a = a
or_else (some b) a = b

-- `?` on an error of another type
abbrev pub map_err {ℓ κ μ} :
    {E : Type ℓ} {E' : Type κ} {A : Type μ} → (E → E') → Outcome E A → Outcome E' A
map_err f (ok a) = ok a
map_err f (err e) = err (f e)
map_err f panic = panic

module _ (h : Http) where
  pub data Agent : Type 0 where
    answered : Option Str → Agent
    asks : Request → (Outcome SendError h.Response → Agent) → Agent

  -- A panic of the client ends the program.
  abbrev pub go_on :
      Outcome SendError h.Response
      → Outcome MainError Str × ProveSession
      → Outcome MainError Str × ProveSession
  go_on (ok response) next = next
  go_on (err e) next = next
  go_on panic next = (panic, next.1)

  -- `agent.prompt(..)`: the requests of the agent, the `i`-th of them on the `i`-th network.
  unfoldable pub prompt :
      (Bytes → Option ChatRequest)
      → RequestConfig
      → (ℕ → Network)
      → Agent
      → ℕ
      → ProveSession
      → Outcome MainError Str × ProveSession
  prompt parse_chat config networks (answered response) i session =
      (ok_or not_answered response, session)
  prompt parse_chat config networks (asks req next) i session =
      let sent = send h parse_chat config session (networks i) req in
      go_on (sent.0) (prompt parse_chat config networks (next sent.0) (i + 1) (sent.1))

  -- The library: with the API key, the base URL, the model, the preamble and the prompt, there is an
  -- agent, or the builder returns an error.
  abbrev pub Library : Type 0
  Library = Str → Str → Str → Str → Str → Option Agent

  module _ (parse_chat : Bytes → Option ChatRequest) (t : Rustls) {f : PrimeField} (g : Gadgets f)
      (s : Groth16 g) where
    -- `zk_client.prove()?` on the session that the agent has left. The result is the response, and
    -- what the session holds at the end.
    unfoldable pub finish :
        RequestConfig
        → Outcome MainError Str × ProveSession
        → Outcome MainError (Str × ProveSession)
    finish config prompted = do
      response ← prompted.0
      let (proved, session) = prove t g s config (prompted.1)
      map_err not_proved proved
      ok (response, session)

    unfoldable pub main :
        (Str → Option Str) → Library → (ℕ → Network) → Outcome MainError (Str × ProveSession)
    main var library networks = do
      api_key ← ok_or api_key_unset (var (codes "API_KEY"))
      let base_url =
          or_else (var (codes "URL")) (codes "https://dashscope.aliyuncs.com/compatible-mode/v1")
      let proxy_addr = or_else (var (codes "PROXY_ADDR")) (codes "127.0.0.1:9100")
      request_config ← map_err not_configured (from_env var)
      let (zk_client, session) = Execute.new proxy_addr request_config
      agent ← ok_or not_built (
          library api_key base_url (codes "qwen3.6-plus")
            (codes "You are a calculator here to help the user perform arithmetic operations.")
            (codes "Calculate 2 - 5."))
      finish (zk_client.request_config)
          (prompt parse_chat (zk_client.request_config) networks agent 0 session)
