-- ===== src/Session/History.antt =====
-- The calls on one session, in any order: `execute` and `prove` of a client and its clones.
pub mod Slot
pub mod Bounds
use mathlib.Core.Path.{subst}
use zk_prompt.Base.{
  inl, inr, ℕ, ◌+◌, ◌≤◌, ◌≡◌, refl, ap, ap₂, sym, ◌∙◌, Bool, Option, none, some, List, [], ◌∷◌,
  ◌++◌, Bytes, length, arith,
}
use zk_prompt.Base.Text.{Str}
use zk_prompt.Base.Outcome.{Outcome, ok, err, panic, ◌>>=◌, >>=-eq-ok}
use zk_prompt.Field.{PrimeField}
use zk_prompt.Gadgets.{Gadgets}
use zk_prompt.Openai.Config.{RequestConfig}
use zk_prompt.Openai.Wire.{http_body_sep}
use zk_prompt.Openai.Check.{ChatRequest, PaddedRequest, check_and_pad}
use zk_prompt.Openai.Check.Checked.{EndsIn, check_and_pad_sound}
use zk_prompt.Session.Rustls.{Rustls}
use zk_prompt.Session.Groth16.{Groth16}
use zk_prompt.Session.Materials.{ProveMaterials, ProveError}
use zk_prompt.Session.Prove.{ProveSession, new_prove_session, prove_with, prove}
use zk_prompt.Session.Execute.Stored.{IsExchanged, execute_outcome}
use zk_prompt.Session.Execute.{Network, ExecuteError, as_rejected, exchange, store, execute}

pub data Call : Type 0 where
  executed : Network → Bytes → Call
  proved : Call

abbrev first : {A B : Type 0} → A × B → A
first q = q.0

abbrev second : {A B : Type 0} → A × B → B
second q = q.1

module _ (parse_chat : Bytes → Option ChatRequest) (t : Rustls) {f : PrimeField} (g : Gadgets f)
    (s : Groth16 g) (config : RequestConfig) where
  -- The session after one call.
  abbrev pub after : Call → ProveSession → ProveSession
  after (executed network data') session = (execute parse_chat config session network data').1
  after proved session = (prove t g s config session).1

  -- One step, and the sessions that calls lead to from a new client on.
  pub data Step : ProveSession → ProveSession → Type 0 where
    execute_step :
        (session : ProveSession) (network : Network) (data' : Bytes)
        → Step session ((execute parse_chat config session network data').1)
    prove_step : (session : ProveSession) → Step session ((prove t g s config session).1)

  pub data Reachable : ProveSession → Type 0 where
    start : Reachable new_prove_session
    later : {before now : ProveSession} → Reachable before → Step before now → Reachable now

  -- The materials of a request that passed the checks: the body has the configured length and is
  -- what the request ends in, behind a blank line.
  abbrev pub IsFromRequest : ProveMaterials → Type 0
  IsFromRequest m =
      ((data' : Bytes) × (check_and_pad parse_chat config data'
          ≡ ok (record { request = m.request; body = m.body })))
      × EndsIn config.content_length (record { request = m.request; body = m.body })

  abbrev pub HoldsRequest : ProveSession → Type 0
  HoldsRequest none = Unit {0}
  HoldsRequest (some m) = IsFromRequest m

  stored-IsFromRequest :
      (network : Network) (data' : Bytes) (m : ProveMaterials) (padded : PaddedRequest)
      → check_and_pad parse_chat config data' ≡ ok padded
      → IsExchanged network padded m
      → IsFromRequest m
  stored-IsFromRequest network data' m padded accepted e =
      let same : padded ≡ record { request = m.request; body = m.body } =
        λ i. record { request = sym (e.same_request) i; body = sym (e.same_body) i } in
      let accepted' = accepted ∙ ap ok same in
      let (headers, body, joined, checked, ends, pads) =
        check_and_pad_sound parse_chat config data' _ accepted' in
      ((data', accepted'), ends)

  execute-HoldsRequest :
      (session : ProveSession) (network : Network) (data' : Bytes)
      → HoldsRequest session
      → HoldsRequest ((execute parse_chat config session network data').1)
  execute-HoldsRequest session network data' h =
      elim (execute_outcome parse_chat config session network data') [
        | inl (m, padded, stores, accepted, exchanged) ↦
            subst HoldsRequest (sym (ap second stores))
              (stored-IsFromRequest network data' m padded accepted exchanged)
        | inr (kept, fails) ↦ subst HoldsRequest (sym kept) h
      ]

  prove-empties : (session : ProveSession) → (prove t g s config session).1 ≡ none
  unfolding prove
  prove-empties none = refl
  prove-empties (some m) = refl

  Step-HoldsRequest :
      {before now : ProveSession} → Step before now → HoldsRequest before → HoldsRequest now
  Step-HoldsRequest (execute_step session network data') h =
      execute-HoldsRequest session network data' h
  Step-HoldsRequest (prove_step session) h = subst HoldsRequest (sym (prove-empties session)) tt

  -- Whatever calls of `execute` and `prove` follow on a new client, on whatever network: materials
  -- that its session holds are of a request that passed the checks, with a body of the configured
  -- length, which the request ends in behind a blank line.
  pub reachable-HoldsRequest : {session : ProveSession} → Reachable session → HoldsRequest session
  unfolding new_prove_session
  reachable-HoldsRequest start = tt
  reachable-HoldsRequest (later before step) =
      Step-HoldsRequest step (reachable-HoldsRequest before)
