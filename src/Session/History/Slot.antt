-- ===== src/Session/History/Slot.antt =====
-- The abstract view of the session: one slot, and what the results of the calls do to it.
use mathlib.Core.Path.{subst}
use zk_prompt.Base.{
  inl, inr, ◌≡◌, ◌≢◌, refl, ap, sym, ◌∙◌, Option, none, some, List, [], ◌∷◌, Bytes,
}
use zk_prompt.Base.Outcome.{Outcome, ok, err, panic}
use zk_prompt.Field.{PrimeField}
use zk_prompt.Gadgets.{Gadgets}
use zk_prompt.Openai.Config.{RequestConfig}
use zk_prompt.Openai.Check.{ChatRequest, PaddedRequest, check_and_pad}
use zk_prompt.Session.Rustls.{Rustls}
use zk_prompt.Session.Groth16.{Groth16}
use zk_prompt.Session.Materials.{ProveMaterials, ProveError}
use zk_prompt.Session.Prove.{ProveSession, new_prove_session, prove_with, prove}
use zk_prompt.Session.Execute.{ExecuteError, execute}
use zk_prompt.Session.Execute.Stored.{execute_outcome}
use zk_prompt.Session.History.{Call, executed, proved, after}

-- The abstract session: one slot for a request and its response that are not yet proved.
abbrev pub Slot : Type 0
Slot = Option (PaddedRequest × Bytes)

-- The slot that a session stands for: the key log is hidden.
abbrev pub slot_of : ProveSession → Slot
slot_of none = none
slot_of (some m) = some (record { request = m.request; body = m.body }, m.response)

-- What the caller sees of a call: the response that `execute` returned on some bytes, or that it
-- returned none, and whether `prove` succeeded.
pub data Seen : Type 0 where
  responded : Bytes → Bytes → Seen
  not_responded : Seen
  proof_made : Seen
  proof_failed : Seen

abbrev seen_of_execute : {E : Type 0} → Bytes → Outcome E Bytes → Seen
seen_of_execute data' (ok response) = responded data' response
seen_of_execute data' (err e) = not_responded
seen_of_execute data' panic = not_responded

abbrev seen_of_prove : {E : Type 0} → Outcome E (Unit {0}) → Seen
seen_of_prove (ok _) = proof_made
seen_of_prove (err e) = proof_failed
seen_of_prove panic = proof_failed

seen-not_responded :
    {E : Type 0} (data' : Bytes) (r : Outcome E Bytes)
    → ((response : Bytes) → r ≢ ok response)
    → seen_of_execute data' r ≡ not_responded
seen-not_responded data' (ok response) h = absurd (h response refl)
seen-not_responded data' (err e) h = refl
seen-not_responded data' panic h = refl

module _ (parse_chat : Bytes → Option ChatRequest) (config : RequestConfig) where
  -- The steps of the slot. A response puts the checked request of this very call and the response
  -- into the slot, whatever was in it; a call without a response keeps the slot; a proof is made of
  -- what is in the slot, which is empty afterwards; after a failed proof it is empty too.
  pub data SlotStep : Slot → Seen → Slot → Type 0 where
    put :
        (slot : Slot) (p : PaddedRequest) (data' response : Bytes)
        → check_and_pad parse_chat config data' ≡ ok p
        → SlotStep slot (responded data' response) (some (p, response))
    keep : (slot : Slot) → SlotStep slot not_responded slot
    use_up : (x : PaddedRequest × Bytes) → SlotStep (some x) proof_made none
    give_up : (slot : Slot) → SlotStep slot proof_failed none

  pub data SlotRun : Slot → List Seen → Slot → Type 0 where
    stop : (slot : Slot) → SlotRun slot [] slot
    step :
        {before next' now : Slot} {seen : Seen} {more : List Seen}
        → SlotStep before seen next'
        → SlotRun next' more now
        → SlotRun before (seen ∷ more) now

module _ (parse_chat : Bytes → Option ChatRequest) (t : Rustls) {f : PrimeField} (g : Gadgets f)
    (s : Groth16 g) (config : RequestConfig) where
  -- What is seen of one call and of a history of calls, and the session after it.
  abbrev pub seen_of : Call → ProveSession → Seen
  seen_of (executed network data') session =
      seen_of_execute data' ((execute parse_chat config session network data').0)
  seen_of proved session = seen_of_prove ((prove t g s config session).0)

  abbrev pub all_seen : List Call → ProveSession → List Seen
  all_seen [] session = []
  all_seen (call ∷ calls) session =
      seen_of call session ∷ all_seen calls (after parse_chat t g s config call session)

  abbrev pub after_all : List Call → ProveSession → ProveSession
  after_all [] session = session
  after_all (call ∷ calls) session = after_all calls (after parse_chat t g s config call session)

  made-SlotStep :
      (m : ProveMaterials) (r : Outcome ProveError (Unit {0}))
      → SlotStep parse_chat config (slot_of (some m)) (seen_of_prove r) none
  made-SlotStep m (ok _) = use_up _
  made-SlotStep m (err e) = give_up _
  made-SlotStep m panic = give_up _

  call-SlotStep :
      (call : Call) (session : ProveSession)
      → SlotStep parse_chat config
          (slot_of session)
          (seen_of call session)
          (slot_of (after parse_chat t g s config call session))
  unfolding prove
  call-SlotStep proved none = give_up none
  call-SlotStep proved (some m) = made-SlotStep m (prove_with t g s config m)
  call-SlotStep (executed network data') session =
      elim (execute_outcome parse_chat config session network data') [
        | inl (m, padded, stores, accepted, exchanged) ↦
            let same : padded ≡ record { request = m.request; body = m.body } = λ i. record {
              request = sym (exchanged.same_request) i;
              body = sym (exchanged.same_body) i;
            } in
            subst
              (λ (q : Outcome ExecuteError Bytes × ProveSession).
                SlotStep parse_chat config (slot_of session) (seen_of_execute data' q.0)
                  (slot_of q.1))
              (sym stores)
              (put (slot_of session) (record { request = m.request; body = m.body }) data'
                m.response (accepted ∙ ap ok same))
        | inr (kept, fails) ↦
            subst
              (λ (u : ProveSession).
                SlotStep parse_chat config (slot_of session)
                  (seen_of (executed network data') session) (slot_of u))
              (sym kept)
              (subst
                (λ (seen : Seen).
                  SlotStep parse_chat config (slot_of session) seen (slot_of session))
                (sym (seen-not_responded data' _ fails)) (keep (slot_of session)))
      ]

  run :
      (calls : List Call) (session : ProveSession)
      → SlotRun parse_chat config
          (slot_of session)
          (all_seen calls session)
          (slot_of (after_all calls session))
  run [] session = stop (slot_of session)
  run (call ∷ calls) session =
      step (call-SlotStep call session) (run calls (after parse_chat t g s config call session))

  -- What the results of the calls say is all that happens to the session: over any history of calls
  -- on a new client, whatever the network answers, the requests and responses in the session are
  -- those of the slot after the steps that the callers have seen.
  pub calls-SlotRun :
      (calls : List Call)
      → SlotRun parse_chat config none
          (all_seen calls new_prove_session)
          (slot_of (after_all calls new_prove_session))
  unfolding new_prove_session
  calls-SlotRun calls = run calls none
