-- ===== src/Session/History/Bounds.antt =====
-- Proofs and responses counted over a history of calls.
use zk_prompt.Base.{inl, inr, ℕ, ◌+◌, ◌≤◌, ap, Option, none, some, List, [], ◌∷◌, Bytes, arith}
use zk_prompt.Base.Outcome.{Outcome, ok, err, panic}
use zk_prompt.Field.{PrimeField}
use zk_prompt.Gadgets.{Gadgets}
use zk_prompt.Openai.Config.{RequestConfig}
use zk_prompt.Openai.Check.{ChatRequest}
use zk_prompt.Session.Rustls.{Rustls}
use zk_prompt.Session.Groth16.{Groth16}
use zk_prompt.Session.Prove.{ProveSession, new_prove_session, prove_with, prove}
use zk_prompt.Session.Execute.Stored.{execute_outcome}
use zk_prompt.Session.Execute.{Network, execute}
use zk_prompt.Session.History.{first, second, Call, executed, proved, after, prove-empties}

-- One if the call succeeds.
abbrev pub successes : {E A : Type 0} → Outcome E A → ℕ
successes (ok a) = 1
successes (err e) = 0
successes panic = 0

successes-le : {E A : Type 0} (r : Outcome E A) → successes r ≤ 1
successes-le (ok a) = omega arith
successes-le (err e) = omega arith
successes-le panic = omega arith

module _ (parse_chat : Bytes → Option ChatRequest) (t : Rustls) {f : PrimeField} (g : Gadgets f)
    (s : Groth16 g) (config : RequestConfig) where
  -- Proofs that succeed and responses that arrive, over a history of calls.
  abbrev pub proofs : List Call → ProveSession → ℕ
  proofs [] session = 0
  proofs (executed network data' ∷ calls) session =
      proofs calls (after parse_chat t g s config (executed network data') session)
  proofs (proved ∷ calls) session =
      successes ((prove t g s config session).0)
      + proofs calls (after parse_chat t g s config proved session)

  abbrev pub responses : List Call → ProveSession → ℕ
  responses [] session = 0
  responses (executed network data' ∷ calls) session =
      successes ((execute parse_chat config session network data').0)
      + responses calls (after parse_chat t g s config (executed network data') session)
  responses (proved ∷ calls) session =
      responses calls (after parse_chat t g s config proved session)

  abbrev held : ProveSession → ℕ
  held none = 0
  held (some m) = 1

  prove-successes :
      (session : ProveSession) → successes ((prove t g s config session).0) ≤ held session
  unfolding prove
  prove-successes none = omega arith
  prove-successes (some m) = successes-le (prove_with t g s config m)

  execute-successes :
      (session : ProveSession) (network : Network) (data' : Bytes)
      → held ((execute parse_chat config session network data').1)
        ≤ held session + successes ((execute parse_chat config session network data').0)
  execute-successes session network data' =
      elim (execute_outcome parse_chat config session network data') [
        | inl (m, padded, stores, accepted, exchanged) ↦
            omega (arith, ap held (ap second stores), ap successes (ap first stores))
        | inr (kept, fails) ↦ omega (arith, ap held kept)
      ]

  proofs-le :
      (calls : List Call) (session : ProveSession)
      → proofs calls session ≤ held session + responses calls session
  proofs-le [] session = omega arith
  proofs-le (executed network data' ∷ calls) session = omega (
    arith,
    execute-successes session network data',
    proofs-le calls ((execute parse_chat config session network data').1),
  )
  proofs-le (proved ∷ calls) session = omega (
    arith,
    prove-successes session,
    ap held (prove-empties parse_chat t g s config session),
    proofs-le calls ((prove t g s config session).1),
  )

  -- Over any history of calls on a new client, no more proofs succeed than responses have arrived:
  -- every exchange is proved at most once.
  pub proofs-le-responses :
      (calls : List Call) → proofs calls new_prove_session ≤ responses calls new_prove_session
  unfolding new_prove_session
  proofs-le-responses calls = omega (arith, proofs-le calls none)
