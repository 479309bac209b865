-- ===== src/Session/Groth16.antt =====
-- The proof system (ark-groth16) and its constraint system, which are not part of the repository:
-- what `ZKClient::prove` calls of it. A circuit is its synthesis, as `ConstraintSynthesizer` has it.
-- The law is the completeness of Groth16 for a circuit whose synthesis with its assignment succeeds
-- and satisfies the constraints: the keys are generated, and the proof verifies against the public
-- inputs that the circuit allocated; the prover's run allocates them with their values.
use zk_prompt.Base.{◌≡◌, Bool, true, Option, some, List, []}
use zk_prompt.Base.Outcome.{Outcome, ok}
use zk_prompt.Field.{PrimeField}
use zk_prompt.Gadgets.{Gadgets, Honest}

pub record Groth16 {f : PrimeField} (g : Gadgets f) : Type 1 where
  pub Rng : Type 0
  pub ProvingKey : Type 0
  pub VerifyingKey : Type 0
  pub PreparedKey : Type 0
  pub Proof : Type 0
  -- `ConstraintSystem::new_ref`
  pub new_ref : g.Cs
  -- `StdRng::seed_from_u64(test_rng().next_u64())`
  pub rng : Rng
  pub setup :
      (g.Cs → Outcome (g.SynthesisError) (g.Cs)) → Rng → Option (ProvingKey × VerifyingKey × Rng)
  pub process_vk : VerifyingKey → Option PreparedKey
  pub create_proof :
      ProvingKey → (g.Cs → Outcome (g.SynthesisError) (g.Cs)) → Rng → Option (Proof × Rng)
  pub verify_with_processed_vk : PreparedKey → List (f.F) → Proof → Option Bool
  pub honest : Honest g
  pub new_ref-satisfied : g.satisfied new_ref ≡ true
  pub new_ref-inputs : g.inputs new_ref ≡ []
  pub completeness :
      (circuit : g.Cs → Outcome (g.SynthesisError) (g.Cs)) (cs : g.Cs) (r : Rng)
      → circuit new_ref ≡ ok cs
      → g.satisfied cs ≡ true
      → (pk : ProvingKey) × (vk : VerifyingKey) × (r' : Rng) × (pvk : PreparedKey) × (proof : Proof)
        × (r'' : Rng) × (setup circuit r ≡ some (pk, vk, r'))
        × (process_vk vk ≡ some pvk)
        × (create_proof pk circuit r' ≡ some (proof, r''))
        × (verify_with_processed_vk pvk (g.inputs cs) proof ≡ some true)
