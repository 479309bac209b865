-- ===== src/Session/Prove.antt =====
-- client/src/prove.rs: `ZKClient::prove`. The session is the shared cell of the client and its
-- clones, so the operations take it and return it; `lock` never meets a poisoned mutex, because no
-- code panics while it holds one.
pub mod Accepts
use zk_prompt.Base.{
  ℕ, Bool, true, false, ◌≡◌, refl, Option, none, some, List, [], ◌∷◌, Bytes, length, ◌==◌,
}
use zk_prompt.Base.Text.{Str}
use zk_prompt.Base.Outcome.{Outcome, ok, err, panic, ◌>>=◌, ◌>>◌, in_range, assert, guard}
use zk_prompt.Field.{PrimeField}
use zk_prompt.Gadgets.{Gadgets}
use zk_prompt.Commitment.{prompt_commitment, cipher_commitment}
use zk_prompt.Openai.Config.{RequestConfig}
use zk_prompt.Circuit
use zk_prompt.Session.Rustls.{Rustls}
use zk_prompt.Session.Groth16.{Groth16}
use zk_prompt.Session.Materials.{
  ProveMaterials, ProveError, no_materials, synthesis_failed, not_satisfied, encrypt_with_chacha20,
}

abbrev pub ProveSession : Type 0
ProveSession = Option ProveMaterials

unfoldable pub new_prove_session : ProveSession
new_prove_session = none

-- `map_err(|error| anyhow!(..))`
abbrev pub map_err {ℓ κ μ} :
    {E : Type ℓ} {E' : Type κ} {A : Type μ} → E' → Outcome E A → Outcome E' A
map_err e' (ok a) = ok a
map_err e' (err _) = err e'
map_err e' panic = panic

module _ (t : Rustls) {f : PrimeField} (g : Gadgets f) (s : Groth16 g) where
  -- The key generation, the proof and its verification, with the `unwrap`s.
  unfoldable pub prove_circuit :
      (g.Cs → Outcome (g.SynthesisError) (g.Cs)) → Bytes → Bytes → Outcome ProveError (Unit {0})
  prove_circuit circuit body cipher = do
    (pk, vk, rng) ← in_range (s.setup circuit (s.rng))
    pvk ← in_range (s.process_vk vk)
    (proof, _) ← in_range (s.create_proof pk circuit rng)
    prompt ← in_range (prompt_commitment f body)
    commitment ← in_range (cipher_commitment f cipher)
    let public_inputs = prompt ∷ commitment ∷ []
    assert (length public_inputs == 2)
    valid ← in_range (s.verify_with_processed_vk pvk public_inputs proof)
    assert valid

  -- What `prove` does with the materials.
  unfoldable pub prove_with : RequestConfig → ProveMaterials → Outcome ProveError (Unit {0})
  prove_with config materials = do
    (cipher, key, nonce) ← encrypt_with_chacha20 t materials
    let circuit = Circuit.generate_constraints g (Circuit.new cipher key nonce 1 config)
    cs ← map_err synthesis_failed (circuit (s.new_ref))
    guard (g.satisfied cs) not_satisfied
    prove_circuit circuit materials.body cipher

  -- The materials are taken out of the session first.
  unfoldable pub prove : RequestConfig → ProveSession → Outcome ProveError (Unit {0}) × ProveSession
  prove config none = (err no_materials, none)
  prove config (some materials) = (prove_with config materials, none)
