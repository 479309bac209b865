-- ===== src/Witness/Publics.antt =====
-- The native commitments of prover/src/witness.rs against the circuit's public inputs.
use zk_prompt.Base.{
  ℕ, ◌+◌, ◌-◌, ◌≤◌, ◌≡◌, ap, false, some, [], ◌∷◌, ◌++◌, Bytes, length, take, drop, arith, ltb,
}
use zk_prompt.Base.Partial.{slice-eq-some}
use zk_prompt.Base.Outcome.{ok}
use zk_prompt.Field.{PrimeField}
use zk_prompt.Gadgets.{Gadgets, Honest}
use zk_prompt.Commitment.{prompt_commitment}
use zk_prompt.Openai.Config.{RequestConfig, template, body_start}
use zk_prompt.Openai.Wire.{body_region_from_wire}
use zk_prompt.Circuit.{ZkPrompt, generate_constraints}
use zk_prompt.Circuit.Decryption.{plaintext, IsWitness, length-plaintext}
use zk_prompt.Circuit.Meaning.{body, circuit_complete}
use zk_prompt.Witness.{prompt_region_from_wire, commitments_from_wire_and_tls}

-- The body region of a long enough request is the bytes at the configured place.
body_region_from_wire_lem :
    (wire : Bytes) (config : RequestConfig)
    → body_start config + config.content_length ≤ length wire
    → body_region_from_wire wire config
      ≡ ok (take (config.content_length) (drop (body_start config) wire))
unfolding body_region_from_wire
body_region_from_wire_lem wire config h =
    let long : ltb (length wire) (body_start config + config.content_length) ≡ false =
      ground (arith, h) in
    let e : body_start config + config.content_length - body_start config ≡ config.content_length =
      omega arith in
    rw
      (
        long,
        slice-eq-some (body_start config) (body_start config + config.content_length) wire
            (omega arith) h,
      )
      (ap (λ (k : ℕ). ok (take k (drop (body_start config) wire))) e)

-- In a run in which the public inputs have the values that they are allocated with (`Honest`), for a
-- witness of the right sizes and ranges (`IsWitness`) whose decryption begins with the template,
-- `commitments_from_wire_and_tls` of the decrypted request and of the ciphertext succeeds, and its
-- two results are the public inputs that the circuit adds.
pub publics_from_wire :
    {f : PrimeField} (g : Gadgets f) (honest : Honest g) (z : ZkPrompt) (rest : Bytes) (cs : g.Cs)
    → IsWitness z
    → plaintext z ≡ template z.config ++ rest
    → (cs' : g.Cs) × (p c : f.F) × (commitments_from_wire_and_tls f
          (plaintext z)
          z.cipher_texts
          z.config
        ≡ ok (p, c))
      × (generate_constraints g z cs ≡ ok cs')
      × (g.satisfied cs' ≡ g.satisfied cs)
      × (g.inputs cs' ≡ g.inputs cs ++ p ∷ c ∷ [])
unfolding commitments_from_wire_and_tls prompt_region_from_wire
publics_from_wire {f} g honest z rest cs w e =
    let (cs', runs, same, publics) = circuit_complete g honest z rest cs w e in
    let region =
      body_region_from_wire_lem (plaintext z) z.config
        (omega (arith, w.room, length-plaintext z w)) in
    let is_prompt : prompt_commitment f
          (take (z.config.content_length) (drop (body_start z.config) (plaintext z)))
        ≡ some publics.prompt =
      unfold body in publics.is_prompt in
    (
      cs',
      publics.prompt,
      publics.cipher,
      rw (region, is_prompt, publics.is_cipher),
      runs,
      same,
      publics.added,
    )
