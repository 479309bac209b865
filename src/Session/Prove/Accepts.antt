-- ===== src/Session/Prove/Accepts.antt =====
-- When `ZKClient::prove` succeeds.
use zk_prompt.Base.{
  ◌+◌, ◌≤◌, ◌≡◌, ◌↔◌, refl, ap, sym, ◌∙◌, Bool, true, false, Option, none, some, List, [], ◌∷◌,
  ◌++◌, Bytes, length, take, drop, arith, AllBytes,
}
use zk_prompt.Base.Outcome.{Outcome, ok, err, panic, ◌>>=◌, ◌>>◌, guard, >>=-eq-ok}
use zk_prompt.Field.{PrimeField}
use zk_prompt.Gadgets.{Gadgets}
use zk_prompt.Chacha20.Reference.{chacha20}
use zk_prompt.Chacha20.Laws.{chacha20_twice, chacha20-AllBytes}
use zk_prompt.Commitment.{prompt_commitment}
use zk_prompt.Openai.Config.{RequestConfig, IsText, template, body_start}
use zk_prompt.Circuit
use zk_prompt.Circuit.{ZkPrompt, qr_constants}
use zk_prompt.Circuit.Alloc.{words, length-words}
use zk_prompt.Circuit.Decryption.{plaintext, IsWitness}
use zk_prompt.Circuit.Meaning.{body, Publics, circuit_complete, circuit_sound}
use zk_prompt.Session.Rustls.{Rustls, max_plaintext}
use zk_prompt.Session.Groth16.{Groth16}
use zk_prompt.Session.Materials.{
  ProveMaterials, ProveError, synthesis_failed, not_satisfied, client_traffic_secret,
  encrypt_with_chacha20, encrypt_with_chacha20_lem,
}
use zk_prompt.Session.Prove.{map_err, prove_circuit, prove_with, prove}

-- Materials that `prove` can work with: bytes, a secret in the key log, and a body that is the part
-- of the request at the configured place.
pub record IsProvable (config : RequestConfig) (m : ProveMaterials) : Type 0 where
  pub text : IsText config
  pub request_bytes : AllBytes m.request
  pub request_size : length m.request ≤ max_plaintext
  pub secret : Bytes
  pub logged : client_traffic_secret m ≡ ok secret
  pub room : body_start config + config.content_length ≤ length m.request
  pub body_part : m.body ≡ take config.content_length (drop (body_start config) m.request)

map_err-eq-ok {ℓ κ μ} :
    {E : Type ℓ} {E' : Type κ} {A : Type μ} (e' : E') (r : Outcome E A) {a : A}
    → map_err e' r ≡ ok a
    → r ≡ ok a
map_err-eq-ok e' (ok b) h = cc (h)
map_err-eq-ok e' (err e) h = cc (h)
map_err-eq-ok e' panic h = cc (h)

guard-eq-ok : (b : Bool) (e : ProveError) → guard b e ≡ ok tt → b ≡ true
guard-eq-ok true e h = refl
guard-eq-ok false e h = cc (h)

module _ (t : Rustls) {f : PrimeField} (g : Gadgets f) (s : Groth16 g) (config : RequestConfig)
    (m : ProveMaterials) (p : IsProvable config m) where
  abbrev key : Bytes
  key = t.derive_traffic_key (p.secret)

  abbrev nonce : Bytes
  nonce = t.nonce_new (t.derive_traffic_iv (p.secret)) 0

  -- The cipher text that `encrypt_with_chacha20` returns, and the witness of the circuit.
  abbrev cipher : Bytes
  cipher = chacha20 qr_constants (words key) (words nonce) 1 m.request

  abbrev witness : ZkPrompt
  witness = Circuit.new cipher key nonce 1 config

  encrypted : encrypt_with_chacha20 t m ≡ ok (cipher, key, nonce)
  encrypted = encrypt_with_chacha20_lem t m (p.secret) (p.logged) (p.request_size)

  key_words : length (words key) ≡ 8
  key_words = length-words 8 key (omega (arith, t.length-derive_traffic_key (p.secret)))

  nonce_words : length (words nonce) ≡ 3
  nonce_words =
      length-words 3 nonce (omega (arith, t.length-nonce_new (t.derive_traffic_iv (p.secret)) 0))

  twice : (length cipher ≡ length m.request) × (plaintext witness ≡ m.request)
  unfolding plaintext Circuit.new
  twice =
      chacha20_twice qr_constants (words key) (words nonce) refl key_words nonce_words 1 m.request

  is_witness : IsWitness witness
  unfolding Circuit.new
  is_witness = record {
    key_size = t.length-derive_traffic_key (p.secret);
    key_bytes = t.derive_traffic_key-AllBytes (p.secret);
    nonce_size = t.length-nonce_new (t.derive_traffic_iv (p.secret)) 0;
    nonce_bytes = t.nonce_new-AllBytes (t.derive_traffic_iv (p.secret)) 0;
    count_range = omega arith;
    cipher_bytes =
        chacha20-AllBytes qr_constants (words key) (words nonce) refl key_words nonce_words 1
          m.request (p.request_bytes);
    text = p.text;
    room = omega (arith, twice.0, p.room);
  }

  body-request : body witness ≡ m.body
  unfolding body Circuit.new
  body-request =
      ap (λ (l : Bytes). take config.content_length (drop (body_start config) l)) (twice.1)
      ∙ sym (p.body_part)

  -- The circuit's public inputs are the two that the verification gets.
  proves :
      (cs' : g.Cs)
      → Circuit.generate_constraints g witness (s.new_ref) ≡ ok cs'
      → g.satisfied cs' ≡ true
      → Publics g witness (s.new_ref) cs'
      → prove_circuit t g s (Circuit.generate_constraints g witness) m.body cipher ≡ ok tt
  unfolding prove_circuit Circuit.new
  proves cs' runs sat publics =
      let circuit = Circuit.generate_constraints g witness in
      let (pk, vk, r', pvk, proof, r'', h1, h2, h3, h4) =
        s.completeness circuit cs' (s.rng) runs sat in
      let prompt : prompt_commitment f m.body ≡ some (publics.prompt) =
        ap (prompt_commitment f) (sym body-request) ∙ publics.is_prompt in
      let ins : g.inputs cs' ≡ publics.prompt ∷ publics.cipher ∷ [] =
        publics.added
        ∙ ap (λ (l : List (f.F)). l ++ publics.prompt ∷ publics.cipher ∷ []) (s.new_ref-inputs) in
      let valid = ap (λ (l : List (f.F)). s.verify_with_processed_vk pvk l proof) (sym ins) ∙ h4 in
      rw (h1, h2, h3, prompt, publics.is_cipher, valid) refl

  abbrev circuit : g.Cs → Outcome (g.SynthesisError) (g.Cs)
  circuit = Circuit.generate_constraints g witness

  -- What is left of `prove` behind the encryption.
  abbrev checked : Outcome ProveError (Unit {0})
  checked = map_err synthesis_failed (circuit (s.new_ref)) >>= λ cs.
      guard (g.satisfied cs) not_satisfied >> prove_circuit t g s circuit m.body cipher

  prove_with-checked : prove_with t g s config m ≡ checked
  unfolding prove_with
  prove_with-checked = rw encrypted refl

  begins : checked ≡ ok tt → (rest : Bytes) × (m.request ≡ template config ++ rest)
  unfolding Circuit.new
  begins h =
      let (cs', runs, h1) = >>=-eq-ok (map_err synthesis_failed (circuit (s.new_ref))) _ h in
      let (_, sat, h2) = >>=-eq-ok (guard (g.satisfied cs') not_satisfied) _ h1 in
      let (rest, front, publics) =
        circuit_sound g witness (s.new_ref) cs' is_witness
          (map_err-eq-ok synthesis_failed (circuit (s.new_ref)) runs) (guard-eq-ok _ _ sat) in
      (rest, sym (twice.1) ∙ front)

  accepted : (rest : Bytes) → m.request ≡ template config ++ rest → checked ≡ ok tt
  unfolding Circuit.new
  accepted rest e =
      let (cs', runs, same, publics) =
        circuit_complete g s.honest witness rest (s.new_ref) is_witness (twice.1 ∙ e) in
      let sat : g.satisfied cs' ≡ true = same ∙ s.new_ref-satisfied in
      rw (runs, sat) (proves cs' runs sat publics)

  -- If the session holds materials that can be worked with (`IsProvable`), `prove` succeeds exactly
  -- when the request begins with the header template of the configuration; the session is empty
  -- afterwards.
  pub prove_iff :
      (prove t g s config (some m) ≡ (ok tt, none))
      ↔ ((rest : Bytes) × (m.request ≡ template config ++ rest))
  unfolding prove
  prove_iff = (
    λ h.
        let result : prove_with t g s config m ≡ ok tt =
          ap (λ (q : Outcome ProveError (Unit {0}) × Option ProveMaterials). q.0) h in
        begins (sym prove_with-checked ∙ result),
    λ (rest, e).
        ap (λ (r : Outcome ProveError (Unit {0})). (r, none))
          (prove_with-checked ∙ accepted rest e),
  )
