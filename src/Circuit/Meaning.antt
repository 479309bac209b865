-- ===== src/Circuit/Meaning.antt =====
-- What a satisfied `ZkPrompt` circuit says of its witness and of its public inputs.
use zk_prompt.Base.{
  ℕ, ◌+◌, ◌-◌, ◌≤◌, ◌≡◌, refl, ap, ap₂, sym, ◌∙◌, true, List, [], ◌∷◌, ◌++◌, map, Bytes, length,
  take, drop, arith, append_assoc, some, length-map, map-take, map-drop, &&-true,
}
use zk_prompt.Base.Partial.{slice-eq-some}
use zk_prompt.Base.Outcome.{Outcome, ok, ◌>>=◌, >>=-eq-ok}
use zk_prompt.Field.{PrimeField}
use zk_prompt.Gadgets.{Gadgets, Honest}
use zk_prompt.Mimc.Bn254.{mimc_bn254}
use zk_prompt.Mimc.Constraint
use zk_prompt.Mimc.Constraint.{MimcBn254Var}
use zk_prompt.Mimc.Agree.{Holds}
use zk_prompt.Commitment.{mimc_commit, cipher_commitment, prompt_commitment}
use zk_prompt.Openai.Config.{template, body_start}
use zk_prompt.Openai.Req
use zk_prompt.Openai.Req.Accepts.{generate_constraints_complete, generate_constraints_sound}
use zk_prompt.Circuit.Commit.{commit_var_lem}
use zk_prompt.Circuit.{ZkPrompt, publish, generate_constraints}
use zk_prompt.Circuit.Decryption.{plaintext, IsWitness, length-plaintext, after_header, decrypts}

-- The body of the decryption, at the configured place.
unfoldable pub body : ZkPrompt → Bytes
body z = take (z.config.content_length) (drop (body_start z.config) (plaintext z))

module _ {f : PrimeField} (g : Gadgets f) where
  open g use {
    SynthesisError, Cs, U8, U32, Fp, u8_value, u32_value, fp_value, fp_zero, fp_constant, satisfied,
    inputs,
  }

  unfoldable pub mimc_var : MimcBn254Var g
  mimc_var = record {
    num_outputs = 1;
    k = fp_zero;
    round_keys = map fp_constant (mimc_bn254 f).keys;
  }

  pub mimc_made : Constraint.new g 1 (map fp_constant (mimc_bn254 f).keys) fp_zero ≡ some mimc_var
  unfolding Constraint.new mimc_bn254 mimc_var
  mimc_made = refl

  map-fp_constant : (xs : List (f.F)) → map fp_value (map fp_constant xs) ≡ xs
  map-fp_constant [] = refl
  map-fp_constant (x ∷ xs) = ap₂ ◌∷◌ (g.fp_value-constant x) (map-fp_constant xs)

  mimc_var_key : fp_value fp_zero ≡ (mimc_bn254 f).k
  unfolding mimc_bn254
  mimc_var_key = g.fp_value-zero

  pub mimc_var-Holds : Holds g mimc_var
  unfolding mimc_var
  mimc_var-Holds = record { key = mimc_var_key; keys = map-fp_constant (mimc_bn254 f).keys }

  pub mimc_var_one : (mimc_var).num_outputs ≡ 1
  unfolding mimc_var
  mimc_var_one = refl

  -- `publish` succeeds, keeps the system as satisfied as it was, and adds one public input.
  record Publishes (run : Outcome SynthesisError Cs) (v : f.F) (cs : Cs) : Type 0 where
    cs' : Cs
    runs : run ≡ ok cs'
    same : satisfied cs' ≡ satisfied cs
    added : inputs cs' ≡ inputs cs ++ v ∷ []

  publish_lem : Honest g → (x : Fp) (cs : Cs) → Publishes (publish g x cs) (fp_value x) cs
  unfolding publish
  publish_lem honest x cs =
      let (pi, cs1, runs, same, ins) = g.fp_input_lem (fp_value x) cs in
      let value = honest.fp_value-input (fp_value x) cs cs1 pi runs in
      let (cs2, runs', same', ins') = g.fp_enforce_equal-same pi x cs1 value in
      record {
        cs' = cs2;
        runs = rw runs runs';
        same = same' ∙ same;
        added = ins' ∙ ins ∙ ap (λ (v : f.F). inputs cs ++ v ∷ []) value;
      }

  -- A system that is satisfied after `publish` was so before, and its new public input, whatever it
  -- was set to, is the value of the commitment.
  publish-satisfied :
      (x : Fp) (cs cs' : Cs)
      → publish g x cs ≡ ok cs'
      → satisfied cs' ≡ true
      → (satisfied cs ≡ true) × (inputs cs' ≡ inputs cs ++ fp_value x ∷ [])
  unfolding publish
  publish-satisfied x cs cs' e s =
      let (pi, cs1, runs, same, ins) = g.fp_input_lem (fp_value x) cs in
      let enforced : g.fp_enforce_equal pi x cs1 ≡ ok cs' = rw runs at e in
      let (sat, ins') = g.fp_enforce_equal-holds pi x cs1 cs' enforced in
      let both = (&&-true (satisfied cs1) (f.eq (fp_value pi) (fp_value x))).0 (sym sat ∙ s) in
      let value = (f.eq_iff (fp_value pi) (fp_value x)).0 both.1 in
      (sym same ∙ both.0, ins' ∙ ins ∙ ap (λ (v : f.F). inputs cs ++ v ∷ []) value)

  -- The public inputs are the commitments to the body and to the ciphertext.
  pub record Publics (z : ZkPrompt) (cs cs' : Cs) : Type 0 where
    pub prompt : f.F
    pub cipher : f.F
    pub is_prompt : prompt_commitment f (body z) ≡ some prompt
    pub is_cipher : cipher_commitment f z.cipher_texts ≡ some cipher
    pub added : inputs cs' ≡ inputs cs ++ prompt ∷ cipher ∷ []

  -- Behind the header check, the two native commitments are published.
  record Commits (z : ZkPrompt) (run : Outcome SynthesisError Cs) (cs : Cs) : Type 0 where
    prompt : Fp
    cipher : Fp
    runs : run ≡ (publish g prompt cs >>= publish g cipher)
    is_prompt : prompt_commitment f (body z) ≡ some (fp_value prompt)
    is_cipher : cipher_commitment f z.cipher_texts ≡ some (fp_value cipher)

  after_header_lem :
      (z : ZkPrompt) (output_vars cipher_vars : List U8) (cs : Cs)
      → IsWitness z
      → map u8_value output_vars ≡ plaintext z
      → map u8_value cipher_vars ≡ z.cipher_texts
      → Commits z (after_header g z output_vars cipher_vars cs) cs
  unfolding body prompt_commitment cipher_commitment Req.prompt_start Req.new
  after_header_lem z output_vars cipher_vars cs w eo ec =
      let start = body_start z.config in
      let n : ℕ = z.config.content_length in
      let size : length output_vars ≡ length z.cipher_texts =
        sym (length-map u8_value output_vars) ∙ ap length eo ∙ length-plaintext z w in
      let room : start + n ≤ length output_vars = omega (arith, w.room) in
      let cut : start + n - start ≡ n = omega arith in
      let prompt = take (start + n - start) (drop start output_vars) in
      let prompt_values : map u8_value prompt ≡ take n (drop start (plaintext z)) =
        map-take u8_value (start + n - start) (drop start output_vars)
        ∙ ap₂ take cut (map-drop u8_value start output_vars ∙ ap (drop start) eo) in
      let (p, p_runs, p_value) = commit_var_lem g mimc_var prompt mimc_var-Holds mimc_var_one in
      let (c, c_runs, c_value) =
        commit_var_lem g mimc_var cipher_vars mimc_var-Holds mimc_var_one in
      record {
        prompt = p;
        cipher = c;
        runs =
            rw (slice-eq-some start (start + n) output_vars (omega arith) room)
              (rw mimc_made (rw p_runs (rw c_runs refl)));
        is_prompt = ap (mimc_commit f) (sym prompt_values) ∙ p_value;
        is_cipher = ap (mimc_commit f) (sym ec) ∙ c_value;
      }

  two_inputs :
      (z : ZkPrompt) (p c : Fp) (cs cs1 cs' : Cs)
      → prompt_commitment f (body z) ≡ some (fp_value p)
      → cipher_commitment f z.cipher_texts ≡ some (fp_value c)
      → inputs cs1 ≡ inputs cs ++ fp_value p ∷ []
      → inputs cs' ≡ inputs cs1 ++ fp_value c ∷ []
      → Publics z cs cs'
  two_inputs z p c cs cs1 cs' is_prompt is_cipher first second = record {
    prompt = fp_value p;
    cipher = fp_value c;
    is_prompt = is_prompt;
    is_cipher = is_cipher;
    added =
        second
        ∙ ap (λ (l : List (f.F)). l ++ fp_value c ∷ []) first
        ∙ append_assoc (inputs cs) (fp_value p ∷ []) (fp_value c ∷ []);
  }

  rebase :
      (z : ZkPrompt) (cs1 cs cs' : Cs)
      → Publics z cs1 cs'
      → inputs cs1 ≡ inputs cs
      → Publics z cs cs'
  rebase z cs1 cs cs' p e = record {
    prompt = p.prompt;
    cipher = p.cipher;
    is_prompt = p.is_prompt;
    is_cipher = p.is_cipher;
    added = p.added ∙ ap (λ (l : List (f.F)). l ++ p.prompt ∷ p.cipher ∷ []) e;
  }

  -- In a run in which the public inputs have the values that they are allocated with (`Honest`), for
  -- a witness of the right sizes and ranges (`IsWitness`) whose decryption begins with the header
  -- template, the circuit is generated without an error or a panic and keeps the system as satisfied
  -- as it was; its two new public inputs are the native commitments to the decrypted body and to the
  -- ciphertext.
  pub circuit_complete :
      (honest : Honest g) (z : ZkPrompt) (rest : Bytes) (cs : Cs)
      → IsWitness z
      → plaintext z ≡ template z.config ++ rest
      → (cs' : Cs) × (generate_constraints g z cs ≡ ok cs')
        × (satisfied cs' ≡ satisfied cs)
        × Publics z cs cs'
  unfolding Req.new
  circuit_complete honest z rest cs w e =
      let d = decrypts g z cs w in
      let req = Req.new g d.output_vars z.config in
      let k = generate_constraints_complete g req rest d.cs' w.text (d.outputs ∙ e) in
      let m = after_header_lem z d.output_vars d.cipher_vars k.cs' w d.outputs d.ciphers in
      let first = publish_lem honest m.prompt k.cs' in
      let second = publish_lem honest m.cipher first.cs' in
      let publics =
        two_inputs z m.prompt m.cipher k.cs' first.cs' second.cs' m.is_prompt m.is_cipher
          first.added second.added in
      (
        second.cs',
        d.runs ∙ rw (k.runs) (m.runs ∙ rw (first.runs) second.runs),
        second.same ∙ first.same ∙ k.same ∙ d.same,
        rebase z k.cs' cs second.cs' publics (k.same_inputs ∙ d.same_inputs),
      )

  -- For a witness of the right sizes and ranges (`IsWitness`), whatever values the public inputs are
  -- given: if the circuit is generated and its system is satisfied, the decryption of the ciphertext
  -- under the witness' key, nonce and counter begins with the header template, and the two new
  -- public inputs are the native commitments to the decrypted body and to the ciphertext.
  pub circuit_sound :
      (z : ZkPrompt) (cs cs' : Cs)
      → IsWitness z
      → generate_constraints g z cs ≡ ok cs'
      → satisfied cs' ≡ true
      → (rest : Bytes) × (plaintext z ≡ template z.config ++ rest) × Publics z cs cs'
  unfolding Req.new
  circuit_sound z cs cs' w e s =
      let d = decrypts g z cs w in
      let req = Req.new g d.output_vars z.config in
      let (cs1, checked, later) =
        >>=-eq-ok (Req.generate_constraints g req d.cs')
          (after_header g z d.output_vars d.cipher_vars) (sym d.runs ∙ e) in
      let m = after_header_lem z d.output_vars d.cipher_vars cs1 w d.outputs d.ciphers in
      let (cs2, run1, run2) =
        >>=-eq-ok (publish g m.prompt cs1) (publish g m.cipher) (sym m.runs ∙ later) in
      let (sat2, second) = publish-satisfied m.cipher cs2 cs' run2 s in
      let (sat1, first) = publish-satisfied m.prompt cs1 cs2 run1 sat2 in
      let (rest, begins, before, ins) =
        generate_constraints_sound g req d.cs' cs1 w.text checked sat1 in
      let publics =
        two_inputs z m.prompt m.cipher cs1 cs2 cs' m.is_prompt m.is_cipher first second in
      (rest, sym d.outputs ∙ begins, rebase z cs1 cs cs' publics (ins ∙ d.same_inputs))
