-- ===== src/Circuit/Decryption.antt =====
-- The first part of `ZkPrompt::generate_constraints`: up to the decryption, and what is left after it.
use zk_prompt.Base.{
  ℕ, ◌+◌, ◌^◌, ◌≤◌, ◌<◌, ◌≡◌, refl, ap, ap₂, sym, ◌∙◌, List, ◌∷◌, map, Bytes, length, AllBytes,
  arith, length-map,
}
use zk_prompt.Base.Partial.{slice}
use zk_prompt.Base.Outcome.{Outcome, ◌>>=◌, in_range}
use zk_prompt.Field.{PrimeField}
use zk_prompt.Gadgets.{Gadgets}
use zk_prompt.Mimc.Bn254.{mimc_bn254}
use zk_prompt.Mimc.Constraint
use zk_prompt.Mimc.Constraint.{MimcBn254Var}
use zk_prompt.Chacha20.Agree.{generate_constraints-chacha20}
use zk_prompt.Chacha20.Laws.{chacha20_twice}
use zk_prompt.Chacha20.Reference.{chacha20}
use zk_prompt.Commitment.{cipher_commitment, prompt_commitment}
use zk_prompt.Openai.Config.{IsText, body_start}
use zk_prompt.Openai.Req
use zk_prompt.Circuit.Alloc.{words, length-words, alloc_words_lem, alloc_bytes_lem}
use zk_prompt.Circuit.{ZkPrompt, qr_constants, commit_var, publish, generate_constraints}

-- The decryption of the ciphertext under the witness.
unfoldable pub plaintext : ZkPrompt → Bytes
plaintext z = chacha20 qr_constants (words z.key) (words z.nonce) z.count z.cipher_texts

-- The sizes and ranges of a witness: what the types and the callers of the source give.
pub record IsWitness (z : ZkPrompt) : Type 0 where
  pub key_size : length z.key ≡ 32
  pub key_bytes : AllBytes z.key
  pub nonce_size : length z.nonce ≡ 12
  pub nonce_bytes : AllBytes z.nonce
  pub count_range : z.count < 2 ^ 32
  pub cipher_bytes : AllBytes z.cipher_texts
  pub text : IsText z.config
  pub room : body_start z.config + z.config.content_length ≤ length z.cipher_texts

pub length-plaintext : (z : ZkPrompt) → IsWitness z → length (plaintext z) ≡ length z.cipher_texts
unfolding plaintext
length-plaintext z w =
    (chacha20_twice qr_constants (words z.key) (words z.nonce) refl
      (length-words 8 z.key (omega (arith, w.key_size)))
      (length-words 3 z.nonce (omega (arith, w.nonce_size))) z.count z.cipher_texts).0

module _ {f : PrimeField} (g : Gadgets f) where
  open g use {
    SynthesisError, Cs, U8, U32, Fp, u8_value, u32_value, fp_value, fp_zero, fp_constant, satisfied,
    inputs,
  }

  -- The statements of `generate_constraints` behind the header check, and behind the decryption.
  abbrev pub after_header : ZkPrompt → List U8 → List U8 → Cs → Outcome SynthesisError Cs
  after_header z output_vars cipher_vars cs = do
    let start = Req.prompt_start g (Req.new g output_vars z.config)
    prompt ← in_range (slice start (start + z.config.content_length) output_vars)
    mimc_var ← in_range (Constraint.new g 1 (map fp_constant (mimc_bn254 f).keys) fp_zero)
    prompt_commitment ← commit_var g mimc_var prompt
    cipher_commitment ← commit_var g mimc_var cipher_vars
    cs ← publish g prompt_commitment cs
    publish g cipher_commitment cs

  abbrev pub after_decryption : ZkPrompt → List U8 → List U8 → Cs → Outcome SynthesisError Cs
  after_decryption z output_vars cipher_vars cs = do
    cs ← Req.generate_constraints g (Req.new g output_vars z.config) cs
    after_header z output_vars cipher_vars cs

  pub record Decrypts (z : ZkPrompt) (cs : Cs) : Type 0 where
    pub output_vars : List U8
    pub cipher_vars : List U8
    pub cs' : Cs
    pub runs : generate_constraints g z cs ≡ after_decryption z output_vars cipher_vars cs'
    pub outputs : map u8_value output_vars ≡ plaintext z
    pub ciphers : map u8_value cipher_vars ≡ z.cipher_texts
    pub same : satisfied cs' ≡ satisfied cs
    pub same_inputs : inputs cs' ≡ inputs cs

  pub u32_value-qr_constants : map u32_value (map (g.u32_constant) qr_constants) ≡ qr_constants
  u32_value-qr_constants = ap₂ ◌∷◌ (g.u32_value-constant 0x61707865 (omega arith)) (
      ap₂ ◌∷◌ (g.u32_value-constant 0x3320646e (omega arith)) (
        ap₂ ◌∷◌ (g.u32_value-constant 0x79622d32 (omega arith))
          (ap₂ ◌∷◌ (g.u32_value-constant 0x6b206574 (omega arith)) refl)))

  pub decrypts : (z : ZkPrompt) (cs : Cs) → IsWitness z → Decrypts z cs
  unfolding generate_constraints plaintext
  decrypts z cs w =
      let k = alloc_words_lem g 8 z.key cs (omega (arith, w.key_size)) w.key_bytes in
      let n = alloc_words_lem g 3 z.nonce k.cs' (omega (arith, w.nonce_size)) w.nonce_bytes in
      let (count_var, cs3, counted, count_value, same3, ins3) =
        g.u32_witness_lem z.count n.cs' w.count_range in
      let c = alloc_bytes_lem g z.cipher_texts cs3 w.cipher_bytes in
      let sized =
        λ (vs : List U32) (m : ℕ) (ws : List ℕ) (e : map u32_value vs ≡ ws) (l : length ws ≡ m).
          sym (length-map u32_value vs) ∙ ap length e ∙ l in
      let (chacha, chacha', made, ran, values) =
        generate_constraints-chacha20 g (map (g.u32_constant) qr_constants) k.vars n.vars count_var
          c.vars refl (sized k.vars 8 _ k.holds (length-words 8 z.key (omega (arith, w.key_size))))
          (sized n.vars 3 _ n.holds (length-words 3 z.nonce (omega (arith, w.nonce_size)))) in
      record {
        output_vars = chacha'.output_vars;
        cipher_vars = c.vars;
        cs' = c.cs';
        runs = rw (k.runs) (rw (n.runs) (rw counted (rw (c.runs) (rw made (rw ran)))));
        outputs = values ∙ (λ i.
            chacha20 (u32_value-qr_constants i) (k.holds i) (n.holds i) (count_value i)
              (c.holds i));
        ciphers = c.holds;
        same = c.same ∙ same3 ∙ n.same ∙ k.same;
        same_inputs = c.same_inputs ∙ ins3 ∙ n.same_inputs ∙ k.same_inputs;
      }
