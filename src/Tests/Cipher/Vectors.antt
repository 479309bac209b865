-- ===== src/Tests/Cipher/Vectors.antt =====
-- When a test of the ChaCha20 circuit passes.
use zk_prompt.Base.{
  ℕ, zero, suc, ◌*◌, ◌^◌, ◌≤◌, ◌<◌, ◌≡◌, ◌↔◌, refl, ap, ap₂, sym, ◌∙◌, List, [], ◌∷◌, map, Bytes,
  length, AllBytes, arith, length-map, Bool, ◌==◌, ==_iff, Bool-cases, inl, inr,
}
use zk_prompt.Base.Chunks.{chunks, chunks_loop}
use zk_prompt.Base.Outcome.{ok, ◌>>◌, assert, >>=-eq-ok}
use zk_prompt.Field.{PrimeField}
use zk_prompt.Gadgets.{Gadgets}
use zk_prompt.Chacha20
use zk_prompt.Chacha20.Consistent.{consistency_check_iff}
use zk_prompt.Chacha20.Reference.{chacha20}
use zk_prompt.Circuit.{qr_constants, u32_from_le_bytes}
use zk_prompt.Circuit.Alloc.{words, length-words, Allocates, alloc_bytes_lem}
use zk_prompt.Circuit.Decryption.{u32_value-qr_constants}
use zk_prompt.Tests.Cipher.{words_of_chunks, alloc_u32s, constraint_case, constraint_case1}

-- Numbers of 32 bits.
abbrev pub AllWords : List ℕ → Type 0
AllWords [] = Unit {0}
AllWords (x ∷ xs) = (x < 2 ^ 32) × AllWords xs

module _ {ℓ} {E : Type ℓ} where
  words_of_chunks_lem :
      (k fuel : ℕ) (bytes : Bytes)
      → length bytes ≡ 4 * k
      → length bytes ≤ fuel
      → words_of_chunks {E = E} (chunks_loop fuel 4 bytes) ≡ ok (words bytes)
  unfolding words_of_chunks chunks_loop words u32_from_le_bytes
  words_of_chunks_lem zero zero [] e h = refl
  words_of_chunks_lem zero (suc fuel) [] e h = refl
  words_of_chunks_lem (suc k) (suc fuel) (x ∷ y ∷ z ∷ w ∷ rest) e h =
      rw (words_of_chunks_lem k fuel rest (omega arith) (omega arith)) refl
  words_of_chunks_lem zero fuel (_ ∷ _) e h = absurd (omega arith)
  words_of_chunks_lem (suc k) fuel [] e h = absurd (omega arith)
  words_of_chunks_lem (suc k) fuel (_ ∷ []) e h = absurd (omega arith)
  words_of_chunks_lem (suc k) fuel (_ ∷ _ ∷ []) e h = absurd (omega arith)
  words_of_chunks_lem (suc k) fuel (_ ∷ _ ∷ _ ∷ []) e h = absurd (omega arith)
  words_of_chunks_lem (suc k) zero (_ ∷ _ ∷ _ ∷ _ ∷ _) e h = absurd (omega arith)

words-AllWords : (bytes : Bytes) → AllBytes bytes → AllWords (words bytes)
unfolding words
words-AllWords [] h = tt
words-AllWords (a ∷ []) h = tt
words-AllWords (a ∷ b ∷ []) h = tt
words-AllWords (a ∷ b ∷ c ∷ []) h = tt
words-AllWords (a ∷ b ∷ c ∷ d ∷ rest) h = (omega arith, words-AllWords rest h.1.1.1.1)

assert-true {ℓ} : {E : Type ℓ} (n : ℕ) → assert {E = E} (n == 23106) ≡ ok tt → n ≡ 23106
assert-true n h = elim (Bool-cases (n == 23106)) [
  | inl same ↦ (==_iff n 23106).0 same
  | inr differs ↦ cc (rw differs at h)
]

module _ {f : PrimeField} (g : Gadgets f) where
  open g use {SynthesisError, Cs, U8, U32, u8_value, u32_value}

  alloc_u32s_lem :
      (xs : List ℕ) (cs : Cs) → AllWords xs → Allocates g u32_value (alloc_u32s g xs cs) xs cs
  unfolding alloc_u32s
  alloc_u32s_lem [] cs h = record {
    vars = [];
    cs' = cs;
    runs = refl;
    holds = refl;
    same = refl;
    same_inputs = refl;
  }
  alloc_u32s_lem (x ∷ xs) cs h =
      let (var, cs1, runs, value, same, ins) = g.u32_witness_lem x cs h.0 in
      let more = alloc_u32s_lem xs cs1 h.1 in
      record {
        vars = var ∷ more.vars;
        cs' = more.cs';
        runs = rw runs (rw (more.runs));
        holds = ap₂ ◌∷◌ value more.holds;
        same = more.same ∙ same;
        same_inputs = more.same_inputs ∙ ins;
      }

  sized :
      (vs : List U32) (ws : List ℕ) (m : ℕ) → map u32_value vs ≡ ws → length ws ≡ m → length vs ≡ m
  sized vs ws m e l = sym (length-map u32_value vs) ∙ ap length e ∙ l

  -- For 8 key words, 3 nonce words and a counter of 32 bits each, and an input of bytes: the test
  -- passes when the expected output is the reference cipher's encryption of the input, and with no
  -- other expected output.
  pub constraint_case_iff :
      (cs : Cs) (key nonce : List ℕ) (count : ℕ) (input output : Bytes)
      → length key ≡ 8
      → AllWords key
      → length nonce ≡ 3
      → AllWords nonce
      → count < 2 ^ 32
      → AllBytes input
      → (constraint_case g cs key nonce count input output ≡ ok tt)
        ↔ (chacha20 qr_constants key nonce count input ≡ output)
  unfolding constraint_case
  constraint_case_iff cs key nonce count input output lk bk ln bn small bi =
      let ks = alloc_u32s_lem key cs bk in
      let ns = alloc_u32s_lem nonce ks.cs' bn in
      let (count_var, cs3, counted, count_value, same3, ins3) =
        g.u32_witness_lem count ns.cs' small in
      let xs = alloc_bytes_lem g input cs3 bi in
      let (c, c', made, ran, check) =
        consistency_check_iff g (map (g.u32_constant) qr_constants) ks.vars ns.vars count_var
          xs.vars output refl (sized ks.vars key 8 ks.holds lk)
          (sized ns.vars nonce 3 ns.holds ln) in
      let run : constraint_case g cs key nonce count input output
          ≡ Chacha20.consistency_check g c' output =
        rw (ks.runs) (rw (ns.runs) (rw counted (rw (xs.runs) (rw made (rw ran refl))))) in
      let values : chacha20 (map u32_value (map (g.u32_constant) qr_constants))
            (map u32_value ks.vars) (map u32_value ns.vars) (u32_value count_var)
            (map u8_value xs.vars)
          ≡ chacha20 qr_constants key nonce count input =
        λ i.
          chacha20 (u32_value-qr_constants g i) (ks.holds i) (ns.holds i) (count_value i)
            (xs.holds i) in
      (λ h. sym values ∙ check.0 (sym run ∙ h), λ e. run ∙ check.1 (values ∙ e))

  -- For a key of 32 bytes, a nonce of 12 and an input of bytes: the test that splits them into words
  -- passes exactly when the expected output is the reference cipher's encryption of the input from
  -- block 1 on, and the library counts 23106 constraints.
  pub constraint_case1_iff :
      (cs : Cs) (key nonce input output : Bytes) (num_constraints : ℕ)
      → length key ≡ 32
      → AllBytes key
      → length nonce ≡ 12
      → AllBytes nonce
      → AllBytes input
      → (constraint_case1 g cs key nonce input output num_constraints ≡ ok tt) ↔ (
          (chacha20 qr_constants (words key) (words nonce) 1 input ≡ output)
          × (num_constraints ≡ 23106))
  unfolding constraint_case1 chunks
  constraint_case1_iff cs key nonce input output num_constraints lk bk ln bn bi =
      let run : constraint_case1 g cs key nonce input output num_constraints ≡ (
          constraint_case g cs (words key) (words nonce) 1 input output
          >> assert (num_constraints == 23106)) =
        rw
          (words_of_chunks_lem {E = SynthesisError} 8 (length key) key (omega (arith, lk))
            (omega arith))
          (rw
            (words_of_chunks_lem {E = SynthesisError} 3 (length nonce) nonce (omega (arith, ln))
              (omega arith))
            refl) in
      let (to, from) =
        constraint_case_iff cs (words key) (words nonce) 1 input output
          (length-words 8 key (omega (arith, lk))) (words-AllWords key bk)
          (length-words 3 nonce (omega (arith, ln))) (words-AllWords nonce bn) (omega arith) bi in
      (
        λ h.
            let (_, passed, counted) =
              >>=-eq-ok (constraint_case g cs (words key) (words nonce) 1 input output) _
                (sym run ∙ h) in
            (to passed, assert-true num_constraints counted),
        λ (e, n). run ∙ rw (from e) (ap (λ (b : Bool). assert b) ((==_iff _ _).1 n)),
      )
