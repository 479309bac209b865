-- ===== src/Circuit/Alloc.antt =====
-- Allocation: the variables hold the bytes and the little-endian words of the witness.
use mathlib.Core.List.{map-append}
use zk_prompt.Base.{
  ℕ, zero, suc, ◌+◌, ◌*◌, ◌≤◌, ◌≡◌, refl, ap, ap₂, sym, ◌∙◌, List, [], ◌∷◌, ◌++◌, map, Bytes,
  length, AllBytes, arith, append-nil, append_assoc,
}
use zk_prompt.Base.Chunks.{chunks, chunks_loop}
use zk_prompt.Base.Outcome.{Outcome, ok}
use zk_prompt.Field.{PrimeField}
use zk_prompt.Gadgets.{Gadgets}
use zk_prompt.Circuit.{u32_from_le_bytes, words_loop, alloc_words, alloc_bytes}

-- Little-endian words of four bytes.
unfoldable pub words : Bytes → List ℕ
words (a ∷ b ∷ c ∷ d ∷ rest) = (a + 256 * b + 65536 * c + 16777216 * d) ∷ words rest
words _ = []

pub length-words : (k : ℕ) (bytes : Bytes) → length bytes ≡ 4 * k → length (words bytes) ≡ k
unfolding words
length-words zero [] h = refl
length-words (suc k) (a ∷ b ∷ c ∷ d ∷ rest) h = ap suc (length-words k rest (omega arith))
length-words zero (_ ∷ _) h = absurd (omega arith)
length-words (suc k) [] h = absurd (omega arith)
length-words (suc k) (_ ∷ []) h = absurd (omega arith)
length-words (suc k) (_ ∷ _ ∷ []) h = absurd (omega arith)
length-words (suc k) (_ ∷ _ ∷ _ ∷ []) h = absurd (omega arith)

module _ {f : PrimeField} (g : Gadgets f) where
  open g use {SynthesisError, Cs, U8, U32, u8_value, u32_value, satisfied, inputs}

  -- An allocation that succeeds, with the values, and leaves the rest of the system alone.
  pub record Allocates {V : Type 0} (value : V → ℕ) (run : Outcome SynthesisError (List V × Cs))
      (values : List ℕ) (cs : Cs) : Type 0 where
    pub vars : List V
    pub cs' : Cs
    pub runs : run ≡ ok (vars, cs')
    pub holds : map value vars ≡ values
    pub same : satisfied cs' ≡ satisfied cs
    pub same_inputs : inputs cs' ≡ inputs cs

  words_loop_lem :
      (k fuel : ℕ) (bytes : Bytes) (vars : List U32) (cs : Cs)
      → length bytes ≡ 4 * k
      → length bytes ≤ fuel
      → AllBytes bytes
      → Allocates u32_value
          (words_loop g (chunks_loop fuel 4 bytes) vars cs)
          (map u32_value vars ++ words bytes)
          cs
  unfolding words_loop chunks_loop words u32_from_le_bytes
  words_loop_lem zero zero [] vars cs e h b = record {
    vars = vars;
    cs' = cs;
    runs = refl;
    holds = sym (append-nil _);
    same = refl;
    same_inputs = refl;
  }
  words_loop_lem zero (suc fuel) [] vars cs e h b = record {
    vars = vars;
    cs' = cs;
    runs = refl;
    holds = sym (append-nil _);
    same = refl;
    same_inputs = refl;
  }
  words_loop_lem (suc k) (suc fuel) (x ∷ y ∷ z ∷ w ∷ rest) vars cs e h b =
      let n : ℕ = x + 256 * y + 65536 * z + 16777216 * w in
      let (var, cs1, runs, value, same, ins) = g.u32_witness_lem n cs (omega arith) in
      let more =
        words_loop_lem k fuel rest (vars ++ var ∷ []) cs1 (omega arith) (omega arith) b.1.1.1.1 in
      record {
        vars = more.vars;
        cs' = more.cs';
        runs = rw runs (more.runs);
        holds =
            more.holds
            ∙ ap (λ (l : List ℕ). l ++ words rest)
                (map-append u32_value vars (var ∷ [])
                  ∙ ap (λ (v : ℕ). map u32_value vars ++ v ∷ []) value)
            ∙ append_assoc (map u32_value vars) (n ∷ []) (words rest);
        same = more.same ∙ same;
        same_inputs = more.same_inputs ∙ ins;
      }
  words_loop_lem zero fuel (_ ∷ _) vars cs e h b = absurd (omega arith)
  words_loop_lem (suc k) fuel [] vars cs e h b = absurd (omega arith)
  words_loop_lem (suc k) fuel (_ ∷ []) vars cs e h b = absurd (omega arith)
  words_loop_lem (suc k) fuel (_ ∷ _ ∷ []) vars cs e h b = absurd (omega arith)
  words_loop_lem (suc k) fuel (_ ∷ _ ∷ _ ∷ []) vars cs e h b = absurd (omega arith)
  words_loop_lem (suc k) zero (_ ∷ _ ∷ _ ∷ _ ∷ _) vars cs e h b = absurd (omega arith)

  pub alloc_words_lem :
      (k : ℕ) (bytes : Bytes) (cs : Cs)
      → length bytes ≡ 4 * k
      → AllBytes bytes
      → Allocates u32_value (alloc_words g bytes cs) (words bytes) cs
  unfolding alloc_words chunks
  alloc_words_lem k bytes cs e b = words_loop_lem k (length bytes) bytes [] cs e (omega arith) b

  pub alloc_bytes_lem :
      (bytes : Bytes) (cs : Cs)
      → AllBytes bytes
      → Allocates u8_value (alloc_bytes g bytes cs) bytes cs
  unfolding alloc_bytes
  alloc_bytes_lem [] cs b = record {
    vars = [];
    cs' = cs;
    runs = refl;
    holds = refl;
    same = refl;
    same_inputs = refl;
  }
  alloc_bytes_lem (x ∷ bytes) cs b =
      let (var, cs1, runs, value, same, ins) = g.u8_witness_lem x cs b.0 in
      let more = alloc_bytes_lem bytes cs1 b.1 in
      record {
        vars = var ∷ more.vars;
        cs' = more.cs';
        runs = rw runs (rw (more.runs));
        holds = ap₂ ◌∷◌ value more.holds;
        same = more.same ∙ same;
        same_inputs = more.same_inputs ∙ ins;
      }
