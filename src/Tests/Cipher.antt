-- ===== src/Tests/Cipher.antt =====
-- prover/src/chacha20/mod.rs: the module `test`. Key, nonce, input and expected output are
-- arguments, and so are the new constraint system and, for the test that compares it, the number of
-- constraints that the circuit library counts in the end.
pub mod Vectors
use zk_prompt.Base.{ℕ, List, [], ◌∷◌, ◌++◌, map, Bytes, ◌==◌}
use zk_prompt.Base.Chunks.{chunks}
use zk_prompt.Base.Outcome.{Outcome, ok, ◌>>=◌, ◌>>◌, assert, in_range, unwrap}
use zk_prompt.Field.{PrimeField}
use zk_prompt.Gadgets.{Gadgets}
use zk_prompt.Chacha20
use zk_prompt.Circuit.{qr_constants, u32_from_le_bytes, alloc_bytes}

-- `.chunks(4).map(|x| u32::from_le_bytes(x.try_into().unwrap()))`
unfoldable pub words_of_chunks {ℓ} : {E : Type ℓ} → List Bytes → Outcome E (List ℕ)
words_of_chunks [] = ok []
words_of_chunks (x ∷ xs) = do
  word ← u32_from_le_bytes x
  more ← words_of_chunks xs
  ok (word ∷ more)

module _ {f : PrimeField} (g : Gadgets f) where
  open g use {SynthesisError, Cs, U32}

  -- `.map(|x| UInt32::new_witness(.., || Ok(*x)).unwrap())`, and the same written out.
  unfoldable pub alloc_u32s : List ℕ → Cs → Outcome SynthesisError (List U32 × Cs)
  alloc_u32s [] cs = ok ([], cs)
  alloc_u32s (x ∷ xs) cs = do
    (var, cs') ← unwrap (g.u32_witness x cs)
    (vars, cs'') ← alloc_u32s xs cs'
    ok (var ∷ vars, cs'')

  -- `test_chacha20_constraint_case0` behind its data; the other test does the same.
  unfoldable pub constraint_case :
      Cs → List ℕ → List ℕ → ℕ → Bytes → Bytes → Outcome SynthesisError (Unit {0})
  constraint_case cs key nonce count input output = do
    (key_vars, cs) ← alloc_u32s key cs
    (nonce_vars, cs) ← alloc_u32s nonce cs
    (count_vars, cs) ← unwrap (g.u32_witness count cs)
    let qr_constant_vars = map (g.u32_constant) qr_constants
    (input_vars, cs) ← alloc_bytes g input cs
    chacha20 ← Chacha20.new g qr_constant_vars key_vars nonce_vars count_vars input_vars
    chacha20 ← unwrap (Chacha20.generate_constraints g chacha20)
    Chacha20.consistency_check g chacha20 output

  -- `test_chacha20_constraint_case0`
  unfoldable pub constraint_case0 : Cs → Outcome SynthesisError (Unit {0})
  constraint_case0 cs =
      constraint_case cs (0 ∷ 0 ∷ 0 ∷ 0 ∷ 0 ∷ 0 ∷ 0 ∷ 0 ∷ []) (0 ∷ 0 ∷ 0 ∷ []) 1
        (49 ∷ 50 ∷ 51 ∷ 52 ∷ []) (174 ∷ 53 ∷ 212 ∷ 138 ∷ [])

  -- `test_chacha20_constraint_case1`, with the bytes of the hexadecimal texts as arguments;
  -- `num_constraints` is what `cs.num_constraints()` returns.
  unfoldable pub constraint_case1 :
      Cs → Bytes → Bytes → Bytes → Bytes → ℕ → Outcome SynthesisError (Unit {0})
  constraint_case1 cs key nonce input output num_constraints = do
    key_parts ← in_range (chunks 4 key)
    key_chunks ← words_of_chunks key_parts
    nonce_parts ← in_range (chunks 4 nonce)
    nonce_chunks ← words_of_chunks nonce_parts
    constraint_case cs key_chunks nonce_chunks 1 input output
    assert (num_constraints == 23106)
