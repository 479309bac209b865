-- ===== src/Tests/Packing.antt =====
-- The modules `test` of prover/src/utils/mod.rs and of prover/src/commitment.rs, with their bytes as
-- an argument. What they call of the field library beside the field is an interface.
pub mod Bits
pub mod Passes
use zk_prompt.Base.{
  ℕ, zero, suc, ◌+◌, ◌*◌, ◌≡◌, ◌↔◌, Bool, true, false, ◌&&◌, List, [], ◌∷◌, ◌++◌, map, Bytes,
  length, get_elem?, set, replicate, ◌==◌, AllBytes,
}
use zk_prompt.Base.Chunks.{chunks}
use zk_prompt.Base.Outcome.{Outcome, ok, ◌>>=◌, ◌>>◌, assert, in_range, unwrap}
use zk_prompt.Field.{PrimeField}
use zk_prompt.Gadgets.{Gadgets}
use zk_prompt.Mimc.Bn254.{mimc_bn254}
use zk_prompt.Mimc.Constraint
use zk_prompt.Commitment.{bit_is_set, chunk_bits, compress_bytes, cipher_commitment}
use zk_prompt.Circuit.{bits_loop}
use zk_prompt.Circuit.Utils.{compress_var}
use zk_prompt.Tests.Fields.{FieldTests}

-- `for i in 0..8 { bits[i] = (n >> i) & 1 == 1 }` from index `i` on.
unfoldable pub set_bits : ℕ → ℕ → ℕ → List Bool → List Bool
set_bits zero i n bits = bits
set_bits (suc left) i n bits = set_bits left (i + 1) n (set bits i (bit_is_set n i))

unfoldable pub u8_to_le_bits : ℕ → List Bool
unfolding set_bits
u8_to_le_bits n = set_bits 8 0 n (replicate 8 false)

-- `data.iter().map(|x| u8_to_le_bits(*x)).flatten()`
unfoldable pub data_bytes : Bytes → List Bool
data_bytes [] = []
data_bytes (x ∷ data') = u8_to_le_bits x ++ data_bytes data'

abbrev pub list_eq {ℓ} : {A : Type ℓ} → (A → A → Bool) → List A → List A → Bool
list_eq eq [] [] = true
list_eq eq [] (y ∷ ys) = false
list_eq eq (x ∷ xs) [] = false
list_eq eq (x ∷ xs) (y ∷ ys) = eq x y && list_eq eq xs ys

module _ {f : PrimeField} (g : Gadgets f) (t : FieldTests f) where
  open g use {
    SynthesisError, Fp, bit_value, fp_value, bit_constant, u8_constant, fp_constant, fp_zero,
  }

  unfoldable pub test_compress : Bytes → Outcome SynthesisError (Unit {0})
  test_compress data' = do
    let data_var = map bit_constant (data_bytes data')
    output_vars ← unwrap (compress_var g data_var 248)
    let output = map fp_value output_vars
    parts ← in_range (chunks 31 data')
    let expect = map t.from_le_bytes_mod_order parts
    assert (list_eq t.eq output expect)

  -- `data.iter().flat_map(..)`: the values of the bits of each byte.
  unfoldable pub value_bits : Bytes → Outcome SynthesisError (List Bool)
  value_bits [] = ok []
  value_bits (byte ∷ data') = do
    bits ← unwrap (g.to_bits_be (u8_constant byte))
    more ← value_bits data'
    ok (map bit_value bits ++ more)

  -- `for (lhs, rhs) in circuit.iter().zip(native.iter())`
  unfoldable pub same_loop : List Fp → List f.F → Outcome SynthesisError (Unit {0})
  same_loop [] native = ok tt
  same_loop (lhs ∷ circuit) [] = ok tt
  same_loop (lhs ∷ circuit) (rhs ∷ native) = do
    assert (t.eq (fp_value lhs) rhs)
    same_loop circuit native

  unfoldable pub native_compress_matches_circuit : Bytes → Outcome SynthesisError (Unit {0})
  native_compress_matches_circuit data' = do
    bits ← value_bits data'
    let bit_vars = map bit_constant bits
    circuit ← unwrap (compress_var g bit_vars chunk_bits)
    native ← in_range (compress_bytes f data' chunk_bits)
    assert (length circuit == length native)
    same_loop circuit native

  unfoldable pub native_cipher_commitment_matches_circuit :
      Bytes → Outcome SynthesisError (Unit {0})
  native_cipher_commitment_matches_circuit data' = do
    native ← in_range (cipher_commitment f data')
    let cipher_vars = map u8_constant data'
    cipher_bits ← unwrap (bits_loop g cipher_vars [])
    compress_cipher ← unwrap (compress_var g cipher_bits chunk_bits)
    let round_constant_vars = map fp_constant (mimc_bn254 f).keys
    mimc_var ← in_range (Constraint.new g 1 round_constant_vars fp_zero)
    circuit ← in_range (get_elem? (Constraint.generate_constraints g mimc_var compress_cipher) 0)
    assert (t.eq native (fp_value circuit))
