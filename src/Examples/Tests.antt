-- ===== src/Examples/Tests.antt =====
-- The tests of the repository, run on the concrete parts.
pub mod Vectors
use zk_prompt.Base.{
  ℕ, zero, suc, ◌+◌, ◌*◌, ◌≡◌, ◌↔◌, refl, sym, ◌∙◌, true, List, [], ◌∷◌, ◌++◌, Bytes, replicate,
  arith, ◌==◌, ==_iff,
}
use zk_prompt.Base.Outcome.{ok}
use zk_prompt.Field.Modular.{bn254, Residue, residue, number, eq_mod_iff}
use zk_prompt.Gadgets.Plain.{System, plain}
use zk_prompt.Chacha20.Reference.{chacha20}
use zk_prompt.Circuit.{qr_constants}
use zk_prompt.Circuit.Alloc.{words}
use zk_prompt.Tests.Cipher.{constraint_case, constraint_case0, constraint_case1}
use zk_prompt.Tests.Cipher.Vectors.{constraint_case_iff, constraint_case1_iff}
use zk_prompt.Tests.Packing.{
  test_compress, native_compress_matches_circuit, native_cipher_commitment_matches_circuit,
}
use zk_prompt.Tests.Fields.{FieldTests, le_number}
use zk_prompt.Tests.Packing.Passes.{test_compress_passes, natives_match_circuit}

abbrev start : System bn254
start = record { satisfied = true; inputs = [] }

abbrev no_words : ℕ → List ℕ
no_words n = replicate n 0

-- `==` on the field of the examples, and bytes as a number.
abbrev residue_tests : FieldTests bn254
residue_tests = record {
  eq = λ x y. number x == number y;
  from_le_bytes_mod_order = λ bs. residue (le_number bs);
  eq_iff = eq_mod_iff;
  from_le_bytes_mod_order_lem = λ bs h. refl;
}

test_compress_passes_example : test_compress (plain bn254) residue_tests (1 ∷ 2 ∷ 255 ∷ []) ≡ ok tt
test_compress_passes_example =
    test_compress_passes (plain bn254) residue_tests (1 ∷ 2 ∷ 255 ∷ []) (omega arith)

natives_match_circuit_example :
    (native_compress_matches_circuit (plain bn254) residue_tests (1 ∷ 2 ∷ 255 ∷ []) ≡ ok tt)
    × (native_cipher_commitment_matches_circuit (plain bn254) residue_tests (1 ∷ 2 ∷ 255 ∷ [])
        ≡ ok tt)
natives_match_circuit_example =
    natives_match_circuit (plain bn254) residue_tests (1 ∷ 2 ∷ 255 ∷ []) (omega arith)
