-- ===== src/Examples/Crypto.antt =====
-- ChaCha20, MiMC and the commitments on concrete inputs.
use zk_prompt.Base.{
  ℕ, ◌≡◌, refl, ap, some, List, [], ◌∷◌, ◌++◌, map, Bytes, length, replicate, arith,
}
use zk_prompt.Base.Chunks.{chunks_loop}
use zk_prompt.Base.Text.{codes}
use zk_prompt.Base.Outcome.{ok}
use zk_prompt.Field.Modular.{bn254, residue, Residue}
use zk_prompt.Gadgets.{Gadgets}
use zk_prompt.Gadgets.Plain.{plain, u8, u32}
use zk_prompt.Mimc.Reference.{absorb_state, squeeze_outputs, constants, permute_feistel-reference}
use zk_prompt.Mimc.{permute_feistel}
use zk_prompt.Mimc.Bn254.{mimc_bn254}
use zk_prompt.Mimc.Constraint
use zk_prompt.Mimc.Constraint.{MimcBn254Var}
use zk_prompt.Mimc.Agree.{Holds, map-generate_constraints}
use zk_prompt.Chacha20
use zk_prompt.Chacha20.Reference.{
  chacha20, encrypt_blocks, xor_bytes, block, serialise, iterate_rounds, double_round,
}
use zk_prompt.Chacha20.Agree.{generate_constraints-chacha20}
use zk_prompt.Chacha20.Laws.{chacha20_twice}
use zk_prompt.Commitment.{mimc_commit}
use zk_prompt.Commitment.Binding.{compress_bytes_injective, mimc_commit-zero_bytes}
use zk_prompt.Circuit.{qr_constants, commit_var}
use zk_prompt.Circuit.Commit.{commit_var_lem}

abbrev circuit : Gadgets bn254
circuit = plain bn254

-- ChaCha20: the test vector of the repository's own test.
abbrev zeros : ℕ → List ℕ
zeros n = replicate {A = ℕ} n 0

abbrev digits : Bytes
digits = codes "1234"

digits_encrypted : chacha20 qr_constants (zeros 8) (zeros 3) 1 digits ≡ 174 ∷ 53 ∷ 212 ∷ 138 ∷ []
unfolding chacha20 encrypt_blocks chunks_loop xor_bytes block serialise iterate_rounds double_round
digits_encrypted = refl

generate_constraints-chacha20_example :
    (c c' : Chacha20.ChaCha20Var circuit) × (Chacha20.new circuit
        (map u32 qr_constants)
        (map u32 (zeros 8))
        (map u32 (zeros 3))
        (u32 1)
        (map u8 digits)
      ≡ ok c)
    × (Chacha20.generate_constraints circuit c ≡ ok c')
    × (map (circuit.u8_value) c'.output_vars
        ≡ chacha20
            (map (circuit.u32_value) (map u32 qr_constants))
            (map (circuit.u32_value) (map u32 (zeros 8)))
            (map (circuit.u32_value) (map u32 (zeros 3)))
            (circuit.u32_value (u32 1))
            (map (circuit.u8_value) (map u8 digits)))
generate_constraints-chacha20_example =
    generate_constraints-chacha20 circuit (map u32 qr_constants) (map u32 (zeros 8))
      (map u32 (zeros 3)) (u32 1) (map u8 digits) refl refl refl

chacha20_twice_example :
    (length (chacha20 qr_constants (zeros 8) (zeros 3) 1 digits) ≡ 4)
    × (chacha20 qr_constants
          (zeros 8)
          (zeros 3)
          1
          (chacha20 qr_constants (zeros 8) (zeros 3) 1 digits)
        ≡ digits)
chacha20_twice_example = chacha20_twice qr_constants (zeros 8) (zeros 3) refl refl refl 1 digits

-- MiMC
abbrev state : List Residue
state = residue 1 ∷ residue 2 ∷ []

permute_feistel-reference_example :
    permute_feistel bn254 (mimc_bn254 bn254) state 2
    ≡ squeeze_outputs bn254
        (residue 0)
        (constants bn254)
        1
        (absorb_state bn254 (residue 0) (constants bn254) state (residue 0, residue 0))
permute_feistel-reference_example = permute_feistel-reference bn254 state 2

value_keys : (xs : List Residue) → map (circuit.fp_value) (map (circuit.fp_constant) xs) ≡ xs
value_keys [] = refl
value_keys (x ∷ xs) = ap (◌∷◌ x) (value_keys xs)

abbrev mimc_var : ℕ → MimcBn254Var circuit
mimc_var n = record {
  num_outputs = n;
  k = (mimc_bn254 bn254).k;
  round_keys = map (circuit.fp_constant) (mimc_bn254 bn254).keys;
}

mimc_var-Holds : (n : ℕ) → Holds circuit (mimc_var n)
mimc_var-Holds n = record { key = refl; keys = value_keys (mimc_bn254 bn254).keys }

map-generate_constraints_example :
    map (circuit.fp_value) (Constraint.generate_constraints circuit (mimc_var 2) state)
    ≡ permute_feistel bn254 (mimc_bn254 bn254) (map (circuit.fp_value) state) 2
map-generate_constraints_example =
    map-generate_constraints circuit (mimc_var 2) (mimc_var-Holds 2) state

-- Commitments
commit_var_lem_example :
    (x : Residue) × (commit_var circuit (mimc_var 1) (map u8 digits) ≡ ok x)
    × (mimc_commit bn254 (map (circuit.u8_value) (map u8 digits)) ≡ some x)
commit_var_lem_example = commit_var_lem circuit (mimc_var 1) (map u8 digits) (mimc_var-Holds 1) refl

compress_bytes_injective_example : digits ≡ digits
compress_bytes_injective_example =
    compress_bytes_injective bn254 250 digits digits (omega arith) (omega arith) (omega arith)
      (omega arith) refl refl

mimc_commit-zero_bytes_example : mimc_commit bn254 (digits ++ zeros 3) ≡ mimc_commit bn254 digits
mimc_commit-zero_bytes_example = mimc_commit-zero_bytes bn254 digits 3 (omega arith) (omega arith)
