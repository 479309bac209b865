-- ===== src/Gadgets.antt =====
-- The circuit library (ark-r1cs-std, ark-relations), which is not part of the repository: the
-- variables and the operations that the source calls, and what its documentation says of their
-- values. The interface is that of a run with a full assignment, where every variable has a value;
-- a constraint system is seen through its public inputs and through `is_satisfied`. A witness
-- variable has the value that it is allocated with, so that a witness stands for its assignment. A
-- public input has any value, since the verifier sets it; in an `Honest` run, the one with which the
-- code allocates it.
pub mod Plain
use zk_prompt.Base.{
  ℕ, ◌+◌, ◌-◌, ◌*◌, ◌/◌, ◌%◌, ◌^◌, ◌≤◌, ◌<◌, length, ◌≡◌, refl, ap₂, AllBytes, Bool, true, false,
  ◌&&◌, List, [], ◌∷◌, ◌++◌, map, Bytes, ◌==◌, if◌then◌else◌,
}
use zk_prompt.Base.Outcome.{Outcome, ok, err, panic}
use zk_prompt.Field.{PrimeField}
use Prim.Native.Nat.{bit_xor}

-- `u32::rotate_left` at `0 < k < 32`, and the bytes and the bits of a number.
abbrev pub rotate_left : ℕ → ℕ → ℕ
rotate_left x k = x * 2 ^ k % 2 ^ 32 + x / 2 ^ (32 - k)

abbrev pub le_bytes : ℕ → Bytes
le_bytes x = x % 256 ∷ (x / 256 % 256) ∷ (x / 65536 % 256) ∷ (x / 16777216 % 256) ∷ []

abbrev pub bit_at : ℕ → ℕ → Bool
bit_at x i = x / 2 ^ i % 2 == 1

-- The bits of a byte from the highest down.
abbrev pub bits_be : ℕ → List Bool
bits_be x =
    bit_at x 7
    ∷ bit_at x 6
    ∷ bit_at x 5
    ∷ bit_at x 4
    ∷ bit_at x 3
    ∷ bit_at x 2
    ∷ bit_at x 1
    ∷ bit_at x 0
    ∷ []

-- The number whose binary digits, from the lowest up, are the bits.
abbrev pub le_value : List Bool → ℕ
le_value [] = 0
le_value (b ∷ bs) = (if b then 1 else 0) + 2 * le_value bs

pub record Gadgets (f : PrimeField) : Type 1 where
  pub SynthesisError : Type 0
  pub Cs : Type 0
  pub Bit : Type 0
  pub U8 : Type 0
  pub U32 : Type 0
  pub Fp : Type 0
  -- `R1CSVar::value`
  pub bit_value : Bit → Bool
  pub u8_value : U8 → ℕ
  pub u32_value : U32 → ℕ
  pub fp_value : Fp → f.F
  pub u8_value-lt : (x : U8) → u8_value x < 256
  pub u32_value-lt : (x : U32) → u32_value x < 2 ^ 32
  -- `FpVar`
  pub fp_zero : Fp
  pub fp_one : Fp
  pub fp_constant : f.F → Fp
  pub fp_add : Fp → Fp → Fp
  pub fp_mul : Fp → Fp → Fp
  pub fp_value-zero : fp_value fp_zero ≡ f.zero
  pub fp_value-one : fp_value fp_one ≡ f.one
  pub fp_value-constant : (x : f.F) → fp_value (fp_constant x) ≡ x
  pub fp_value-add : (x y : Fp) → fp_value (fp_add x y) ≡ f.add (fp_value x) (fp_value y)
  pub fp_value-mul : (x y : Fp) → fp_value (fp_mul x y) ≡ f.mul (fp_value x) (fp_value y)
  -- `UInt32`
  pub u32_constant : ℕ → U32
  pub wrapping_add : U32 → U32 → U32
  pub u32_xor : U32 → U32 → U32
  pub u32_rotate_left : U32 → ℕ → U32
  pub to_bytes_le : U32 → Outcome SynthesisError (List U8)
  pub u32_value-constant : (n : ℕ) → n < 2 ^ 32 → u32_value (u32_constant n) ≡ n
  pub u32_value-add :
      (x y : U32) → u32_value (wrapping_add x y) ≡ (u32_value x + u32_value y) % 2 ^ 32
  pub u32_value-xor : (x y : U32) → u32_value (u32_xor x y) ≡ bit_xor (u32_value x) (u32_value y)
  pub u32_value-rotate_left :
      (x : U32) (k : ℕ) → k < 32 → u32_value (u32_rotate_left x k) ≡ rotate_left (u32_value x) k
  pub to_bytes_le_lem :
      (x : U32)
      → (bs : List U8) × (to_bytes_le x ≡ ok bs) × (map u8_value bs ≡ le_bytes (u32_value x))
  -- `UInt8` and `Boolean`
  pub bit_constant : Bool → Bit
  pub u8_constant : ℕ → U8
  pub u8_xor : U8 → U8 → U8
  pub to_bits_be : U8 → Outcome SynthesisError (List Bit)
  pub le_bits_to_fp : List Bit → Outcome SynthesisError Fp
  pub bit_value-constant : (b : Bool) → bit_value (bit_constant b) ≡ b
  pub u8_value-constant : (n : ℕ) → n < 256 → u8_value (u8_constant n) ≡ n
  pub u8_value-xor : (x y : U8) → u8_value (u8_xor x y) ≡ bit_xor (u8_value x) (u8_value y)
  pub to_bits_be_lem :
      (x : U8)
      → (bs : List Bit) × (to_bits_be x ≡ ok bs) × (map bit_value bs ≡ bits_be (u8_value x))
  -- At most 250 bits are a number below the field's order.
  pub le_bits_to_fp_lem :
      (bs : List Bit)
      → length bs ≤ 250
      → (x : Fp) × (le_bits_to_fp bs ≡ ok x) × (fp_value x ≡ f.of_nat (le_value (map bit_value bs)))
  -- The constraint system: `is_satisfied`, and the public inputs in the order of `new_input`.
  pub satisfied : Cs → Bool
  pub inputs : Cs → List (f.F)
  pub u8_witness : ℕ → Cs → Outcome SynthesisError (U8 × Cs)
  pub u32_witness : ℕ → Cs → Outcome SynthesisError (U32 × Cs)
  pub fp_witness : f.F → Cs → Outcome SynthesisError (Fp × Cs)
  pub fp_input : f.F → Cs → Outcome SynthesisError (Fp × Cs)
  pub u8_enforce_equal : U8 → U8 → Cs → Outcome SynthesisError Cs
  pub fp_enforce_equal : Fp → Fp → Cs → Outcome SynthesisError Cs
  pub u8_witness_lem :
      (n : ℕ) (cs : Cs)
      → n < 256
      → (x : U8) × (cs' : Cs) × (u8_witness n cs ≡ ok (x, cs'))
        × (u8_value x ≡ n)
        × (satisfied cs' ≡ satisfied cs)
        × (inputs cs' ≡ inputs cs)
  pub u32_witness_lem :
      (n : ℕ) (cs : Cs)
      → n < 2 ^ 32
      → (x : U32) × (cs' : Cs) × (u32_witness n cs ≡ ok (x, cs'))
        × (u32_value x ≡ n)
        × (satisfied cs' ≡ satisfied cs)
        × (inputs cs' ≡ inputs cs)
  pub fp_witness_lem :
      (v : f.F) (cs : Cs)
      → (x : Fp) × (cs' : Cs) × (fp_witness v cs ≡ ok (x, cs'))
        × (fp_value x ≡ v)
        × (satisfied cs' ≡ satisfied cs)
        × (inputs cs' ≡ inputs cs)
  pub fp_input_lem :
      (v : f.F) (cs : Cs)
      → (x : Fp) × (cs' : Cs) × (fp_input v cs ≡ ok (x, cs'))
        × (satisfied cs' ≡ satisfied cs)
        × (inputs cs' ≡ inputs cs ++ fp_value x ∷ [])
  -- Equal values succeed and keep the system as it was; unequal ones fail, or leave a system that
  -- is not satisfied. A system that is not satisfied stays so.
  pub u8_enforce_equal-same :
      (x y : U8) (cs : Cs)
      → u8_value x ≡ u8_value y
      → (cs' : Cs) × (u8_enforce_equal x y cs ≡ ok cs')
        × (satisfied cs' ≡ satisfied cs)
        × (inputs cs' ≡ inputs cs)
  pub u8_enforce_equal-holds :
      (x y : U8) (cs cs' : Cs)
      → u8_enforce_equal x y cs ≡ ok cs'
      → (satisfied cs' ≡ (satisfied cs && (u8_value x == u8_value y))) × (inputs cs' ≡ inputs cs)
  pub fp_enforce_equal-same :
      (x y : Fp) (cs : Cs)
      → fp_value x ≡ fp_value y
      → (cs' : Cs) × (fp_enforce_equal x y cs ≡ ok cs')
        × (satisfied cs' ≡ satisfied cs)
        × (inputs cs' ≡ inputs cs)
  pub fp_enforce_equal-holds :
      (x y : Fp) (cs cs' : Cs)
      → fp_enforce_equal x y cs ≡ ok cs'
      → (satisfied cs' ≡ (satisfied cs && f.eq (fp_value x) (fp_value y)))
        × (inputs cs' ≡ inputs cs)

-- A run in which the public inputs have the values that they are allocated with.
pub record Honest {f : PrimeField} (g : Gadgets f) : Type 0 where
  pub fp_value-input :
      (v : f.F) (cs cs' : g.Cs) (x : g.Fp) → g.fp_input v cs ≡ ok (x, cs') → g.fp_value x ≡ v

module _ {f : PrimeField} (g : Gadgets f) where
  open g use {u8_value, u8_constant}

  pub map-u8_constant : (bs : Bytes) → AllBytes bs → map u8_value (map u8_constant bs) ≡ bs
  map-u8_constant [] h = refl
  map-u8_constant (b ∷ bs) h = ap₂ ◌∷◌ (g.u8_value-constant b h.0) (map-u8_constant bs h.1)
