-- ===== src/Gadgets/Plain.antt =====
-- A circuit library whose variables are their values and whose constraint system keeps the public
-- inputs and one flag: the instance at which the examples apply the theorems about the circuit.
use Prim.Native.Nat.{bit_xor}
use Prim.Native.Nat.add
use native.Mathlib.Nat.{
  zero-add, one-mul, mod-mod, pow-suc, mul_comm, mul_right_comm, add-mul, mul-le-mul_right,
  div-lt_iff_lt-mul, div-add-mod', mul_assoc, one-le-pow, mod-lt,
}
use zk_prompt.Base.{
  ℕ, zero, suc, ◌+◌, ◌-◌, ◌*◌, ◌/◌, ◌%◌, ◌^◌, ◌≤◌, ◌<◌, ◌≡◌, refl, sym, ap, ◌∙◌, Bool, true, false,
  ◌&&◌, List, [], ◌∷◌, ◌++◌, map, ◌==◌, arith, ==_iff,
}
use zk_prompt.Base.Outcome.{Outcome, ok}
use zk_prompt.Base.Xor.{bit_xor-lt}
use zk_prompt.Field.{PrimeField}
use zk_prompt.Gadgets.{Gadgets, Honest, rotate_left, le_bytes, bits_be, le_value}

abbrev U8 : Type 0
U8 = (n : ℕ) × (n < 256)

abbrev U32 : Type 0
U32 = (n : ℕ) × (n < 2 ^ 32)

unfoldable pub u8 : ℕ → U8
u8 n = (n % 256, omega arith)

unfoldable pub u32 : ℕ → U32
u32 n = (n % 2 ^ 32, omega arith)

pub u8-value : (n : ℕ) → n < 256 → (u8 n).0 ≡ n
unfolding u8
u8-value n h = omega arith

pub u32-value : (n : ℕ) → n < 2 ^ 32 → (u32 n).0 ≡ n
unfolding u32
u32-value n h = omega arith

pub u32-add : (x y : U32) → (u32 (x.0 + y.0)).0 ≡ (x.0 + y.0) % 2 ^ 32
unfolding u32
u32-add x y = refl

pub u8-xor : (x y : U8) → (u8 (bit_xor (x.0) (y.0))).0 ≡ bit_xor (x.0) (y.0)
u8-xor x y = u8-value _ (bit_xor-lt 8 (x.0) (y.0) x.1 y.1)

pub u32-xor : (x y : U32) → (u32 (bit_xor (x.0) (y.0))).0 ≡ bit_xor (x.0) (y.0)
u32-xor x y = u32-value _ (bit_xor-lt 32 (x.0) (y.0) x.1 y.1)

pub bytes_value : (x : ℕ) → map (λ (b : U8). b.0) (map u8 (le_bytes x)) ≡ le_bytes x
unfolding u8
bytes_value x = simp mod-mod

pow_split : (k r : ℕ) → 2 ^ (k + r) ≡ 2 ^ k * 2 ^ r
pow_split zero r = rw (zero-add, one-mul)
pow_split (suc k) r =
    ap (◌^◌ 2) (add.suc k r)
    ∙ pow-suc 2 (k + r)
    ∙ ap (λ (n : ℕ). n * 2) (pow_split k r)
    ∙ mul_right_comm (2 ^ k) (2 ^ r) 2
    ∙ ap (λ (n : ℕ). n * 2 ^ r) (sym (pow-suc 2 k))

-- With `p = 2 ^ k`, `q = 2 ^ (32 - k)` and `x = d * q + m`, the rotation is `m * p + d`.
pub rotate_left-lt : (x k : ℕ) → x < 2 ^ 32 → k < 32 → rotate_left x k < 2 ^ 32
rotate_left-lt x k h hk =
    let p : ℕ = 2 ^ k in
    let q : ℕ = 2 ^ (32 - k) in
    let d : ℕ = x / q in
    let m : ℕ = x % q in
    let whole : k + (32 - k) ≡ 32 = omega arith in
    let pq : p * q ≡ 2 ^ 32 = sym (pow_split k (32 - k)) ∙ ap (◌^◌ 2) whole in
    let q_pos : 0 < q = one-le-pow (32 - k) 2 (omega arith) in
    let d_lt : d < p = (div-lt_iff_lt-mul {k = q} {x = x} {y = p} q_pos).1 (omega (arith, pq)) in
    let product : x * p ≡ d * (q * p) + m * p =
      ap (λ (n : ℕ). n * p) (sym (div-add-mod' x q))
      ∙ add-mul (d * q) m p
      ∙ ap (λ (n : ℕ). n + m * p) (mul_assoc d q p) in
    let qp : q * p ≡ 2 ^ 32 = mul_comm q p ∙ pq in
    let m_lt : m + 1 ≤ q = omega (arith, mod-lt x q_pos) in
    let low : m * p + p ≤ 2 ^ 32 =
      omega (arith, mul-le-mul_right {m = m + 1} {n = q} p m_lt, add-mul m 1 p, one-mul p, qp) in
    let shifted : x * p ≡ d * 4294967296 + m * p = product ∙ ap (λ (n : ℕ). d * n + m * p) qp in
    omega (arith, shifted, low, d_lt)

pub value_bits : (bs : List Bool) → map (λ (b : Bool). b) bs ≡ bs
value_bits [] = refl
value_bits (b ∷ bs) = ap (◌∷◌ b) (value_bits bs)

pub keep : (s t : Bool) → t ≡ true → (s && t) ≡ s
keep true t h = h
keep false t h = refl

module _ (f : PrimeField) where
  pub record System : Type 0 where
    pub satisfied : Bool
    pub inputs : List (f.F)

  pub holds :
      (s : System) (b : Bool) {cs' : System}
      → ◌≡◌ {A = Outcome (Unit {0}) System}
          (ok (record { satisfied = s.satisfied && b; inputs = s.inputs }))
          (ok cs')
      → (cs'.satisfied ≡ (s.satisfied && b)) × (cs'.inputs ≡ s.inputs)
  holds s b {cs'} e =
      let same : record { satisfied = s.satisfied && b; inputs = s.inputs } ≡ cs' = cc (e) in
      (ap (λ (t : System). t.satisfied) (sym same), ap (λ (t : System). t.inputs) (sym same))

  -- `set` is what the public inputs are set to, from the values that they are allocated with.
  abbrev pub plain_with : (f.F → f.F) → Gadgets f
  plain_with set = record {
    SynthesisError = Unit {0};
    Cs = System;
    Bit = Bool;
    U8 = U8;
    U32 = U32;
    Fp = f.F;
    bit_value = λ b. b;
    u8_value = λ x. x.0;
    u32_value = λ x. x.0;
    fp_value = λ x. x;
    u8_value-lt = λ x. x.1;
    u32_value-lt = λ x. x.1;
    fp_zero = f.zero;
    fp_one = f.one;
    fp_constant = λ x. x;
    fp_add = f.add;
    fp_mul = f.mul;
    fp_value-zero = refl;
    fp_value-one = refl;
    fp_value-constant = λ x. refl;
    fp_value-add = λ x y. refl;
    fp_value-mul = λ x y. refl;
    u32_constant = u32;
    wrapping_add = λ x y. u32 (x.0 + y.0);
    u32_xor = λ x y. u32 (bit_xor x.0 y.0);
    u32_rotate_left = λ x k. u32 (rotate_left x.0 k);
    to_bytes_le = λ x. ok (map u8 (le_bytes x.0));
    u32_value-constant = u32-value;
    u32_value-add = u32-add;
    u32_value-xor = u32-xor;
    u32_value-rotate_left = λ x k h. u32-value _ (rotate_left-lt x.0 k x.1 h);
    to_bytes_le_lem = λ x. (_, refl, bytes_value x.0);
    bit_constant = λ b. b;
    u8_constant = u8;
    u8_xor = λ x y. u8 (bit_xor x.0 y.0);
    to_bits_be = λ x. ok (bits_be x.0);
    le_bits_to_fp = λ bs. ok (f.of_nat (le_value bs));
    bit_value-constant = λ b. refl;
    u8_value-constant = u8-value;
    u8_value-xor = u8-xor;
    to_bits_be_lem = λ x. (_, refl, value_bits (bits_be x.0));
    le_bits_to_fp_lem =
        λ bs h. (_, refl, ap (λ (l : List Bool). f.of_nat (le_value l)) (sym (value_bits bs)));
    satisfied = λ cs. cs.satisfied;
    inputs = λ cs. cs.inputs;
    u8_witness = λ n cs. ok (u8 n, cs);
    u32_witness = λ n cs. ok (u32 n, cs);
    fp_witness = λ v cs. ok (v, cs);
    fp_input =
        λ v cs. ok (set v, record { satisfied = cs.satisfied; inputs = cs.inputs ++ set v ∷ [] });
    u8_enforce_equal =
        λ x y cs. ok (record { satisfied = cs.satisfied && (x.0 == y.0); inputs = cs.inputs });
    fp_enforce_equal =
        λ x y cs. ok (record { satisfied = cs.satisfied && f.eq x y; inputs = cs.inputs });
    u8_witness_lem = λ n cs h. (_, _, refl, u8-value n h, refl, refl);
    u32_witness_lem = λ n cs h. (_, _, refl, u32-value n h, refl, refl);
    fp_witness_lem = λ v cs. (_, _, refl, refl, refl, refl);
    fp_input_lem = λ v cs. (_, _, refl, refl, refl);
    u8_enforce_equal-same = λ x y cs e. (_, refl, keep _ _ ((==_iff x.0 y.0).1 e), refl);
    u8_enforce_equal-holds = λ x y cs cs' e. holds cs (x.0 == y.0) e;
    fp_enforce_equal-same = λ x y cs e. (_, refl, keep _ _ ((f.eq_iff x y).1 e), refl);
    fp_enforce_equal-holds = λ x y cs cs' e. holds cs (f.eq x y) e;
  }

  abbrev pub plain : Gadgets f
  plain = plain_with (λ v. v)

  pub plain-Honest : Honest plain
  plain-Honest = record { fp_value-input = λ v cs cs' x e. cc (e) }
