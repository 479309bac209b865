-- ===== src/Field/Modular.antt =====
-- The scalar field of BN254 (`ark_bn254::Fr`) as the numbers below its order: the field at which
-- the examples apply the theorems about an abstract `PrimeField`.
use native.Mathlib.Bridge.{le_prop}
use mathlib.Core.HLevel.{Σ_prop_path}
use zk_prompt.Base.{ℕ, ◌+◌, ◌*◌, ◌%◌, ◌<◌, ◌≡◌, ◌↔◌, ◌==◌, true, ==_iff, arith, ap, refl}
use zk_prompt.Field.{PrimeField}

abbrev order : ℕ
order = 21888242871839275222246405745257275088548364400416034343698204186575808495617

unfoldable pub Residue : Type 0
Residue = (n : ℕ) × (n < order)

pub residue-lt : (n : ℕ) → n % order < order
residue-lt n = omega arith

unfoldable pub residue : ℕ → Residue
unfolding Residue
residue n = (n % order, residue-lt n)

unfoldable pub number : Residue → ℕ
unfolding Residue
number r = r.0

number-lt : (r : Residue) → number r < order
unfolding Residue number
number-lt r = r.1

pub residue_ext : (r s : Residue) → number r ≡ number s → r ≡ s
unfolding Residue number
residue_ext r s e = Σ_prop_path (λ n. le_prop) e

number-residue : (n : ℕ) → number (residue n) ≡ n % order
unfolding number residue
number-residue n = refl

unfoldable pub add_mod : Residue → Residue → Residue
unfolding number residue
add_mod r s = residue (number r + number s)

unfoldable pub mul_mod : Residue → Residue → Residue
unfolding number residue
mul_mod r s = residue (number r * number s)

number-add_mod : (r s : Residue) → number (add_mod r s) ≡ (number r + number s) % order
unfolding add_mod
number-add_mod r s = number-residue (number r + number s)

pub add_mod_comm : (r s : Residue) → add_mod r s ≡ add_mod s r
add_mod_comm r s = residue_ext _ _ (omega (arith, number-add_mod r s, number-add_mod s r))

pub add_mod_assoc : (r s t : Residue) → add_mod (add_mod r s) t ≡ add_mod r (add_mod s t)
add_mod_assoc r s t = residue_ext _ _ (
    omega (
      arith,
      number-add_mod (add_mod r s) t,
      number-add_mod r s,
      number-add_mod r (add_mod s t),
      number-add_mod s t,
    ))

pub zero-add_mod : (r : Residue) → add_mod (residue 0) r ≡ r
zero-add_mod r =
    residue_ext _ _ (omega (arith, number-add_mod (residue 0) r, number-residue 0, number-lt r))

pub add_mod_cancel : (r s t : Residue) → add_mod r s ≡ add_mod r t → s ≡ t
add_mod_cancel r s t e = residue_ext _ _ (
    omega (
      arith,
      number-add_mod r s,
      number-add_mod r t,
      ap number e,
      number-lt r,
      number-lt s,
      number-lt t,
    ))

pub residue-add : (m n : ℕ) → residue (m + n) ≡ add_mod (residue m) (residue n)
residue-add m n = residue_ext _ _ (
    omega (
      arith,
      number-residue (m + n),
      number-add_mod (residue m) (residue n),
      number-residue m,
      number-residue n,
    ))

pub residue_injective : (m n : ℕ) → m < order → n < order → residue m ≡ residue n → m ≡ n
residue_injective m n h k e = omega (arith, ap number e, number-residue m, number-residue n)

pub eq_mod_iff : (r s : Residue) → ((number r == number s) ≡ true) ↔ (r ≡ s)
eq_mod_iff r s = (
  λ h. residue_ext r s ((==_iff (number r) (number s)).0 h),
  λ e. (==_iff (number r) (number s)).1 (ap number e),
)

abbrev pub bn254 : PrimeField
bn254 = record {
  F = Residue;
  zero = residue 0;
  one = residue 1;
  add = add_mod;
  mul = mul_mod;
  eq = λ x y. number x == number y;
  double = λ x. add_mod x x;
  of_nat = residue;
  eq_iff = eq_mod_iff;
  add_comm = add_mod_comm;
  add_assoc = add_mod_assoc;
  zero-add = zero-add_mod;
  add_cancel = add_mod_cancel;
  double_lem = λ x. refl;
  of_nat-zero = refl;
  of_nat-one = refl;
  of_nat-add = residue-add;
  modulus = order;
  of_nat-injective = residue_injective;
  wide = omega arith;
}
