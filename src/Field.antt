-- ===== src/Field.antt =====
-- The field of the generic code (`ark_ff::PrimeField`), which is not part of the repository: its
-- operations, and the laws of a field that the proofs use.
pub mod Modular
use zk_prompt.Base.{ℕ, ◌+◌, ◌^◌, ◌≤◌, ◌<◌, ◌≡◌, ◌↔◌, Bool, true, ap, ◌∙◌, sym}

pub record PrimeField : Type 1 where
  pub F : Type 0
  pub zero : F
  pub one : F
  pub add : F → F → F
  pub mul : F → F → F
  -- `==`
  pub eq : F → F → Bool
  -- `double_in_place`
  pub double : F → F
  -- The element that a decimal numeral names (`MontFp!`).
  pub of_nat : ℕ → F
  pub eq_iff : (x y : F) → (eq x y ≡ true) ↔ (x ≡ y)
  pub add_comm : (x y : F) → add x y ≡ add y x
  pub add_assoc : (x y z : F) → add (add x y) z ≡ add x (add y z)
  pub zero-add : (x : F) → add zero x ≡ x
  pub add_cancel : (x y z : F) → add x y ≡ add x z → y ≡ z
  pub double_lem : (x : F) → double x ≡ add x x
  pub of_nat-zero : of_nat 0 ≡ zero
  pub of_nat-one : of_nat 1 ≡ one
  pub of_nat-add : (m n : ℕ) → of_nat (m + n) ≡ add (of_nat m) (of_nat n)
  -- The order of the field; a number below it is one element.
  pub modulus : ℕ
  pub of_nat-injective : (m n : ℕ) → m < modulus → n < modulus → of_nat m ≡ of_nat n → m ≡ n
  -- 250 bits fit (`Fr` has 254).
  pub wide : 2 ^ 250 ≤ modulus

module _ (f : PrimeField) where
  open f use {F, zero, add}

  pub add-zero : (x : F) → add x zero ≡ x
  add-zero x = f.add_comm x zero ∙ f.zero-add x

  pub add_cancel_right : (x y z : F) → add y x ≡ add z x → y ≡ z
  add_cancel_right x y z e = f.add_cancel x y z (f.add_comm x y ∙ e ∙ f.add_comm z x)
