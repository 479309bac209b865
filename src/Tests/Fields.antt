-- ===== src/Tests/Fields.antt =====
-- What the tests call of the field's library (ark_ff) beside the field.
use zk_prompt.Base.{ℕ, ◌+◌, ◌*◌, ◌≡◌, ◌↔◌, Bool, true, [], ◌∷◌, Bytes, AllBytes}
use zk_prompt.Field.{PrimeField}

-- The number whose bytes, from the lowest up, these are.
abbrev pub le_number : Bytes → ℕ
le_number [] = 0
le_number (b ∷ bs) = b + 256 * le_number bs

-- `==` of the field's elements, and `from_le_bytes_mod_order`.
pub record FieldTests (f : PrimeField) : Type 0 where
  pub eq : f.F → f.F → Bool
  pub from_le_bytes_mod_order : Bytes → f.F
  pub eq_iff : (x y : f.F) → (eq x y ≡ true) ↔ (x ≡ y)
  pub from_le_bytes_mod_order_lem :
      (bs : Bytes) → AllBytes bs → from_le_bytes_mod_order bs ≡ f.of_nat (le_number bs)
