-- ===== src/Base/Partial.antt =====
-- Code that may panic: `none` is a panic (an index or a slice out of range, a failed `assert!`,
-- an `unwrap` of an error).
use Prim.Native.Nat.add
use native.Mathlib.Nat.{zero-add}
use native.Mathlib.Omega.{arith}
use Prim.Native.Nat.{ℕ, zero, suc, ◌+◌, ◌-◌, ◌≤◌}
use mathlib.Core.Path.{◌≡◌, refl, ◌∙◌}
use mathlib.Core.Bool.{Bool, true, false, ◌&&◌}
use mathlib.Core.List.{List, [], ◌∷◌}
use mathlib.Core.Option.{Option, none, some}
use mathlib.Core.Logic.{inl, inr}
use zk_prompt.Base.Tests.{Bool-cases, leb, le→leb, if◌then◌else◌}
use zk_prompt.Base.Lists.{length, take, drop, get_elem?}

infixl 5 ◌>>=◌ ◌>>◌
abbrev pub ◌>>=◌ {ℓ κ} : {A : Type ℓ} {B : Type κ} → Option A → (A → Option B) → Option B
none >>= f = none
some a >>= f = f a

abbrev pub ◌>>◌ {ℓ} : {B : Type ℓ} → Option (Unit {0}) → Option B → Option B
m >> k = m >>= λ _. k

-- `assert!(test)`
abbrev pub assert : Bool → Option (Unit {0})
assert true = some tt
assert false = none

pub >>=-eq-some {ℓ κ} :
    {A : Type ℓ} {B : Type κ} (m : Option A) (f : A → Option B) {b : B}
    → (m >>= f) ≡ some b
    → (a : A) × (m ≡ some a) × (f a ≡ some b)
>>=-eq-some (some a) f h = (a, refl, h)
>>=-eq-some none f h = cc

module _ {ℓ} {A : Type ℓ} where
  -- `&xs[a..b]`
  abbrev pub slice : ℕ → ℕ → List A → Option (List A)
  slice a b xs = if leb a b && leb b (length xs) then some (take (b - a) (drop a xs)) else none

  pub slice-eq-some :
      (a b : ℕ) (xs : List A)
      → a ≤ b
      → b ≤ length xs
      → slice a b xs ≡ some (take (b - a) (drop a xs))
  slice-eq-some a b xs h k = rw (le→leb a b h, le→leb b (length xs) k)

  pub slice_inv :
      (a b : ℕ) (xs : List A) {r : List A}
      → slice a b xs ≡ some r
      → (b ≤ length xs) × (r ≡ take (b - a) (drop a xs))
  slice_inv a b xs h = elim (Bool-cases (leb a b && leb b (length xs))) [
    | inl inside ↦ let e = rw inside at h in (ground arith, cc (e))
    | inr outside ↦ let e = rw outside at h in cc (e)
  ]

  -- `&xs[..b]`
  pub slice-zero : (b : ℕ) (xs : List A) → b ≤ length xs → slice 0 b xs ≡ some (take b xs)
  slice-zero b xs h = let e : b - 0 ≡ b = omega arith in slice-eq-some 0 b xs (omega arith) h ∙ rw e

  pub get_elem?-drop : (i k : ℕ) (xs : List A) → get_elem? xs (i + k) ≡ get_elem? (drop i xs) k
  get_elem?-drop zero k xs = rw zero-add
  get_elem?-drop (suc i) k [] = refl
  get_elem?-drop (suc i) k (x ∷ xs) = rw add.suc (get_elem?-drop i k xs)
