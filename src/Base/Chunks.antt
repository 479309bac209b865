-- ===== src/Base/Chunks.antt =====
-- `slice::chunks`.
use Prim.Native.Nat.{ℕ, zero, suc, ◌≤◌, ◌<◌}
use mathlib.Core.Path.{◌≡◌, refl, ap, ap₂, sym, ◌∙◌}
use mathlib.Core.List.{List, [], ◌∷◌, map}
use mathlib.Core.Option.{Option, none, some}
use native.Mathlib.Omega.{arith}
use zk_prompt.Base.Tests.{◌==◌, if◌then◌else◌}
use zk_prompt.Base.Lists.{length, take, drop, length-take, map-take, map-drop, take_all, drop_all}

-- `slice::chunks(n)`, which panics at `n == 0`. The fuel is the number of elements: a chunk takes
-- one at least.
unfoldable pub chunks_loop {ℓ} : {A : Type ℓ} → ℕ → ℕ → List A → List (List A)
chunks_loop zero n xs = []
chunks_loop (suc fuel) n [] = []
chunks_loop (suc fuel) n (x ∷ xs) = take n (x ∷ xs) ∷ chunks_loop fuel n (drop n (x ∷ xs))

unfoldable pub chunks {ℓ} : {A : Type ℓ} → ℕ → List A → Option (List (List A))
unfolding chunks_loop
chunks n xs = if n == 0 then none else some (chunks_loop (length xs) n xs)

module _ {ℓ κ} {A : Type ℓ} {B : Type κ} (f : A → B) where
  pub chunks_loop-map :
      (fuel n : ℕ) (xs : List A)
      → chunks_loop fuel n (map f xs) ≡ map (map f) (chunks_loop fuel n xs)
  unfolding chunks_loop
  chunks_loop-map zero n xs = refl
  chunks_loop-map (suc fuel) n [] = refl
  chunks_loop-map (suc fuel) n (x ∷ xs) = ap₂ ◌∷◌ (sym (map-take f n (x ∷ xs))) (
      ap (chunks_loop fuel n) (sym (map-drop f n (x ∷ xs)))
      ∙ chunks_loop-map fuel n (drop n (x ∷ xs)))

-- Every chunk has at most `n` elements.
abbrev pub AllShort {ℓ} : {A : Type ℓ} → ℕ → List (List A) → Type 0
AllShort n [] = Unit {0}
AllShort n (c ∷ cs) = (length c ≤ n) × AllShort n cs

module _ {ℓ} {A : Type ℓ} where
  pub chunks_loop-AllShort : (fuel n : ℕ) (xs : List A) → AllShort n (chunks_loop fuel n xs)
  unfolding chunks_loop
  chunks_loop-AllShort zero n xs = tt
  chunks_loop-AllShort (suc fuel) n [] = tt
  chunks_loop-AllShort (suc fuel) n (x ∷ xs) =
      (omega (arith, length-take n (x ∷ xs)), chunks_loop-AllShort fuel n (drop n (x ∷ xs)))

  pub chunks_loop-nil : (fuel n : ℕ) → chunks_loop {A = A} fuel n [] ≡ []
  unfolding chunks_loop
  chunks_loop-nil zero n = refl
  chunks_loop-nil (suc fuel) n = refl

  pub chunks_loop-step :
      (fuel n : ℕ) (xs : List A)
      → 0 < length xs
      → chunks_loop (suc fuel) n xs ≡ take n xs ∷ chunks_loop fuel n (drop n xs)
  unfolding chunks_loop
  chunks_loop-step fuel n [] h = absurd (omega arith)
  chunks_loop-step fuel n (x ∷ xs) h = refl

  -- One chunk is enough for a short list.
  pub chunks_loop_one :
      (fuel n : ℕ) (x : A) (xs : List A)
      → length (x ∷ xs) ≤ n
      → chunks_loop (suc fuel) n (x ∷ xs) ≡ (x ∷ xs) ∷ []
  unfolding chunks_loop
  chunks_loop_one fuel n x xs h = ap₂ ◌∷◌ (take_all n (x ∷ xs) h) (rest fuel)
    where
      rest : (k : ℕ) → chunks_loop k n (drop n (x ∷ xs)) ≡ []
      rest zero = refl
      rest (suc k) = ap (chunks_loop (suc k) n) (drop_all n (x ∷ xs) h)
