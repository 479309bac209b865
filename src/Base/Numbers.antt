-- ===== src/Base/Numbers.antt =====
-- `str::parse` for an unsigned integer, and what it reads of a decimal.
use Prim.Native.Nat.{ℕ, zero, suc, ◌+◌, ◌-◌, ◌*◌, ◌/◌, ◌%◌, ◌≤◌, ◌<◌}
use mathlib.Core.Path.{◌≡◌, refl, ap, ◌∙◌}
use mathlib.Core.Bool.{true, false, ◌&&◌}
use mathlib.Core.List.{[], ◌∷◌}
use mathlib.Core.Logic.{inl, inr}
use mathlib.Core.Option.{Option, none, some}
use native.Mathlib.Omega.{arith}
use zk_prompt.Base.Tests.{leb, ltb, ◌==◌, if◌then◌else◌, Bool-cases}
use zk_prompt.Base.Text.{Str, digits_loop, decimal}

-- The digits, with the value read so far; a value that reaches the bound is an overflow.
unfoldable pub parse_digits : ℕ → ℕ → Str → Option ℕ
parse_digits bound value [] = some value
parse_digits bound value (c ∷ s) =
    let next = value * 10 + (c - b'0') in
    let rest = parse_digits bound next s in
    if leb b'0' c && leb c b'9' && ltb next bound then rest else none

-- A sign may stand in front of digits.
unfoldable pub parse_unsigned : ℕ → Str → Option ℕ
parse_unsigned bound [] = none
parse_unsigned bound (c ∷ []) = parse_digits bound 0 (c ∷ [])
parse_unsigned bound (c ∷ d ∷ s) =
    if c == b'+' then parse_digits bound 0 (d ∷ s) else parse_digits bound 0 (c ∷ d ∷ s)

parse_digits-digit :
    (bound value d : ℕ) (s : Str)
    → d < 10
    → value * 10 + d < bound
    → parse_digits bound value ((b'0' + d) ∷ s) ≡ parse_digits bound (value * 10 + d) s
unfolding parse_digits
parse_digits-digit bound value d s h k =
    let e : b'0' + d - b'0' ≡ d = omega arith in
    let lower : leb b'0' (b'0' + d) ≡ true = ground arith in
    let upper : leb (b'0' + d) b'9' ≡ true = ground arith in
    let fits : ltb (value * 10 + d) bound ≡ true = ground (arith, k) in
    rw (e, lower, upper, fits) refl

parse_digits-digits_loop :
    (bound fuel n : ℕ) (s : Str)
    → n ≤ fuel
    → n < bound
    → parse_digits bound 0 (digits_loop fuel n s) ≡ parse_digits bound n s
unfolding digits_loop
parse_digits-digits_loop bound zero n s h k =
    let z : 0 * 10 + n % 10 ≡ n = omega arith in
    parse_digits-digit bound 0 (n % 10) s (omega arith) (omega (arith, z, k))
    ∙ ap (λ (v : ℕ). parse_digits bound v s) z
parse_digits-digits_loop bound (suc fuel) n s h k = elim (Bool-cases (n / 10 == 0)) [
  | inl last ↦
      let z : 0 * 10 + n % 10 ≡ n = ground (arith, last) in
      rw last (
        parse_digits-digit bound 0 (n % 10) s (omega arith) (omega (arith, z, k))
        ∙ ap (λ (v : ℕ). parse_digits bound v s) z)
  | inr more ↦
      let z : n / 10 * 10 + n % 10 ≡ n = omega arith in
      rw more (
        parse_digits-digits_loop bound fuel (n / 10) ((b'0' + n % 10) ∷ s) (ground (arith, more, h))
          (omega (arith, k))
        ∙ parse_digits-digit bound (n / 10) (n % 10) s (omega arith) (omega (arith, z, k))
        ∙ ap (λ (v : ℕ). parse_digits bound v s) z)
]

-- The text begins with a character that is not a plus sign.
abbrev Unsigned : Str → Type 0
Unsigned [] = ⊥
Unsigned (c ∷ s) = (c == b'+') ≡ false

digits_loop-Unsigned : (fuel n : ℕ) (s : Str) → Unsigned (digits_loop fuel n s)
unfolding digits_loop
digits_loop-Unsigned zero n s = ground arith
digits_loop-Unsigned (suc fuel) n s = elim (Bool-cases (n / 10 == 0)) [
  | inl last ↦ rw last (ground arith)
  | inr more ↦ rw more (digits_loop-Unsigned fuel (n / 10) ((b'0' + n % 10) ∷ s))
]

parse_unsigned-digits :
    (bound : ℕ) (s : Str) → Unsigned s → parse_unsigned bound s ≡ parse_digits bound 0 s
unfolding parse_unsigned
parse_unsigned-digits bound [] h = absurd h
parse_unsigned-digits bound (c ∷ []) h = refl
parse_unsigned-digits bound (c ∷ d ∷ s) h = rw h refl

-- A number below the bound is read back from its decimal.
pub parse_unsigned-decimal : (bound n : ℕ) → n < bound → parse_unsigned bound (decimal n) ≡ some n
unfolding decimal parse_digits
parse_unsigned-decimal bound n h =
    parse_unsigned-digits bound (digits_loop n n []) (digits_loop-Unsigned n n [])
    ∙ parse_digits-digits_loop bound n n [] (omega arith) h
