-- ===== src/Base/Text.antt =====
-- Text as a list of code points (`str`), its UTF-8 bytes (`into_bytes`), and decimals (`format!`).
use Prim.Native.Nat.{ℕ, zero, suc, ◌+◌, ◌/◌, ◌%◌, ◌<◌}
use Prim.Native.Char.{code}
use Prim.Native.String.{String}
use mathlib.Core.Path.{◌≡◌, refl, ap, ap₂, sym, ◌∙◌}
use mathlib.Core.Logic.{◌↔◌}
use mathlib.Core.Bool.{Bool, true, false, ◌&&◌}
use mathlib.Core.List.{List, [], ◌∷◌, ◌++◌, append_assoc}
use native.Mathlib.Omega.{arith}
use zk_prompt.Base.Lists.{AllBytes, AllBytes-append}
use zk_prompt.Base.Tests.{ltb, ◌==◌, if◌then◌else◌, ==_iff, &&-true}

abbrev pub Str : Type 0
Str = List ℕ

-- The code points of a literal.
abbrev pub codes : String → Str
codes String.[] = []
codes (String.◌∷◌ c s) = code c ∷ codes s

-- The UTF-8 bytes of one code point.
unfoldable pub encode_char : ℕ → List ℕ
encode_char c =
    if ltb c 0x80
    then c ∷ []
    else if ltb c 0x800
    then (0xc0 + c / 64) ∷ (0x80 + c % 64) ∷ []
    else if ltb c 0x10000
    then (0xe0 + c / 4096) ∷ (0x80 + c / 64 % 64) ∷ (0x80 + c % 64) ∷ []
    else (0xf0 + c / 262144) ∷ (0x80 + c / 4096 % 64) ∷ (0x80 + c / 64 % 64) ∷ (0x80 + c % 64) ∷ []

-- `String::into_bytes`
unfoldable pub into_bytes : Str → List ℕ
unfolding encode_char
into_bytes [] = []
into_bytes (c ∷ s) = encode_char c ++ into_bytes s

pub into_bytes-append : (s t : Str) → into_bytes (s ++ t) ≡ into_bytes s ++ into_bytes t
unfolding into_bytes
into_bytes-append [] t = refl
into_bytes-append (c ∷ s) t =
    ap (◌++◌ (encode_char c)) (into_bytes-append s t)
    ∙ sym (append_assoc (encode_char c) (into_bytes s) (into_bytes t))

-- The decimal digits of a number, in front of what is there; the fuel is the number itself, which
-- has no more digits than that.
unfoldable pub digits_loop : ℕ → ℕ → Str → Str
digits_loop zero n s = (b'0' + n % 10) ∷ s
digits_loop (suc fuel) n s =
    let rest = digits_loop fuel (n / 10) ((b'0' + n % 10) ∷ s) in
    if n / 10 == 0 then (b'0' + n % 10) ∷ s else rest

-- `format!("{}", n)`
unfoldable pub decimal : ℕ → Str
unfolding digits_loop
decimal n = digits_loop n n []

unfoldable pub str_eq : Str → Str → Bool
str_eq [] [] = true
str_eq [] (y ∷ ys) = false
str_eq (x ∷ xs) [] = false
str_eq (x ∷ xs) (y ∷ ys) = x == y && str_eq xs ys

pub str_eq_iff : (s t : Str) → (str_eq s t ≡ true) ↔ (s ≡ t)
unfolding str_eq
str_eq_iff [] [] = (λ h. refl, λ h. refl)
str_eq_iff [] (y ∷ ys) = (λ h. cc, λ h. cc)
str_eq_iff (x ∷ xs) [] = (λ h. cc, λ h. cc)
str_eq_iff (x ∷ xs) (y ∷ ys) = (
  λ h.
      let both = (&&-true (x == y) (str_eq xs ys)).0 h in
      ap₂ ◌∷◌ ((==_iff x y).0 both.0) ((str_eq_iff xs ys).0 both.1),
  λ e.
      let heads : x ≡ y = cc in
      let tails : xs ≡ ys = cc in
      (&&-true (x == y) (str_eq xs ys)).1 ((==_iff x y).1 heads, (str_eq_iff xs ys).1 tails),
)

-- Every element is below the bound of a `char`.
abbrev pub AllChars : Str → Type 0
AllChars [] = Unit {0}
AllChars (c ∷ s) = (c < 0x110000) × AllChars s

pub AllChars-append : (s t : Str) → AllChars s → AllChars t → AllChars (s ++ t)
AllChars-append [] t h k = k
AllChars-append (c ∷ s) t h k = (h.0, AllChars-append s t h.1 k)

encode_char-AllBytes : (c : ℕ) → c < 0x110000 → AllBytes (encode_char c)
unfolding encode_char
encode_char-AllBytes c h = ground arith

pub into_bytes-AllBytes : (s : Str) → AllChars s → AllBytes (into_bytes s)
unfolding into_bytes
into_bytes-AllBytes [] h = tt
into_bytes-AllBytes (c ∷ s) h =
    AllBytes-append (encode_char c) (into_bytes s) (encode_char-AllBytes c h.0)
      (into_bytes-AllBytes s h.1)

digits_loop-AllChars : (fuel n : ℕ) (s : Str) → AllChars s → AllChars (digits_loop fuel n s)
unfolding digits_loop
digits_loop-AllChars zero n s h = (omega arith, h)
digits_loop-AllChars (suc fuel) n s h =
    ground (arith, digits_loop-AllChars fuel (n / 10) ((b'0' + n % 10) ∷ s) (omega arith, h))

pub decimal-AllChars : (n : ℕ) → AllChars (decimal n)
unfolding decimal
decimal-AllChars n = digits_loop-AllChars n n [] tt
