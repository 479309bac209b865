-- ===== src/Base/Utf8.antt =====
-- `str::from_utf8`: the decoder reads one byte at a time.
use Prim.Native.Nat.{ℕ, zero, suc, ◌+◌, ◌-◌, ◌*◌, ◌/◌, ◌%◌, ◌≤◌, ◌<◌}
use mathlib.Core.Path.{◌≡◌, refl, ap, ◌∙◌}
use mathlib.Core.Logic.{◌⊎◌}
use mathlib.Core.Bool.{◌&&◌}
use mathlib.Core.List.{List, [], ◌∷◌, ◌++◌}
use mathlib.Core.Option.{Option, none, some}
use native.Mathlib.Omega.{arith}
use zk_prompt.Base.Tests.{ltb, leb, ◌==◌, if◌then◌else◌}
use zk_prompt.Base.Text.{Str, encode_char, into_bytes}

abbrev pub cons_some : ℕ → Option Str → Option Str
cons_some c none = none
cons_some c (some s) = some (c ∷ s)

-- The decoder's state: how many bytes the character still needs, its bits so far, and the range of
-- the next byte.
unfoldable pub utf8_loop : List ℕ → ℕ → ℕ → ℕ → ℕ → Option Str
utf8_loop [] zero bits lowest highest = some []
utf8_loop [] (suc needed) bits lowest highest = none
utf8_loop (b ∷ s) zero bits lowest highest =
    let next = utf8_loop s in
    if ltb b 0x80
    then cons_some b (next 0 0 0x80 0xbf)
    else if leb 0xc2 b && leb b 0xdf
    then next 1 (b - 0xc0) 0x80 0xbf
    else if leb 0xe0 b && leb b 0xef
    then next 2 (b - 0xe0) (if b == 0xe0 then 0xa0 else 0x80) (if b == 0xed then 0x9f else 0xbf)
    else if leb 0xf0 b && leb b 0xf4
    then next 3 (b - 0xf0) (if b == 0xf0 then 0x90 else 0x80) (if b == 0xf4 then 0x8f else 0xbf)
    else none
utf8_loop (b ∷ s) (suc zero) bits lowest highest =
    let last = cons_some (bits * 64 + (b - 0x80)) (utf8_loop s 0 0 0x80 0xbf) in
    if leb lowest b && leb b highest then last else none
utf8_loop (b ∷ s) (suc (suc needed)) bits lowest highest =
    let more = utf8_loop s (suc needed) (bits * 64 + (b - 0x80)) 0x80 0xbf in
    if leb lowest b && leb b highest then more else none

unfoldable pub from_utf8 : List ℕ → Option Str
unfolding utf8_loop
from_utf8 bytes = utf8_loop bytes 0 0 0x80 0xbf

-- A Unicode scalar value, which is what a `char` holds.
abbrev pub IsScalar : ℕ → Type 0
IsScalar c = (c < 0xd800) ⊎ ((0xe000 ≤ c) × (c < 0x110000))

abbrev pub AllScalar : Str → Type 0
AllScalar [] = Unit {0}
AllScalar (c ∷ s) = IsScalar c × AllScalar s

pub AllScalar-append : (s t : Str) → AllScalar s → AllScalar t → AllScalar (s ++ t)
AllScalar-append [] t h k = k
AllScalar-append (c ∷ s) t h k = (h.0, AllScalar-append s t h.1 k)

decode_one :
    (c : ℕ) (rest : List ℕ)
    → c < 0x80
    → utf8_loop (encode_char c ++ rest) 0 0 0x80 0xbf ≡ cons_some c (utf8_loop rest 0 0 0x80 0xbf)
unfolding utf8_loop encode_char
decode_one c rest h = ground arith

decode_two :
    (c : ℕ) (rest : List ℕ)
    → 0x80 ≤ c
    → c < 0x800
    → utf8_loop (encode_char c ++ rest) 0 0 0x80 0xbf ≡ cons_some c (utf8_loop rest 0 0 0x80 0xbf)
unfolding utf8_loop encode_char
decode_two c rest h k = ground arith

decode_three :
    (c : ℕ) (rest : List ℕ)
    → 0x800 ≤ c
    → c < 0x10000
    → IsScalar c
    → utf8_loop (encode_char c ++ rest) 0 0 0x80 0xbf ≡ cons_some c (utf8_loop rest 0 0 0x80 0xbf)
unfolding utf8_loop encode_char
decode_three c rest h k v = ground arith

lead_four :
    (q : ℕ) (s : List ℕ)
    → q < 5
    → utf8_loop ((0xf0 + q) ∷ s) 0 0 0x80 0xbf
      ≡ utf8_loop s 3 q (if q == 0 then 0x90 else 0x80) (if q == 4 then 0x8f else 0xbf)
unfolding utf8_loop
lead_four zero s h = refl
lead_four (suc zero) s h = refl
lead_four (suc (suc zero)) s h = refl
lead_four (suc (suc (suc zero))) s h = refl
lead_four (suc (suc (suc (suc zero)))) s h = refl
lead_four (suc (suc (suc (suc (suc q))))) s h = absurd (omega arith)

middle :
    (b : ℕ) (s : List ℕ) (needed bits lowest highest : ℕ)
    → lowest ≤ b
    → b ≤ highest
    → utf8_loop (b ∷ s) (suc (suc needed)) bits lowest highest
      ≡ utf8_loop s (suc needed) (bits * 64 + (b - 0x80)) 0x80 0xbf
unfolding utf8_loop
middle b s needed bits lowest highest h k = ground arith

last_byte :
    (b c : ℕ) (s : List ℕ) (bits : ℕ)
    → 0x80 ≤ b
    → b ≤ 0xbf
    → bits * 64 + (b - 0x80) ≡ c
    → utf8_loop (b ∷ s) 1 bits 0x80 0xbf ≡ cons_some c (utf8_loop s 0 0 0x80 0xbf)
unfolding utf8_loop
last_byte b c s bits h k e = ground arith

four_bytes :
    (c : ℕ)
    → 0x10000 ≤ c
    → encode_char c
      ≡ (0xf0 + c / 262144) ∷ (0x80 + c / 4096 % 64) ∷ (0x80 + c / 64 % 64) ∷ (0x80 + c % 64) ∷ []
unfolding encode_char
four_bytes c h = ground arith

decode_four :
    (c : ℕ) (rest : List ℕ)
    → 0x10000 ≤ c
    → c < 0x110000
    → utf8_loop (encode_char c ++ rest) 0 0 0x80 0xbf ≡ cons_some c (utf8_loop rest 0 0 0x80 0xbf)
decode_four c rest h k =
    let q : ℕ = c / 262144 in
    ap (λ (l : List ℕ). utf8_loop (l ++ rest) 0 0 0x80 0xbf) (four_bytes c h)
    ∙ lead_four q _ (omega arith)
    ∙ middle (0x80 + c / 4096 % 64) _ 1 q (if q == 0 then 0x90 else 0x80)
        (if q == 4 then 0x8f else 0xbf) (ground arith) (ground arith)
    ∙ middle (0x80 + c / 64 % 64) _ 0 _ 0x80 0xbf (omega arith) (omega arith)
    ∙ last_byte (0x80 + c % 64) c rest _ (omega arith) (omega arith) (omega arith)

decode_char :
    (c : ℕ) (rest : List ℕ)
    → IsScalar c
    → utf8_loop (encode_char c ++ rest) 0 0 0x80 0xbf ≡ cons_some c (utf8_loop rest 0 0 0x80 0xbf)
decode_char c rest v =
    ground (arith, decode_one c rest, decode_two c rest, decode_three c rest, decode_four c rest)

-- Text read back from its bytes.
pub from_utf8-into_bytes : (s : Str) → AllScalar s → from_utf8 (into_bytes s) ≡ some s
unfolding from_utf8 into_bytes
from_utf8-into_bytes [] h = unfold utf8_loop in refl
from_utf8-into_bytes (c ∷ s) h =
    decode_char c (into_bytes s) h.0 ∙ ap (cons_some c) (from_utf8-into_bytes s h.1)
