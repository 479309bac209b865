-- ===== src/Base/Words.antt =====
-- The methods of `str` that the source uses: case, trimming, splitting.
use Prim.Native.Nat.{ℕ, ◌+◌, ◌<◌}
use mathlib.Core.Path.{◌≡◌, refl, ap, sym, ◌∙◌}
use mathlib.Core.Bool.{Bool, true, false, ◌&&◌, ◌||◌}
use mathlib.Core.List.{List, [], ◌∷◌, ◌++◌, map, append_assoc, append-nil}
use mathlib.Core.Option.{Option, none, some}
use native.Mathlib.Omega.{arith}
use zk_prompt.Base.Tests.{leb, ◌==◌, if◌then◌else◌}
use zk_prompt.Base.Lists.{length, length-append}
use zk_prompt.Base.Text.{Str}

unfoldable pub to_ascii_lowercase : ℕ → ℕ
to_ascii_lowercase c = if leb b'A' c && leb c b'Z' then c + 32 else c

unfoldable pub lowercase : Str → Str
unfolding to_ascii_lowercase
lowercase s = map to_ascii_lowercase s

unfoldable pub eq_ignore_ascii_case : Str → Str → Bool
unfolding to_ascii_lowercase
eq_ignore_ascii_case [] [] = true
eq_ignore_ascii_case [] (y ∷ ys) = false
eq_ignore_ascii_case (x ∷ xs) [] = false
eq_ignore_ascii_case (x ∷ xs) (y ∷ ys) =
    to_ascii_lowercase x == to_ascii_lowercase y && eq_ignore_ascii_case xs ys

-- `char::is_whitespace`
unfoldable pub is_whitespace : ℕ → Bool
is_whitespace c =
    (leb 9 c && leb c 13)
    || c == 0x20
    || c == 0x85
    || c == 0xa0
    || c == 0x1680
    || (leb 0x2000 c && leb c 0x200a)
    || c == 0x2028
    || c == 0x2029
    || c == 0x202f
    || c == 0x205f
    || c == 0x3000

unfoldable pub trim_start : Str → Str
unfolding is_whitespace
trim_start [] = []
trim_start (c ∷ s) = let rest = trim_start s in if is_whitespace c then rest else c ∷ s

-- A character in front of trimmed text.
unfoldable pub keep_front : ℕ → Str → Str
unfolding is_whitespace
keep_front c [] = if is_whitespace c then [] else c ∷ []
keep_front c (d ∷ s) = c ∷ d ∷ s

unfoldable pub trim_end : Str → Str
unfolding keep_front
trim_end [] = []
trim_end (c ∷ s) = keep_front c (trim_end s)

unfoldable pub trim : Str → Str
unfolding trim_start trim_end
trim s = trim_end (trim_start s)

-- `strip_prefix`
unfoldable pub strip_prefix : Str → Str → Option Str
strip_prefix [] s = some s
strip_prefix (p ∷ ps) [] = none
strip_prefix (p ∷ ps) (c ∷ s) = let rest = strip_prefix ps s in if p == c then rest else none

abbrev pub on_first : ℕ → Option (Str × Str) → Option (Str × Str)
on_first c none = none
on_first c (some (a, b)) = some (c ∷ a, b)

-- `split_once` at a character
unfoldable pub split_once : ℕ → Str → Option (Str × Str)
split_once at [] = none
split_once at (c ∷ s) =
    let later = on_first c (split_once at s) in if c == at then some ([], s) else later

-- A character in front of the first piece.
abbrev pub on_head : ℕ → List Str → List Str
on_head c [] = (c ∷ []) ∷ []
on_head c (p ∷ ps) = (c ∷ p) ∷ ps

-- `split("\r\n")`
unfoldable pub split_crlf : Str → List Str
split_crlf [] = [] ∷ []
split_crlf (c ∷ []) = (c ∷ []) ∷ []
split_crlf (c ∷ d ∷ s) =
    let after = [] ∷ split_crlf s in
    let more = on_head c (split_crlf (d ∷ s)) in if c == 13 && d == 10 then after else more

abbrev pub flush : Str → List Str → List Str
flush [] words = words
flush (c ∷ s) words = (c ∷ s) ∷ words

-- `split_whitespace`, with the word read so far
unfoldable pub words_loop : Str → Str → List Str
unfolding is_whitespace
words_loop [] word = flush word []
words_loop (c ∷ s) word =
    let between = flush word (words_loop s []) in
    let within = words_loop s (word ++ c ∷ []) in if is_whitespace c then between else within

unfoldable pub split_whitespace : Str → List Str
unfolding words_loop
split_whitespace s = words_loop s []

-- Text without a carriage return, and without whitespace.
abbrev pub NoCr : Str → Type 0
NoCr [] = Unit {0}
NoCr (c ∷ s) = ((c == 13) ≡ false) × NoCr s

abbrev pub NoSpace : Str → Type 0
NoSpace [] = Unit {0}
NoSpace (c ∷ s) = (is_whitespace c ≡ false) × NoSpace s

pub NoCr-append : (s t : Str) → NoCr s → NoCr t → NoCr (s ++ t)
NoCr-append [] t h k = k
NoCr-append (c ∷ s) t h k = (h.0, NoCr-append s t h.1 k)

pub split_crlf-line : (l s : Str) → NoCr l → split_crlf (l ++ (13 ∷ 10 ∷ s)) ≡ l ∷ split_crlf s
unfolding split_crlf
split_crlf-line [] s h = refl
split_crlf-line (c ∷ []) s h = rw h.0
split_crlf-line (c ∷ d ∷ l) s h = rw h.0 (ap (on_head c) (split_crlf-line (d ∷ l) s h.1))

pub split_crlf-last : (l : Str) → NoCr l → split_crlf l ≡ l ∷ []
unfolding split_crlf
split_crlf-last [] h = refl
split_crlf-last (c ∷ []) h = refl
split_crlf-last (c ∷ d ∷ l) h = rw h.0 (ap (on_head c) (split_crlf-last (d ∷ l) h.1))

-- A word ends at a blank.
pub words_loop-word :
    (w s word : Str)
    → NoSpace w
    → words_loop (w ++ (32 ∷ s)) word ≡ flush (word ++ w) (words_loop s [])
unfolding words_loop
words_loop-word [] s word h = ap (λ (l : Str). flush l (words_loop s [])) (sym (append-nil word))
words_loop-word (c ∷ w) s word h = rw h.0 (
    words_loop-word w s (word ++ c ∷ []) h.1
    ∙ ap (λ (l : Str). flush l (words_loop s [])) (append_assoc word (c ∷ []) w))

keep_front-ne : (c : ℕ) (s : Str) → 0 < length s → keep_front c s ≡ c ∷ s
unfolding keep_front
keep_front-ne c [] h = absurd (omega arith)
keep_front-ne c (d ∷ s) h = refl

-- The end of a text that does not end in whitespace stays.
pub trim_end-append : (s t : Str) → 0 < length t → trim_end t ≡ t → trim_end (s ++ t) ≡ s ++ t
unfolding trim_end
trim_end-append [] t h e = e
trim_end-append (c ∷ s) t h e =
    ap (keep_front c) (trim_end-append s t h e)
    ∙ keep_front-ne c (s ++ t) (omega (arith, length-append s t))

pub flush-some : (w : Str) (ws : List Str) → 0 < length w → flush w ws ≡ w ∷ ws
flush-some [] ws h = absurd (omega arith)
flush-some (c ∷ w) ws h = refl
