-- ===== src/Openai/Check/Lines.antt =====
-- The header template as lines of text: how `split_http`, `from_utf8` and `split("\r\n")` see it.
use zk_prompt.Base.{
  ℕ, zero, suc, ◌+◌, ◌/◌, ◌%◌, ◌<◌, ◌≡◌, inl, ap, ◌∙◌, false, some, List, [], ◌∷◌, ◌++◌, length,
  arith, ◌==◌,
}
use zk_prompt.Base.Text.{Str, codes, encode_char, into_bytes, decimal, digits_loop}
use zk_prompt.Base.Utf8.{AllScalar, AllScalar-append, from_utf8, from_utf8-into_bytes}
use zk_prompt.Base.Words.{
  is_whitespace, trim, trim_end, split_crlf, NoCr, NoSpace, NoCr-append, split_crlf-line,
  split_crlf-last,
}
use zk_prompt.Openai.Config.{RequestConfig}

-- A configuration whose texts survive the header syntax: no line break, no outer whitespace, a path
-- that is one word, and none of the path and the key empty.
pub record IsTidy (c : RequestConfig) : Type 0 where
  pub host_scalar : AllScalar c.host
  pub path_scalar : AllScalar c.basepath
  pub key_scalar : AllScalar c.api_key
  pub host_line : NoCr c.host
  pub host_trimmed : trim c.host ≡ c.host
  pub path_word : NoSpace c.basepath
  pub path_some : 0 < length c.basepath
  pub key_line : NoCr c.api_key
  pub key_trimmed : trim_end c.api_key ≡ c.api_key
  pub key_some : 0 < length c.api_key

module _ (c : RequestConfig) where
  abbrev pub request_line : Str
  request_line = codes "POST " ++ (c.basepath ++ codes " HTTP/1.1")

  abbrev pub host_text : Str
  host_text = codes "Host: " ++ c.host

  abbrev pub key_text : Str
  key_text = codes "authorization: Bearer " ++ c.api_key

  abbrev pub type_text : Str
  type_text = codes "content-type: application/json"

  abbrev pub length_text : Str
  length_text = codes "Content-Length: " ++ decimal c.content_length

  abbrev pub close_text : Str
  close_text = codes "Connection: close"

  abbrev pub later_lines : List Str
  later_lines = host_text ∷ key_text ∷ type_text ∷ length_text ∷ close_text ∷ []

-- Lines joined by line breaks.
abbrev pub join_lines : Str → List Str → Str
join_lines l [] = l
join_lines l (m ∷ ls) = l ++ (13 ∷ 10 ∷ join_lines m ls)

-- Every line has a character, and none that breaks it.
abbrev pub AllLines : List Str → Type 0
AllLines [] = Unit {0}
AllLines (l ∷ ls) = (0 < length l) × NoCr l × AllLines ls

pub split_crlf-join_lines :
    (l : Str) (ls : List Str) → NoCr l → AllLines ls → split_crlf (join_lines l ls) ≡ l ∷ ls
split_crlf-join_lines l [] h k = split_crlf-last l h
split_crlf-join_lines l (m ∷ ls) h k =
    split_crlf-line l (join_lines m ls) h ∙ ap (◌∷◌ l) (split_crlf-join_lines m ls k.1 k.2)

abbrev pub AllScalars : List Str → Type 0
AllScalars [] = Unit {0}
AllScalars (l ∷ ls) = AllScalar l × AllScalars ls

pub join_lines-AllScalar :
    (l : Str) (ls : List Str) → AllScalar l → AllScalars ls → AllScalar (join_lines l ls)
join_lines-AllScalar l [] h k = h
join_lines-AllScalar l (m ∷ ls) h k =
    AllScalar-append l (13 ∷ 10 ∷ join_lines m ls) h
      (inl (omega arith), (inl (omega arith), join_lines-AllScalar m ls k.0 k.1))

-- Digits.
digits_loop-NoCr : (fuel n : ℕ) (s : Str) → NoCr s → NoCr (digits_loop fuel n s)
unfolding digits_loop
digits_loop-NoCr zero n s h = (ground arith, h)
digits_loop-NoCr (suc fuel) n s h =
    ground (arith, digits_loop-NoCr fuel (n / 10) ((b'0' + n % 10) ∷ s) (ground arith, h))

pub decimal-NoCr : (n : ℕ) → NoCr (decimal n)
unfolding decimal
decimal-NoCr n = digits_loop-NoCr n n [] tt

digits_loop-AllScalar : (fuel n : ℕ) (s : Str) → AllScalar s → AllScalar (digits_loop fuel n s)
unfolding digits_loop
digits_loop-AllScalar zero n s h = (inl (omega arith), h)
digits_loop-AllScalar (suc fuel) n s h =
    ground (arith, digits_loop-AllScalar fuel (n / 10) ((b'0' + n % 10) ∷ s) (inl (omega arith), h))

pub decimal-AllScalar : (n : ℕ) → AllScalar (decimal n)
unfolding decimal
decimal-AllScalar n = digits_loop-AllScalar n n [] tt

NoSpace-NoCr : (s : Str) → NoSpace s → NoCr s
NoSpace-NoCr [] h = tt
NoSpace-NoCr (c ∷ s) h = (unfold is_whitespace in ground arith, NoSpace-NoCr s h.1)

-- The bytes of text have a carriage return where the text has one.
encode_char-NoCr : (c : ℕ) → (c == 13) ≡ false → NoCr (encode_char c)
unfolding encode_char
encode_char-NoCr c h = ground arith

pub into_bytes-NoCr : (s : Str) → NoCr s → NoCr (into_bytes s)
unfolding into_bytes
into_bytes-NoCr [] h = tt
into_bytes-NoCr (c ∷ s) h =
    NoCr-append (encode_char c) (into_bytes s) (encode_char-NoCr c h.0) (into_bytes-NoCr s h.1)

module _ (c : RequestConfig) (t : IsTidy c) where
  pub request_line-NoCr : NoCr (request_line c)
  request_line-NoCr = NoCr-append (codes "POST ") (c.basepath ++ codes " HTTP/1.1") (ground arith) (
      NoCr-append c.basepath (codes " HTTP/1.1") (NoSpace-NoCr c.basepath t.path_word)
        (ground arith))

  pub later_lines-AllLines : AllLines (later_lines c)
  later_lines-AllLines = (
    omega arith,
    NoCr-append (codes "Host: ") c.host (ground arith) t.host_line,
    (
      omega arith,
      NoCr-append (codes "authorization: Bearer ") c.api_key (ground arith) t.key_line,
      (
        omega arith,
        ground arith,
        (
          omega arith,
          NoCr-append (codes "Content-Length: ") (decimal c.content_length) (ground arith)
              (decimal-NoCr c.content_length),
          (omega arith, ground arith, tt),
        ),
      ),
    ),
  )

  pub split_crlf-header_text :
      split_crlf (join_lines (request_line c) (later_lines c)) ≡ request_line c ∷ later_lines c
  split_crlf-header_text =
      split_crlf-join_lines (request_line c) (later_lines c) request_line-NoCr later_lines-AllLines

  header_text-AllScalar : AllScalar (join_lines (request_line c) (later_lines c))
  header_text-AllScalar =
      join_lines-AllScalar (request_line c) (later_lines c)
        (AllScalar-append (codes "POST ") (c.basepath ++ codes " HTTP/1.1") (ground arith)
          (AllScalar-append c.basepath (codes " HTTP/1.1") t.path_scalar (ground arith)))
        (
          AllScalar-append (codes "Host: ") c.host (ground arith) t.host_scalar,
          (
            AllScalar-append (codes "authorization: Bearer ") c.api_key (ground arith) t.key_scalar,
            (
              ground arith,
              (
                AllScalar-append (codes "Content-Length: ") (decimal c.content_length)
                    (ground arith) (decimal-AllScalar c.content_length),
                (ground arith, tt),
              ),
            ),
          ),
        )

  pub from_utf8-header_text :
      from_utf8 (into_bytes (join_lines (request_line c) (later_lines c)))
      ≡ some (join_lines (request_line c) (later_lines c))
  from_utf8-header_text = from_utf8-into_bytes _ header_text-AllScalar
