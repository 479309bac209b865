-- ===== src/Openai/Config.antt =====
-- prover/src/openai/wire.rs: `RequestConfig` and its template of header sections.
use zk_prompt.Base.{
  ℕ, ◌+◌, ◌≡◌, refl, List, [], ◌∷◌, ◌++◌, Bytes, length, length-append, arith, AllBytes,
}
use zk_prompt.Base.Text.{
  Str, codes, into_bytes, decimal, AllChars, AllChars-append, into_bytes-AllBytes, decimal-AllChars,
}

-- `content_length` is a `usize`, here any number: its range is a hypothesis where it matters.
pub record RequestConfig : Type 0 where
  pub host : Str
  pub basepath : Str
  pub api_key : Str
  pub content_length : ℕ

-- The sections one after another.
abbrev pub joined_sections : List Bytes → Bytes
joined_sections [] = []
joined_sections (s ∷ ss) = s ++ joined_sections ss

unfoldable pub sum_lengths : List Bytes → ℕ
sum_lengths [] = 0
sum_lengths (s ∷ ss) = length s + sum_lengths ss

module _ (c : RequestConfig) where
  unfoldable pub req_line : Bytes
  unfolding into_bytes
  req_line = into_bytes (codes "POST " ++ (c.basepath ++ codes " HTTP/1.1\r\n"))

  unfoldable pub host_header : Bytes
  unfolding into_bytes
  host_header = into_bytes (codes "Host: " ++ (c.host ++ codes "\r\n"))

  unfoldable pub authorization_header : Bytes
  unfolding into_bytes
  authorization_header = into_bytes (codes "authorization: Bearer " ++ (c.api_key ++ codes "\r\n"))

  unfoldable pub content_type_header : Bytes
  content_type_header = codes "content-type: application/json\r\n"

  unfoldable pub content_length_header : Bytes
  unfolding into_bytes decimal
  content_length_header =
      into_bytes (codes "Content-Length: " ++ (decimal c.content_length ++ codes "\r\n"))

  unfoldable pub connection_header : Bytes
  connection_header = codes "Connection: close\r\n"

  unfoldable pub header_sections : List Bytes
  unfolding req_line host_header authorization_header content_type_header content_length_header
      connection_header
  header_sections =
      req_line ∷ host_header ∷ authorization_header ∷ content_type_header ∷ content_length_header
      ∷ connection_header ∷ []

  unfoldable pub body_start : ℕ
  unfolding header_sections sum_lengths
  body_start = sum_lengths header_sections + 2

pub sum_lengths-joined : (ss : List Bytes) → sum_lengths ss ≡ length (joined_sections ss)
unfolding sum_lengths
sum_lengths-joined [] = refl
sum_lengths-joined (s ∷ ss) =
    omega (arith, length-append s (joined_sections ss), sum_lengths-joined ss)

-- The header block of the template: all that stands before the empty line.
abbrev pub template : RequestConfig → Bytes
template c = joined_sections (header_sections c)

-- The body starts two bytes after the header block.
pub body_start-template : (c : RequestConfig) → body_start c ≡ length (template c) + 2
unfolding body_start
body_start-template c = omega (arith, sum_lengths-joined (header_sections c))

-- The texts of a configuration are made of `char`s.
pub record IsText (c : RequestConfig) : Type 0 where
  pub host_chars : AllChars c.host
  pub basepath_chars : AllChars c.basepath
  pub api_key_chars : AllChars c.api_key

abbrev pub AllSections : List Bytes → Type 0
AllSections [] = Unit {0}
AllSections (s ∷ ss) = AllBytes s × AllSections ss

framed :
    (a b d : Str) → AllChars a → AllChars b → AllChars d → AllBytes (into_bytes (a ++ (b ++ d)))
framed a b d ha hb hd =
    into_bytes-AllBytes _ (AllChars-append a (b ++ d) ha (AllChars-append b d hb hd))

pub header_sections-AllSections : (c : RequestConfig) → IsText c → AllSections (header_sections c)
unfolding header_sections
header_sections-AllSections c h = (
  framed (codes "POST ") c.basepath (codes " HTTP/1.1\r\n") (omega arith) h.basepath_chars
      (omega arith),
  (
    framed (codes "Host: ") c.host (codes "\r\n") (omega arith) h.host_chars (omega arith),
    (
      framed (codes "authorization: Bearer ") c.api_key (codes "\r\n") (omega arith) h.api_key_chars
          (omega arith),
      (
        omega arith,
        (
          framed (codes "Content-Length: ") (decimal c.content_length) (codes "\r\n") (omega arith)
              (decimal-AllChars c.content_length) (omega arith),
          (omega arith, tt),
        ),
      ),
    ),
  ),
)
