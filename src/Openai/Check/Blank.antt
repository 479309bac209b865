-- ===== src/Openai/Check/Blank.antt =====
-- The header template as bytes: its lines, each with its end, without a blank line between them.
use zk_prompt.Base.{
  ℕ, ◌+◌, ◌<◌, ◌≡◌, refl, ap, sym, ◌∙◌, false, none, List, [], ◌∷◌, ◌++◌, map, Bytes, length, arith,
  append_assoc, append-nil, ◌==◌,
}
use zk_prompt.Base.Text.{Str, codes, encode_char, into_bytes, into_bytes-append, decimal}
use zk_prompt.Base.Words.{NoCr}
use zk_prompt.Openai.Config.{
  RequestConfig, req_line, host_header, authorization_header, content_type_header,
  content_length_header, connection_header, header_sections, joined_sections, template,
}
use zk_prompt.Openai.Wire.{http_body_sep, starts_with, position}
use zk_prompt.Openai.Wire.Split.{open_sep, NoBlankLine}
use zk_prompt.Openai.Check.Lines.{
  IsTidy, request_line, later_lines, join_lines, AllLines, into_bytes-NoCr, request_line-NoCr,
  later_lines-AllLines,
}

-- Bytes without a carriage return hold no start of the separator.
position-NoCr :
    (x s : Bytes) (i : ℕ)
    → NoCr x
    → ((j : ℕ) → position http_body_sep s j ≡ none)
    → position http_body_sep (x ++ s) i ≡ none
unfolding position starts_with
position-NoCr [] s i h k = k i
position-NoCr (b ∷ x) s i h k =
    let other : (13 == b) ≡ false = ground (arith, h.0) in
    rw other (position-NoCr x s (i + 1) h.1 k)

-- The first byte is there, and no carriage return.
abbrev Starts : Bytes → Type 0
Starts [] = ⊥
Starts (b ∷ x) = (b == 13) ≡ false

join_lines-Starts :
    (m : Bytes) (ls : List Bytes) (s : Bytes)
    → 0 < length m
    → NoCr m
    → Starts (join_lines m ls ++ s)
join_lines-Starts [] ls s some' h = absurd (omega arith)
join_lines-Starts (b ∷ m) [] s some' h = h.0
join_lines-Starts (b ∷ m) (l ∷ ls) s some' h = h.0

-- A line break in front of such bytes is no separator.
position-line :
    (x : Bytes) (i : ℕ)
    → Starts x
    → ((j : ℕ) → position http_body_sep x j ≡ none)
    → position http_body_sep (13 ∷ 10 ∷ x) i ≡ none
unfolding position starts_with
position-line [] i h k = absurd h
position-line (b ∷ x) i h k =
    let other : (13 == b) ≡ false = ground (arith, h) in
    let later = rw other at (k (i + 1 + 1)) in rw other later

join_lines-position :
    (l : Bytes) (ls : List Bytes) (i : ℕ)
    → NoCr l
    → AllLines ls
    → position http_body_sep (join_lines l ls ++ open_sep) i ≡ none
join_lines-position l [] i h k =
    position-NoCr l open_sep i h (λ j. unfold position starts_with in refl)
join_lines-position l (m ∷ ls) i h k =
    ap (λ (s : Bytes). position http_body_sep s i)
      (append_assoc l (13 ∷ 10 ∷ join_lines m ls) open_sep)
    ∙ position-NoCr l (13 ∷ 10 ∷ (join_lines m ls ++ open_sep)) i h (λ j.
      position-line (join_lines m ls ++ open_sep) j (join_lines-Starts m ls open_sep k.0 k.1)
        (λ n. join_lines-position m ls n k.1 k.2))

pub into_bytes-join_lines :
    (l : Str) (ls : List Str)
    → into_bytes (join_lines l ls) ≡ join_lines (into_bytes l) (map into_bytes ls)
unfolding into_bytes encode_char
into_bytes-join_lines l [] = refl
into_bytes-join_lines l (m ∷ ls) =
    into_bytes-append l (13 ∷ 10 ∷ join_lines m ls)
    ∙ ap (λ (s : Bytes). into_bytes l ++ (13 ∷ 10 ∷ s)) (into_bytes-join_lines m ls)

-- Lines with their ends, one after another.
abbrev ended : List Bytes → List Bytes
ended [] = []
ended (l ∷ ls) = (l ++ codes "\r\n") ∷ ended ls

joined_sections-ended :
    (l : Bytes) (ls : List Bytes)
    → joined_sections (ended (l ∷ ls)) ≡ join_lines l ls ++ codes "\r\n"
joined_sections-ended l [] = append-nil (l ++ codes "\r\n")
joined_sections-ended l (m ∷ ls) =
    ap (λ (s : Bytes). l ++ codes "\r\n" ++ s) (joined_sections-ended m ls) ∙ simp (append_assoc)

length-into_bytes : (s : Str) → 0 < length s → 0 < length (into_bytes s)
unfolding into_bytes encode_char
length-into_bytes [] h = h
length-into_bytes (c ∷ s) h = ground arith

into_bytes-AllLines : (ls : List Str) → AllLines ls → AllLines (map into_bytes ls)
into_bytes-AllLines [] h = tt
into_bytes-AllLines (l ∷ ls) h =
    (length-into_bytes l h.0, into_bytes-NoCr l h.1, into_bytes-AllLines ls h.2)

line_end : (l : Str) → into_bytes (l ++ codes "\r\n") ≡ into_bytes l ++ codes "\r\n"
unfolding into_bytes encode_char
line_end l = into_bytes-append l (codes "\r\n")

-- Lines of text that are not empty hold no blank line.
pub text-NoBlankLine :
    (l : Str) (ls : List Str) → NoCr l → AllLines ls → NoBlankLine (into_bytes (join_lines l ls))
text-NoBlankLine l ls h k =
    ap (λ (s : Bytes). position http_body_sep (s ++ open_sep) 0) (into_bytes-join_lines l ls)
    ∙ join_lines-position (into_bytes l) (map into_bytes ls) 0 (into_bytes-NoCr l h)
        (into_bytes-AllLines ls k)

module _ (c : RequestConfig) where
  abbrev pub header_bytes : Bytes
  header_bytes = into_bytes (join_lines (request_line c) (later_lines c))

  request_line-ended : req_line c ≡ into_bytes (request_line c) ++ codes "\r\n"
  unfolding req_line into_bytes encode_char
  request_line-ended =
      ap (λ (s : Str). codes "POST " ++ into_bytes s)
        (sym (append_assoc c.basepath (codes " HTTP/1.1") (codes "\r\n")))
      ∙ ap (λ (s : Bytes). codes "POST " ++ s) (line_end (c.basepath ++ codes " HTTP/1.1"))

  sections-ended :
      header_sections c ≡ ended (into_bytes (request_line c) ∷ map into_bytes (later_lines c))
  unfolding header_sections req_line host_header authorization_header content_type_header
      content_length_header connection_header into_bytes encode_char
  sections-ended = λ i.
      request_line-ended i
      ∷ (codes "Host: " ++ line_end c.host i)
      ∷ (codes "authorization: Bearer " ++ line_end c.api_key i)
      ∷ content_type_header c
      ∷ (codes "Content-Length: " ++ line_end (decimal c.content_length) i)
      ∷ connection_header c
      ∷ []

  -- The template is the header text and the end of its last line.
  pub template-header_bytes : template c ≡ header_bytes ++ codes "\r\n"
  template-header_bytes =
      ap joined_sections sections-ended
      ∙ joined_sections-ended (into_bytes (request_line c)) (map into_bytes (later_lines c))
      ∙ ap (λ (s : Bytes). s ++ codes "\r\n")
          (sym (into_bytes-join_lines (request_line c) (later_lines c)))

  pub header_bytes-NoBlankLine : IsTidy c → NoBlankLine header_bytes
  header_bytes-NoBlankLine t =
      text-NoBlankLine (request_line c) (later_lines c) (request_line-NoCr c t)
        (later_lines-AllLines c t)
