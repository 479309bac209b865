-- ===== src/Client/Response/Headers.antt =====
-- `decode_response` on a response whose header lines are written from names and values.
use zk_prompt.Base.{
  ℕ, ◌^◌, ◌<◌, ◌≡◌, refl, ap, ap₂, ◌∙◌, false, Option, some, List, [], ◌∷◌, ◌++◌, Bytes, arith,
  length-append, ◌==◌, inl,
}
use zk_prompt.Base.Text.{Str, into_bytes}
use zk_prompt.Base.Utf8.{AllScalar, AllScalar-append}
use zk_prompt.Base.Words.{NoCr, NoCr-append, is_whitespace, trim, trim_start, split_once}
use zk_prompt.Base.Outcome.{ok_or}
use zk_prompt.Openai.Wire.{http_body_sep}
use zk_prompt.Openai.Check.Lines.{join_lines, AllLines, AllScalars}
use zk_prompt.Client.Response.{Http, protocol, add_header, builder_loop, decode_response}
use zk_prompt.Client.Response.Decoded.{status_text, decode_response-written}

abbrev pub NoColon : Str → Type 0
NoColon [] = Unit {0}
NoColon (c ∷ s) = ((c == b':') ≡ false) × NoColon s

-- A name and a value as they stand in a header: of Unicode characters, without a carriage return,
-- without whitespace at the ends, and no colon in the name.
pub record IsHeader (name value : Str) : Type 0 where
  pub no_colon : NoColon name
  pub name_trimmed : trim name ≡ name
  pub value_trimmed : trim value ≡ value
  pub name_line : NoCr name
  pub value_line : NoCr value
  pub name_scalar : AllScalar name
  pub value_scalar : AllScalar value

abbrev pub AreHeaders : List (Str × Str) → Type 0
AreHeaders [] = Unit {0}
AreHeaders ((name, value) ∷ headers) = IsHeader name value × AreHeaders headers

abbrev pub header_text : Str → Str → Str
header_text name value = name ++ (b':' ∷ b' ' ∷ value)

abbrev pub header_texts : List (Str × Str) → List Str
header_texts [] = []
header_texts ((name, value) ∷ headers) = header_text name value ∷ header_texts headers

split_once-colon :
    (name s : Str) → NoColon name → split_once b':' (name ++ (b':' ∷ s)) ≡ some (name, s)
unfolding split_once
split_once-colon [] s h = refl
split_once-colon (c ∷ name) s h = rw (h.0, split_once-colon name s h.1) refl

trim-blank : (s : Str) → trim (b' ' ∷ s) ≡ trim s
unfolding trim trim_start is_whitespace
trim-blank s = refl

header_texts-AllLines :
    (headers : List (Str × Str)) → AreHeaders headers → AllLines (header_texts headers)
header_texts-AllLines [] h = tt
header_texts-AllLines ((name, value) ∷ headers) h = (
  omega (arith, length-append name (b':' ∷ b' ' ∷ value)),
  NoCr-append name (b':' ∷ b' ' ∷ value) h.0.name_line (refl, (refl, h.0.value_line)),
  header_texts-AllLines headers h.1,
)

header_texts-AllScalars :
    (headers : List (Str × Str)) → AreHeaders headers → AllScalars (header_texts headers)
header_texts-AllScalars [] h = tt
header_texts-AllScalars ((name, value) ∷ headers) h = (
  AllScalar-append name (b':' ∷ b' ' ∷ value) h.0.name_scalar
      (inl (omega arith), (inl (omega arith), h.0.value_scalar)),
  header_texts-AllScalars headers h.1,
)

module _ (h : Http) where
  -- The builder after these headers, in their order.
  abbrev pub with_headers : List (Str × Str) → h.Builder → h.Builder
  with_headers [] builder = builder
  with_headers ((name, value) ∷ headers) builder =
      with_headers headers (h.header name value builder)

  add_header-text :
      (name value : Str) (builder : h.Builder)
      → IsHeader name value
      → add_header h (split_once b':' (header_text name value)) builder
        ≡ h.header name value builder
  add_header-text name value builder is =
      ap (λ (o : Option (Str × Str)). add_header h o builder)
        (split_once-colon name (b' ' ∷ value) is.no_colon)
      ∙ ap₂ (λ (n v : Str). h.header n v builder) is.name_trimmed
          (trim-blank value ∙ is.value_trimmed)

  builder_loop-texts :
      (headers : List (Str × Str)) (builder : h.Builder)
      → AreHeaders headers
      → builder_loop h (header_texts headers) builder ≡ with_headers headers builder
  unfolding builder_loop
  builder_loop-texts [] builder are = refl
  builder_loop-texts ((name, value) ∷ headers) builder are =
      ap (builder_loop h (header_texts headers)) (add_header-text name value builder are.0)
      ∙ builder_loop-texts headers (h.header name value builder) are.1

  -- A response that consists of a status line with a status below 2 ^ 16, one line `name: value` for
  -- each of a list of headers, a blank line and a body is decoded into what the builder makes of this
  -- status, of every header in its order, and of this body. All is in Unicode and without a carriage
  -- return, names have no colon, and neither names nor values begin or end with whitespace.
  pub decode_response-headers :
      (n : ℕ) (reason : Str) (headers : List (Str × Str)) (body : Bytes)
      → n < 2 ^ 16
      → NoCr reason
      → AllScalar reason
      → AreHeaders headers
      → decode_response h (
          into_bytes (join_lines (status_text n reason) (header_texts headers))
          ++ (http_body_sep ++ body))
        ≡ ok_or protocol (h.body body (with_headers headers (h.status n (h.builder))))
  decode_response-headers n reason headers body small line_r scalar_r are =
      decode_response-written h n reason (header_texts headers) body small line_r scalar_r
        (header_texts-AllLines headers are) (header_texts-AllScalars headers are)
      ∙ ap (λ (builder : h.Builder). ok_or protocol (h.body body builder))
          (builder_loop-texts headers (h.status n (h.builder)) are)
