-- ===== src/Client/Response/Decoded.antt =====
-- What `decode_response` reads in a response, and its panics.
use zk_prompt.Base.{
  ℕ, zero, suc, ◌+◌, ◌/◌, ◌%◌, ◌^◌, ◌≤◌, ◌<◌, ◌≡◌, ◌≢◌, refl, ap, sym, ◌∙◌, some, List, [], ◌∷◌,
  ◌++◌, Bytes, length, take, drop, arith, length-append, length-take, drop-append, drop-drop, ◌==◌,
  Bool-cases, inl, inr,
}
use zk_prompt.Base.Text.{Str, codes, into_bytes, decimal, digits_loop}
use zk_prompt.Base.Utf8.{AllScalar, AllScalar-append, from_utf8, from_utf8-into_bytes}
use zk_prompt.Base.Words.{
  NoCr, NoCr-append, NoSpace, is_whitespace, split_crlf, flush-some, words_loop, split_whitespace,
  words_loop-word,
}
use zk_prompt.Base.Numbers.{parse_unsigned, parse_unsigned-decimal}
use zk_prompt.Base.Partial.{slice, slice-zero}
use zk_prompt.Base.Outcome.{panic, ok_or, >>=-NoPanic, ok_or-NoPanic, ok_or-eq-ok}
use zk_prompt.Openai.Wire.{http_body_sep, position}
use zk_prompt.Openai.Wire.Padding.{position_lem, slice-to_end}
use zk_prompt.Openai.Wire.Split.{position_first}
use zk_prompt.Openai.Headers.{next, rest}
use zk_prompt.Openai.Check.Lines.{
  join_lines, AllLines, AllScalars, join_lines-AllScalar, decimal-NoCr, decimal-AllScalar,
  split_crlf-join_lines,
}
use zk_prompt.Openai.Check.Blank.{text-NoBlankLine}
use zk_prompt.Client.Response.{Http, missing_terminator, protocol, builder_loop, decode_response}

-- The three cuts at a position inside of the bytes.
head_cut :
    (n : ℕ) (data' : Bytes)
    → n + 4 ≤ length data'
    → (slice 0 (n + 4) data' ≡ some (take (n + 4) data'))
      × (slice (n + 4) (length data') data' ≡ some (drop (n + 4) data'))
      × (slice 0 n (take (n + 4) data') ≡ some (take n (take (n + 4) data')))
head_cut n data' h = (
  slice-zero (n + 4) data' h,
  slice-to_end (n + 4) data' h,
  slice-zero n (take (n + 4) data') (omega (arith, length-take (n + 4) data', h)),
)

digits_loop-NoSpace : (fuel n : ℕ) (s : Str) → NoSpace s → NoSpace (digits_loop fuel n s)
unfolding digits_loop
digits_loop-NoSpace zero n s h = (unfold is_whitespace in ground arith, h)
digits_loop-NoSpace (suc fuel) n s h = elim (Bool-cases (n / 10 == 0)) [
  | inl last ↦ rw last (unfold is_whitespace in ground arith, h)
  | inr more ↦ rw more (
      digits_loop-NoSpace fuel (n / 10) ((b'0' + n % 10) ∷ s)
        (unfold is_whitespace in ground arith, h))
]

digits_loop-some : (fuel n : ℕ) (s : Str) → 0 < length (digits_loop fuel n s)
unfolding digits_loop
digits_loop-some zero n s = omega arith
digits_loop-some (suc fuel) n s = elim (Bool-cases (n / 10 == 0)) [
  | inl last ↦ rw last (omega arith)
  | inr more ↦ rw more (digits_loop-some fuel (n / 10) ((b'0' + n % 10) ∷ s))
]

take-take-append : (xs ys : Bytes) (n : ℕ) → take (length xs) (take (length xs + n) (xs ++ ys)) ≡ xs
take-take-append [] ys n = refl
take-take-append (x ∷ xs) ys n =
    let e : length (x ∷ xs) + n ≡ suc (length xs + n) = omega arith in
    ap (λ (m : ℕ). take (length (x ∷ xs)) (take m ((x ∷ xs) ++ ys))) e
    ∙ ap (◌∷◌ x) (take-take-append xs ys n)

-- The status line of a response.
abbrev pub status_text : ℕ → Str → Str
status_text n reason = codes "HTTP/1.1 " ++ (decimal n ++ (32 ∷ reason))

status_words :
    (n : ℕ) (reason : Str)
    → split_whitespace (status_text n reason) ≡ codes "HTTP/1.1" ∷ decimal n ∷ words_loop reason []
unfolding split_whitespace words_loop is_whitespace decimal
status_words n reason =
    ap (λ (ws : List Str). codes "HTTP/1.1" ∷ ws)
      (words_loop-word (decimal n) reason [] (digits_loop-NoSpace n n [] tt)
        ∙ flush-some (decimal n) (words_loop reason []) (digits_loop-some n n []))

status_text-NoCr : (n : ℕ) (reason : Str) → NoCr reason → NoCr (status_text n reason)
status_text-NoCr n reason h =
    NoCr-append (codes "HTTP/1.1 ") (decimal n ++ (32 ∷ reason)) (ground arith)
      (NoCr-append (decimal n) (32 ∷ reason) (decimal-NoCr n) (ground arith, h))

status_text-AllScalar : (n : ℕ) (reason : Str) → AllScalar reason → AllScalar (status_text n reason)
status_text-AllScalar n reason h =
    AllScalar-append (codes "HTTP/1.1 ") (decimal n ++ (32 ∷ reason)) (ground arith)
      (AllScalar-append (decimal n) (32 ∷ reason) (decimal-AllScalar n) (inl (omega arith), h))

module _ (h : Http) where
  -- `decode_response` does not panic, whatever the bytes are.
  pub decode_response_total : (data' : Bytes) → decode_response h data' ≢ panic
  unfolding decode_response
  decode_response_total data' =
      >>=-NoPanic (ok_or missing_terminator (position http_body_sep data' 0)) _ (ok_or-NoPanic _ _)
        (λ n found.
          let (k, e, fits, at) =
            position_lem http_body_sep data' 0 n (ok_or-eq-ok missing_terminator _ found) in
          let (a, b, c) = head_cut n data' (omega (arith, fits, e)) in
          rw (a, b, c)
            (>>=-NoPanic (ok_or _ (from_utf8 _)) _ (ok_or-NoPanic _ _) (λ text decoded.
              >>=-NoPanic (ok_or _ (next (split_crlf text))) _ (ok_or-NoPanic _ _) (λ line first.
                >>=-NoPanic (ok_or _ (next (rest (split_whitespace line)))) _ (ok_or-NoPanic _ _)
                  (λ code' second.
                    >>=-NoPanic (ok_or _ (parse_unsigned (2 ^ 16) code')) _ (ok_or-NoPanic _ _)
                      (λ status parsed. ok_or-NoPanic _ _))))))

  -- A response that consists of a status line with a status below 2 ^ 16, header lines that are not
  -- empty, a blank line and a body, the lines in Unicode and without a carriage return, is decoded
  -- into what the builder makes of this status, these lines and this body.
  pub decode_response-written :
      (n : ℕ) (reason : Str) (lines : List Str) (body : Bytes)
      → n < 2 ^ 16
      → NoCr reason
      → AllScalar reason
      → AllLines lines
      → AllScalars lines
      → decode_response h
          (into_bytes (join_lines (status_text n reason) lines) ++ (http_body_sep ++ body))
        ≡ ok_or protocol (h.body body (builder_loop h lines (h.status n (h.builder))))
  unfolding decode_response
  decode_response-written n reason lines body small line_r scalar_r line_l scalar_l =
      let text = join_lines (status_text n reason) lines in
      let head = into_bytes text in
      let k : ℕ = length head in
      let wire = head ++ (http_body_sep ++ body) in
      let size : length wire ≡ k + (4 + length body) =
        omega (arith, length-append head (http_body_sep ++ body)) in
      let blank =
        text-NoBlankLine (status_text n reason) lines (status_text-NoCr n reason line_r) line_l in
      let found : position http_body_sep wire 0 ≡ some k =
        let z : 0 + k ≡ k = omega arith in position_first head body 0 blank ∙ ap some z in
      let (a, b, c) = head_cut k wire (omega (arith, size)) in
      let front : take k (take (k + 4) wire) ≡ head =
        take-take-append head (http_body_sep ++ body) 4 in
      let back : drop (k + 4) wire ≡ body =
        sym (drop-drop k 4 wire) ∙ ap (drop 4) (drop-append head (http_body_sep ++ body)) in
      let decoded = from_utf8-into_bytes text (
        join_lines-AllScalar (status_text n reason) lines (status_text-AllScalar n reason scalar_r)
          scalar_l) in
      let split =
        split_crlf-join_lines (status_text n reason) lines (status_text-NoCr n reason line_r)
          line_l in
      rw
        (
          found,
          a,
          b,
          c,
          front,
          back,
          decoded,
          split,
          status_words n reason,
          parse_unsigned-decimal (2 ^ 16) n small,
        )
        refl
