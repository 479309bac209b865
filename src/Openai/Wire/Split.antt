-- ===== src/Openai/Wire/Split.antt =====
-- `split_http` of prover/src/openai/wire.rs and the first blank line of a request.
use zk_prompt.Base.{
  ℕ, ◌+◌, ◌≤◌, ◌≡◌, refl, ap, ap₂, sym, ◌∙◌, ◌&&◌, none, some, [], ◌∷◌, ◌++◌, Bytes, length, take,
  drop, arith, Bool-cases, inl, inr, length-append, take-append, drop-append, drop-drop,
  append_assoc, ◌==◌,
}
use zk_prompt.Base.Partial.{slice-zero}
use zk_prompt.Base.Outcome.{ok}
use zk_prompt.Openai.Wire.{http_body_sep, starts_with, position, split_http}
use zk_prompt.Openai.Wire.Padding.{slice-to_end}

-- The separator without its last byte.
abbrev pub open_sep : Bytes
open_sep = 13 ∷ 10 ∷ 13 ∷ []

-- The separator begins nowhere in the headers.
abbrev pub NoBlankLine : Bytes → Type 0
NoBlankLine headers = position http_body_sep (headers ++ open_sep) 0 ≡ none

starts_with-append :
    (p xs ys : Bytes) → length p ≤ length xs → starts_with p (xs ++ ys) ≡ starts_with p xs
unfolding starts_with
starts_with-append [] xs ys h = refl
starts_with-append (p ∷ ps) [] ys h = absurd (omega arith)
starts_with-append (p ∷ ps) (x ∷ xs) ys h =
    ap (◌&&◌ (p == x)) (starts_with-append ps xs ys (omega arith))

-- A window that begins in the headers ends before the last byte of the separator.
window :
    (h : ℕ) (hs body : Bytes)
    → starts_with http_body_sep ((h ∷ hs) ++ (http_body_sep ++ body))
      ≡ starts_with http_body_sep ((h ∷ hs) ++ open_sep)
window h hs body =
    ap (starts_with http_body_sep) (sym (append_assoc (h ∷ hs) open_sep (10 ∷ body)))
    ∙ starts_with-append http_body_sep ((h ∷ hs) ++ open_sep) (10 ∷ body)
        (omega (arith, length-append (h ∷ hs) open_sep))

pub position_first :
    (headers body : Bytes) (i : ℕ)
    → position http_body_sep (headers ++ open_sep) i ≡ none
    → position http_body_sep (headers ++ (http_body_sep ++ body)) i ≡ some (i + length headers)
unfolding position
position_first [] body i h = unfold starts_with in ap some (omega arith)
position_first (x ∷ headers) body i h =
    elim (Bool-cases (starts_with http_body_sep ((x ∷ headers) ++ open_sep))) [
      | inl here ↦ let e = rw here at h in cc (e)
      | inr later ↦
          let n : i + 1 + length headers ≡ i + length (x ∷ headers) = omega arith in
          rw (window x headers body ∙ later)
            (position_first headers body (i + 1) (rw later at h) ∙ ap some n)
    ]

-- If the headers contain no blank line, `split_http` gives back the headers and the body that were
-- joined by one; the body may contain blank lines.
pub split_http-joined :
    (headers body : Bytes)
    → NoBlankLine headers
    → split_http (headers ++ (http_body_sep ++ body)) ≡ ok (headers, body)
unfolding split_http
split_http-joined headers body h =
    let wire = headers ++ (http_body_sep ++ body) in
    let n : ℕ = length headers in
    let size : length wire ≡ n + (4 + length body) =
      omega (arith, length-append headers (http_body_sep ++ body)) in
    let found : position http_body_sep wire 0 ≡ some n =
      let e : 0 + n ≡ n = omega arith in position_first headers body 0 h ∙ ap some e in
    let front : take n wire ≡ headers = take-append headers (http_body_sep ++ body) in
    let back : drop (n + 4) wire ≡ body =
      sym (drop-drop n 4 wire) ∙ ap (drop 4) (drop-append headers (http_body_sep ++ body)) in
    rw
      (
        found,
        slice-zero n wire (omega (arith, size)),
        slice-to_end (n + 4) wire (omega (arith, size)),
      )
      (ap₂ (λ (a b : Bytes). ok (a, b)) front back)
