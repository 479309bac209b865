-- ===== src/Openai/Check/Rebuilt.antt =====
-- `rebuild_request` on the header template: the content length is replaced.
use zk_prompt.Base.{
  ℕ, ◌+◌, ◌≡◌, refl, ap, sym, ◌∙◌, true, false, none, some, List, [], ◌∷◌, ◌++◌, map, Bytes, arith,
  append_assoc, ltb,
}
use zk_prompt.Base.Text.{Str, codes, into_bytes}
use zk_prompt.Base.Words.{to_ascii_lowercase, eq_ignore_ascii_case, on_first, split_once}
use zk_prompt.Base.Outcome.{ok}
use zk_prompt.Openai.Config.{RequestConfig, template}
use zk_prompt.Openai.Wire.{http_body_sep}
use zk_prompt.Openai.Check.{is_content_length, rebuild_line, rebuild_loop, rebuild_request}
use zk_prompt.Openai.Check.Lines.{
  IsTidy, request_line, later_lines, join_lines, split_crlf-header_text, from_utf8-header_text,
}
use zk_prompt.Openai.Check.Blank.{header_bytes, template-header_bytes, into_bytes-join_lines}

-- The loop behind the first line joins the rebuilt lines to what is there.
rebuild_loop-later :
    (n : ℕ) (wire l : Bytes) (ls : List Str) (i : ℕ)
    → rebuild_loop n ls (i + 1) (wire ++ l) ≡ wire ++ join_lines l (map (rebuild_line n) ls)
unfolding rebuild_loop
rebuild_loop-later n wire l [] i = refl
rebuild_loop-later n wire l (m ∷ ls) i =
    let later : ltb 0 (i + 1) ≡ true = ground arith in
    rw later (
      ap (λ (w : Bytes). rebuild_loop n ls (i + 1 + 1) (w ++ rebuild_line n m))
        (append_assoc wire l (codes "\r\n"))
      ∙ rebuild_loop-later n (wire ++ (l ++ codes "\r\n")) (rebuild_line n m) ls (i + 1)
      ∙ append_assoc wire (l ++ codes "\r\n")
          (join_lines (rebuild_line n m) (map (rebuild_line n) ls))
      ∙ ap (◌++◌ wire)
          (append_assoc l (codes "\r\n") (join_lines (rebuild_line n m) (map (rebuild_line n) ls))))

rebuild_loop-lines :
    (n : ℕ) (l : Str) (ls : List Str)
    → rebuild_loop n (l ∷ ls) 0 [] ≡ join_lines (rebuild_line n l) (map (rebuild_line n) ls)
unfolding rebuild_loop
rebuild_loop-lines n l ls = rebuild_loop-later n [] (rebuild_line n l) ls 0

-- The key of a line that does not begin with a C is not the content length.
request-kept : (s : Str) → is_content_length (split_once b':' (b'P' ∷ s)) ≡ false
unfolding split_once eq_ignore_ascii_case to_ascii_lowercase
request-kept s = elim (split_once b':' s) as (λ o. is_content_length (on_first b'P' o) ≡ false) [
  | none ↦ refl
  | some (key, value) ↦ refl
]

rebuild_line-request : (n : ℕ) (s : Str) → rebuild_line n (b'P' ∷ s) ≡ into_bytes (b'P' ∷ s)
unfolding rebuild_line
rebuild_line-request n s = rw (request-kept s) refl

module _ (c : RequestConfig) where
  -- The same configuration with another content length.
  abbrev pub sized : ℕ → RequestConfig
  sized n = record c { content_length = n }

  rebuilt_lines :
      (n : ℕ)
      → join_lines (rebuild_line n (request_line c)) (map (rebuild_line n) (later_lines c))
        ≡ join_lines (into_bytes (request_line c)) (map into_bytes (later_lines (sized n)))
  unfolding rebuild_line split_once eq_ignore_ascii_case to_ascii_lowercase
  rebuilt_lines n =
      ap (λ (l : Bytes). join_lines l (map into_bytes (later_lines (sized n))))
        (rebuild_line-request n (codes "OST " ++ (c.basepath ++ codes " HTTP/1.1")))

  pub rebuild_request-template :
      IsTidy c
      → (body : Bytes) (n : ℕ)
      → rebuild_request (header_bytes c) body n ≡ ok (template (sized n) ++ (codes "\r\n" ++ body))
  unfolding rebuild_request
  rebuild_request-template t body n =
      rw (from_utf8-header_text c t, split_crlf-header_text c t)
        (ap (λ (wire : Bytes). ok (wire ++ (http_body_sep ++ body)))
            (rebuild_loop-lines n (request_line c) (later_lines c)
              ∙ rebuilt_lines n
              ∙ sym (into_bytes-join_lines (request_line c) (later_lines (sized n))))
          ∙ ap ok (
              sym (append_assoc (header_bytes (sized n)) (codes "\r\n") (codes "\r\n" ++ body))
              ∙ ap (λ (s : Bytes). s ++ (codes "\r\n" ++ body))
                  (sym (template-header_bytes (sized n)))))
