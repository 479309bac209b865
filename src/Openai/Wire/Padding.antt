-- ===== src/Openai/Wire/Padding.antt =====
-- What the functions on the wire format return.
use zk_prompt.Base.{
  ℕ, suc, ◌+◌, ◌-◌, ◌^◌, ◌≤◌, ◌<◌, ◌≡◌, refl, ap, ap₂, sym, ◌∙◌, Bool, true, false, some, [], ◌∷◌,
  ◌++◌, Bytes, length, take, drop, replicate, ltb, ◌==◌, arith, Bool-cases, Option-cases, ltb→lt,
  inl, inr, ◌⊎◌, length-append, length-take, length-drop, length-replicate, ==_iff, &&-true,
  take-append-drop, take_all,
}
use zk_prompt.Base.Partial.{slice, slice-eq-some, slice-zero}
use zk_prompt.Base.Outcome.{ok, err, panic, ok_or, >>=-eq-ok, ok_or-eq-ok}
use zk_prompt.Openai.Wire.{
  missing_separator, no_user_content, body_too_long, http_body_sep, user_content_marker,
  starts_with, position, split_http, pad_loop, user_content_pad_position, insert_padding, pad_body,
}

starts_with_lem :
    (p bytes : Bytes)
    → starts_with p bytes ≡ true
    → (length p ≤ length bytes) × (bytes ≡ p ++ drop (length p) bytes)
unfolding starts_with
starts_with_lem [] bytes h = (omega arith, refl)
starts_with_lem (p ∷ ps) [] h = cc
starts_with_lem (p ∷ ps) (b ∷ bytes) h =
    let both = (&&-true (p == b) (starts_with ps bytes)).0 h in
    let rest = starts_with_lem ps bytes both.1 in
    (omega (arith, rest.0), ap₂ ◌∷◌ (sym ((==_iff p b).0 both.0)) rest.1)

-- A position counts the bytes in front of the pattern.
pub position_lem :
    (p bytes : Bytes) (i n : ℕ)
    → position p bytes i ≡ some n
    → (k : ℕ) × (n ≡ i + k)
      × (k + length p ≤ length bytes)
      × (drop k bytes ≡ p ++ drop (k + length p) bytes)
unfolding position
position_lem p [] i n h = cc
position_lem p (b ∷ bytes) i n h = elim (Bool-cases (starts_with p (b ∷ bytes))) [
  | inl here ↦
      let found = rw here at h in
      let e : i ≡ n = cc (found) in
      let front = starts_with_lem p (b ∷ bytes) here in
      let z : length p ≡ 0 + length p = omega arith in
      (
        0,
        omega (arith, e),
        omega (arith, front.0),
        front.1 ∙ ap (λ (m : ℕ). p ++ drop m (b ∷ bytes)) z,
      )
  | inr later ↦
      let found = rw later at h in
      let (k, e, fits, at) = position_lem p bytes (i + 1) n found in
      let z : suc (k + length p) ≡ suc k + length p = omega arith in
      (suc k, omega (arith, e), omega (arith, fits), at ∙ ap (λ (m : ℕ). p ++ drop m (b ∷ bytes)) z)
]

-- The loop stops inside the bytes.
pad_loop_lem :
    (rest : Bytes) (pos n : ℕ) (escaped : Bool)
    → pad_loop rest pos escaped ≡ some n
    → n < pos + length rest
unfolding pad_loop
pad_loop_lem [] pos n escaped h = cc
pad_loop_lem (byte ∷ rest) pos n escaped h =
    let next : (e : Bool) → pad_loop rest (pos + 1) e ≡ some n → n < pos + length (byte ∷ rest) =
      λ e h'. let r = pad_loop_lem rest (pos + 1) n e h' in omega (arith, r) in
    elim (Bool-cases escaped) [
      | inl yes' ↦ next false (rw yes' at h)
      | inr no' ↦ elim (Bool-cases (byte == b'\\')) [
        | inl slash ↦ next true (rw (no', slash) at h)
        | inr plain ↦ elim (Bool-cases (byte == b'"')) [
          | inl quote ↦
              let found = rw (no', plain, quote) at h in
              let e : pos ≡ n = cc (found) in omega (arith, e)
          | inr other ↦ next false (rw (no', plain, other) at h)
        ]
      ]
    ]

-- `&xs[a..]`
pub slice-to_end : (a : ℕ) (xs : Bytes) → a ≤ length xs → slice a (length xs) xs ≡ some (drop a xs)
slice-to_end a xs h =
    slice-eq-some a (length xs) xs h (omega arith)
    ∙ ap some (take_all (length xs - a) (drop a xs) (omega (arith, length-drop a xs)))

-- The position lies inside the body.
user_content_pad_position-lt :
    (body : Bytes) (pos : ℕ) → user_content_pad_position body ≡ ok pos → pos < length body
unfolding user_content_pad_position
user_content_pad_position-lt body pos h =
    let (start, found, loop) =
      >>=-eq-ok (ok_or no_user_content (position user_content_marker body 0)) _ h in
    let (k, e, fits, at) =
      position_lem user_content_marker body 0 start (ok_or-eq-ok no_user_content _ found) in
    let from : ℕ = start + length user_content_marker in
    let stop = pad_loop_lem (drop from body) from pos false (ok_or-eq-ok no_user_content _ loop) in
    omega (arith, stop, length-drop from body, fits, e)

-- The two parts that `split_http` returns are what stands before and behind a blank line.
pub split_http-joins :
    (data' headers body : Bytes)
    → split_http data' ≡ ok (headers, body)
    → data' ≡ headers ++ (http_body_sep ++ body)
unfolding split_http
split_http-joins data' headers body h =
    let (n, found, cuts) =
      >>=-eq-ok (ok_or missing_separator (position http_body_sep data' 0)) _ h in
    let (k, e, fits, at) =
      position_lem http_body_sep data' 0 n (ok_or-eq-ok missing_separator _ found) in
    let same : n ≡ k = omega (arith, e) in
    let cuts' =
      rw (same, slice-zero k data' (omega (arith, fits)), slice-to_end (k + 4) data' fits) at
        cuts in
    let front : take k data' ≡ headers = cc (cuts') in
    let back : drop (k + 4) data' ≡ body = cc (cuts') in
    sym (take-append-drop k data')
    ∙ ap₂ ◌++◌ front (at ∙ ap (λ (l : Bytes). http_body_sep ++ l) back)

-- The length that the padding gives to a body that is too short.
padded-length :
    (body : Bytes) (pos target_len : ℕ)
    → pos ≤ length body
    → length body ≤ target_len
    → length (take pos body ++ replicate (target_len - length body) b' ' ++ drop pos body)
      ≡ target_len
padded-length body pos target_len h k = omega (
  arith,
  length-append (take pos body ++ replicate (target_len - length body) b' ') (drop pos body),
  length-append (take pos body) (replicate (target_len - length body) b' '),
  length-replicate {A = ℕ} (target_len - length body) b' ',
  length-take pos body,
  length-drop pos body,
)

-- What a successful padding returns.
abbrev pub Padded : Bytes → ℕ → Bytes → Type 0
Padded body target_len new_body =
    (pos : ℕ) × (pos ≤ length body)
    × (new_body ≡ take pos body ++ replicate (target_len - length body) b' ' ++ drop pos body)

-- If `insert_padding` finds a place, the padding succeeds and has the length it is asked for.
insert_padding-at :
    (body : Bytes) (pos target_len : ℕ)
    → user_content_pad_position body ≡ ok pos
    → length body ≤ target_len
    → ltb target_len (2 ^ 63) ≡ true
    → insert_padding body target_len
      ≡ ok (take pos body ++ replicate (target_len - length body) b' ' ++ drop pos body)
unfolding insert_padding
insert_padding-at body pos target_len e h fits =
    let inside : pos ≤ length body = omega (arith, user_content_pad_position-lt body pos e) in
    let right = (==_iff _ target_len).1 (padded-length body pos target_len inside h) in
    rw (e, fits, slice-zero pos body inside, slice-to_end pos body inside) (rw right)

user_content_pad_position-cases :
    (body : Bytes)
    → (user_content_pad_position body ≡ err no_user_content)
      ⊎ ((pos : ℕ) × (user_content_pad_position body ≡ ok pos))
unfolding user_content_pad_position
user_content_pad_position-cases body = elim (Option-cases (position user_content_marker body 0)) [
  | inl missing ↦ inl (rw missing)
  | inr found ↦
      let from : ℕ = found.0 + length user_content_marker in
      elim (Option-cases (pad_loop (drop from body) from false)) [
        | inl open_end ↦ inl (rw (found.1, open_end))
        | inr stop ↦ inr (stop.0, rw (found.1, stop.1))
      ]
]

insert_padding-err :
    (body : Bytes) (target_len : ℕ)
    → user_content_pad_position body ≡ err no_user_content
    → insert_padding body target_len ≡ err no_user_content
unfolding insert_padding
insert_padding-err body target_len e = rw e

insert_padding-panic :
    (body : Bytes) (pos target_len : ℕ)
    → user_content_pad_position body ≡ ok pos
    → ltb target_len (2 ^ 63) ≡ false
    → insert_padding body target_len ≡ panic
unfolding insert_padding
insert_padding-panic body pos target_len e large = rw (e, large)

-- `pad_body` does one of four things, and its last test never fails. It returns the body with spaces
-- put in at one place, so many that the length is the one asked for; or it reports that the body is
-- longer than that; or that it is shorter and has no user content to pad; or it panics, and then the
-- body is shorter, has a user content to pad, and the length asked for is at least 2 ^ 63.
pub pad_body_outcome :
    (body : Bytes) (target_len : ℕ)
    → ((new_body : Bytes) × (pad_body body target_len ≡ ok new_body)
        × (length new_body ≡ target_len)
        × Padded body target_len new_body)
      ⊎ (((pad_body body target_len ≡ err body_too_long) × (target_len < length body))
          ⊎ (((pad_body body target_len ≡ err no_user_content)
                × (length body < target_len)
                × (user_content_pad_position body ≡ err no_user_content))
              ⊎ ((pad_body body target_len ≡ panic)
                  × (length body < target_len)
                  × (2 ^ 63 ≤ target_len)
                  × ((pos : ℕ) × (user_content_pad_position body ≡ ok pos)))))
unfolding pad_body
pad_body_outcome body target_len = elim (Bool-cases (length body == target_len)) [
  | inl same ↦
      let e = (==_iff (length body) target_len).0 same in
      let z : 0 ≡ target_len - length body = omega (arith, e) in
      inl (body, rw same, e, (0, omega arith, ap (λ (k : ℕ). replicate k b' ' ++ body) z))
  | inr differs ↦ elim (Bool-cases (ltb target_len (length body))) [
    | inl long ↦ inr (inl (rw (differs, long), ltb→lt target_len (length body) long))
    | inr short ↦
        let h : length body < target_len = ground (arith, differs, short) in
        elim (user_content_pad_position-cases body) [
          | inl missing ↦ inr (
              inr (
                inl (rw (differs, short) (insert_padding-err body target_len missing), h, missing)))
          | inr found ↦
              let inside = user_content_pad_position-lt body found.0 found.1 in
              elim (Bool-cases (ltb target_len (2 ^ 63))) [
                | inl fits ↦ inl (
                  take found.0 body
                      ++ replicate (target_len - length body) b' '
                      ++ drop found.0 body,
                  rw (differs, short)
                      (insert_padding-at body found.0 target_len found.1 (omega (arith, h)) fits),
                  padded-length body found.0 target_len (omega (arith, inside)) (omega (arith, h)),
                  (found.0, omega (arith, inside), refl),
                )
                | inr large ↦ inr (
                    inr (
                      inr (
                        rw (differs, short)
                            (insert_padding-panic body found.0 target_len found.1 large),
                        h,
                        ground (arith, large),
                        found,
                      )))
              ]
        ]
  ]
]
