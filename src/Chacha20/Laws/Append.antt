-- ===== src/Chacha20/Laws/Append.antt =====
-- The reference cipher on a message and what follows it.
use Prim.Native.Nat.{bit_xor}
use native.Mathlib.Decide.{dec_le}
use zk_prompt.Base.{
  ℕ, zero, suc, ◌+◌, ◌≤◌, ◌≡◌, refl, ap, ap₂, sym, ◌∙◌, List, [], ◌∷◌, ◌++◌, length, take, drop,
  arith, Bytes, length-append, length-drop, take_all, drop_all, append-nil, append_assoc,
}
use zk_prompt.Chacha20.Reference.{block, xor_bytes, initial, chacha20}
use zk_prompt.Chacha20.Laws.{length-stream, blocks, blocks-step, blocks-nil}

take-append_le : (n : ℕ) (xs ys : Bytes) → n ≤ length xs → take n (xs ++ ys) ≡ take n xs
take-append_le zero xs ys h = refl
take-append_le (suc n) [] ys h = absurd (omega arith)
take-append_le (suc n) (x ∷ xs) ys h = ap (◌∷◌ x) (take-append_le n xs ys (omega arith))

drop-append_le : (n : ℕ) (xs ys : Bytes) → n ≤ length xs → drop n (xs ++ ys) ≡ drop n xs ++ ys
drop-append_le zero xs ys h = refl
drop-append_le (suc n) [] ys h = absurd (omega arith)
drop-append_le (suc n) (x ∷ xs) ys h = drop-append_le n xs ys (omega arith)

take-append_ge :
    (n : ℕ) (xs ys : Bytes) → length xs ≤ n → (zs : Bytes) × (take n (xs ++ ys) ≡ xs ++ zs)
take-append_ge n [] ys h = (take n ys, refl)
take-append_ge zero (x ∷ xs) ys h = absurd (omega arith)
take-append_ge (suc n) (x ∷ xs) ys h =
    let (zs, e) = take-append_ge n xs ys (omega arith) in (zs, ap (◌∷◌ x) e)

xor_bytes-append :
    (ms ss ks : Bytes)
    → length ms ≤ length ks
    → (r : Bytes) × (xor_bytes (ms ++ ss) ks ≡ xor_bytes ms ks ++ r)
unfolding xor_bytes
xor_bytes-append [] ss ks h = (xor_bytes ss ks, refl)
xor_bytes-append (m ∷ ms) ss [] h = absurd (omega arith)
xor_bytes-append (m ∷ ms) ss (k ∷ ks) h =
    let (r, e) = xor_bytes-append ms ss ks (omega arith) in (r, ap (◌∷◌ (bit_xor k m)) e)

module _ (constants key nonce : List ℕ) (lc : length constants ≡ 4) (lk : length key ≡ 8)
    (ln : length nonce ≡ 3) where
  abbrev stream : ℕ → Bytes
  stream n = block (initial constants key n nonce)

  abbrev run : ℕ → ℕ → Bytes → Bytes
  run = blocks constants key nonce lc lk ln

  blocks-append :
      (fuel fuel' n : ℕ) (m s : Bytes)
      → length m ≤ fuel
      → length m ≤ fuel'
      → (r : Bytes) × (run fuel' n (m ++ s) ≡ run fuel n m ++ r)
  blocks-append fuel fuel' n [] s h h' = (
    run fuel' n s,
    ap (λ (l : Bytes). l ++ run fuel' n s) (sym (blocks-nil constants key nonce lc lk ln fuel n)),
  )
  blocks-append zero fuel' n (x ∷ m) s h h' = absurd (omega arith)
  blocks-append (suc fuel) zero n (x ∷ m) s h h' = absurd (omega arith)
  blocks-append (suc fuel) (suc fuel') n (x ∷ m) s h h' =
      let step = blocks-step constants key nonce lc lk ln in
      elim (dec_le 64 (length (x ∷ m))) [
        | yes full ↦
            let later = drop 64 (x ∷ m) in
            let first = xor_bytes (take 64 (x ∷ m)) (stream n) in
            let (r, e) =
              blocks-append fuel fuel' (n + 1) later s (omega (arith, length-drop 64 (x ∷ m)))
                (omega (arith, length-drop 64 (x ∷ m))) in
            (
              r,
              step fuel' n ((x ∷ m) ++ s) (omega arith)
                  ∙ ap₂ (λ (a b : Bytes). xor_bytes a (stream n) ++ run fuel' (n + 1) b)
                      (take-append_le 64 (x ∷ m) s full) (drop-append_le 64 (x ∷ m) s full)
                  ∙ ap (◌++◌ first) e
                  ∙ sym (append_assoc first (run fuel (n + 1) later) r)
                  ∙ ap (λ (l : Bytes). l ++ r) (sym (step fuel n (x ∷ m) (omega arith))),
            )
        | no last ↦
            let short : length (x ∷ m) ≤ 64 = omega arith in
            let (zs, front) = take-append_ge 64 (x ∷ m) s short in
            let (r, e) =
              xor_bytes-append (x ∷ m) zs (stream n)
                (omega (arith, short, length-stream constants key nonce lc lk ln n)) in
            let later = run fuel' (n + 1) (drop 64 ((x ∷ m) ++ s)) in
            let whole = xor_bytes (x ∷ m) (stream n) in
            (
              r ++ later,
              step fuel' n ((x ∷ m) ++ s) (omega arith)
                  ∙ ap (λ (a : Bytes). xor_bytes a (stream n) ++ later) front
                  ∙ ap (λ (l : Bytes). l ++ later) e
                  ∙ append_assoc whole r later
                  ∙ ap (λ (l : Bytes). l ++ (r ++ later))
                      (sym (
                        step fuel n (x ∷ m) (omega arith)
                        ∙ ap₂ (λ (a b : Bytes). xor_bytes a (stream n) ++ run fuel (n + 1) b)
                            (take_all 64 (x ∷ m) short) (drop_all 64 (x ∷ m) short)
                        ∙ ap (◌++◌ whole) (blocks-nil constants key nonce lc lk ln fuel (n + 1))
                        ∙ append-nil whole)),
            )
      ]

  -- The ciphertext of a longer message begins with the ciphertext of the message.
  pub chacha20-append :
      (n : ℕ) (m s : Bytes)
      → (r : Bytes) × (chacha20 constants key nonce n (m ++ s)
          ≡ chacha20 constants key nonce n m ++ r)
  unfolding chacha20
  chacha20-append n m s =
      blocks-append (length m) (length (m ++ s)) n m s (omega arith)
        (omega (arith, length-append m s))
