-- ===== src/Chacha20/Laws/Keystream.antt =====
-- The encryption of zeros as a key stream.
use Prim.Native.Nat.{bit_xor}
use zk_prompt.Base.{
  ℕ, zero, suc, ◌+◌, ◌≤◌, ◌<◌, ◌≡◌, refl, ap, ap₂, sym, ◌∙◌, List, [], ◌∷◌, ◌++◌, length, take,
  drop, replicate, arith, Bytes, length-take, length-drop, take-append-drop, length-replicate,
}
use zk_prompt.Base.Xor.{bit_xor_comm, zero-bit_xor}
use zk_prompt.Chacha20.Reference.{block, xor_bytes, initial, chacha20}
use zk_prompt.Chacha20.Laws.{length-xor_bytes, length-stream, blocks, blocks-step, blocks-nil}

abbrev pub zeros : ℕ → Bytes
zeros n = replicate n 0

take-zeros : (k : ℕ) (m : Bytes) → take k (zeros (length m)) ≡ zeros (length (take k m))
take-zeros zero m = refl
take-zeros (suc k) [] = refl
take-zeros (suc k) (x ∷ m) = ap (◌∷◌ 0) (take-zeros k m)

drop-zeros : (k : ℕ) (m : Bytes) → drop k (zeros (length m)) ≡ zeros (length (drop k m))
drop-zeros zero m = refl
drop-zeros (suc k) [] = refl
drop-zeros (suc k) (x ∷ m) = drop-zeros k m

xor_bytes-zeros :
    (ms ks : Bytes) → xor_bytes ms (xor_bytes (zeros (length ms)) ks) ≡ xor_bytes ms ks
unfolding xor_bytes
xor_bytes-zeros [] ks = refl
xor_bytes-zeros (m ∷ ms) [] = refl
xor_bytes-zeros (m ∷ ms) (k ∷ ks) =
    ap₂ ◌∷◌ (ap (λ (x : ℕ). bit_xor x m) (bit_xor_comm k 0 ∙ zero-bit_xor k))
      (xor_bytes-zeros ms ks)

xor_bytes-append_both :
    (front back xs ys : Bytes)
    → length front ≡ length xs
    → xor_bytes (front ++ back) (xs ++ ys) ≡ xor_bytes front xs ++ xor_bytes back ys
unfolding xor_bytes
xor_bytes-append_both [] back [] ys h = refl
xor_bytes-append_both [] back (x ∷ xs) ys h = absurd (omega arith)
xor_bytes-append_both (a ∷ front) back [] ys h = absurd (omega arith)
xor_bytes-append_both (a ∷ front) back (x ∷ xs) ys h =
    ap (◌∷◌ (bit_xor x a)) (xor_bytes-append_both front back xs ys (omega arith))

module _ (constants key nonce : List ℕ) (lc : length constants ≡ 4) (lk : length key ≡ 8)
    (ln : length nonce ≡ 3) where
  abbrev run : ℕ → ℕ → Bytes → Bytes
  run = blocks constants key nonce lc lk ln

  abbrev stream : ℕ → Bytes
  stream n = block (initial constants key n nonce)

  zeros-step :
      (fuel n : ℕ) (m : Bytes)
      → 0 < length m
      → run (suc fuel) n (zeros (length m))
        ≡ xor_bytes (zeros (length (take 64 m))) (stream n)
          ++ run fuel (n + 1) (zeros (length (drop 64 m)))
  zeros-step fuel n m h =
      blocks-step constants key nonce lc lk ln fuel n (zeros (length m))
        (omega (arith, length-replicate {A = ℕ} (length m) 0, h))
      ∙ ap₂ (λ (a b : Bytes). xor_bytes a (stream n) ++ run fuel (n + 1) b) (take-zeros 64 m)
          (drop-zeros 64 m)

  blocks-zeros :
      (fuel n : ℕ) (m : Bytes)
      → length m ≤ fuel
      → run fuel n m ≡ xor_bytes m (run fuel n (zeros (length m)))
  unfolding xor_bytes
  blocks-zeros fuel n [] h = blocks-nil constants key nonce lc lk ln fuel n
  blocks-zeros zero n (x ∷ m) h = absurd (omega arith)
  blocks-zeros (suc fuel) n (x ∷ m) h =
      let first = take 64 (x ∷ m) in
      let later = drop 64 (x ∷ m) in
      let masked = xor_bytes (zeros (length first)) (stream n) in
      let rest = run fuel (n + 1) (zeros (length later)) in
      let size : length first ≡ length masked = omega (
        arith,
        length-xor_bytes (zeros (length first)) (stream n) (
            omega (
              arith,
              length-replicate {A = ℕ} (length first) 0,
              length-take 64 (x ∷ m),
              length-stream constants key nonce lc lk ln n,
            )),
        length-replicate {A = ℕ} (length first) 0,
      ) in
      blocks-step constants key nonce lc lk ln fuel n (x ∷ m) (omega arith)
      ∙ ap₂ ◌++◌ (sym (xor_bytes-zeros first (stream n)))
          (blocks-zeros fuel (n + 1) later (omega (arith, length-drop 64 (x ∷ m))))
      ∙ sym (xor_bytes-append_both first later masked rest size)
      ∙ ap₂ xor_bytes (take-append-drop 64 (x ∷ m)) (sym (zeros-step fuel n (x ∷ m) (omega arith)))

  -- The cipher adds, byte for byte, the encryption of front many zeros to the message.
  pub chacha20-zeros :
      (n : ℕ) (message : Bytes)
      → chacha20 constants key nonce n message
        ≡ xor_bytes message (chacha20 constants key nonce n (zeros (length message)))
  unfolding chacha20
  chacha20-zeros n message =
      blocks-zeros (length message) n message (omega arith)
      ∙ ap (λ (k : ℕ). xor_bytes message (run k n (zeros (length message))))
          (sym (length-replicate {A = ℕ} (length message) 0))
