-- ===== src/Chacha20/Laws.antt =====
-- The reference cipher applied twice, and its bytes.
pub mod Append
pub mod Keystream
use Prim.Native.Nat.{bit_xor}
use zk_prompt.Base.{
  ℕ, zero, suc, ◌+◌, ◌*◌, ◌%◌, ◌^◌, ◌≤◌, ◌<◌, ◌≡◌, refl, ap, ap₂, sym, ◌∙◌, List, [], ◌∷◌, ◌++◌,
  length, take, drop, arith, Bytes, length-append, length-set, length-take, length-drop,
  take-append, drop-append, take_all, drop_all, append-nil, take-append-drop, AllBytes,
  AllBytes-append, AllBytes-take, AllBytes-drop,
}
use mathlib.Core.Path.{subst}
use native.Mathlib.Decide.{dec_le}
use zk_prompt.Gadgets.{le_bytes}
use zk_prompt.Base.Chunks.{chunks_loop}
use zk_prompt.Base.Xor.{bit_xor_cancel, bit_xor_comm, bit_xor-lt}
use zk_prompt.Chacha20.Reference.{
  add32, quarter_at, double_round, iterate_rounds, serialise, block, xor_bytes, initial,
  encrypt_blocks, chacha20,
}

length-quarter_at : (i j k l : ℕ) (ws : List ℕ) → length (quarter_at i j k l ws) ≡ length ws
unfolding quarter_at
length-quarter_at i j k l ws =
    length-set _ l _ ∙ length-set _ k _ ∙ length-set _ j _ ∙ length-set ws i _

length-double_round : (ws : List ℕ) → length (double_round ws) ≡ length ws
unfolding double_round
length-double_round ws =
    length-quarter_at 3 4 9 14 _
    ∙ length-quarter_at 2 7 8 13 _
    ∙ length-quarter_at 1 6 11 12 _
    ∙ length-quarter_at 0 5 10 15 _
    ∙ length-quarter_at 3 7 11 15 _
    ∙ length-quarter_at 2 6 10 14 _
    ∙ length-quarter_at 1 5 9 13 _
    ∙ length-quarter_at 0 4 8 12 ws

length-iterate_rounds : (n : ℕ) (ws : List ℕ) → length (iterate_rounds n ws) ≡ length ws
unfolding iterate_rounds
length-iterate_rounds zero ws = refl
length-iterate_rounds (suc n) ws =
    length-iterate_rounds n (double_round ws) ∙ length-double_round ws

length-serialise :
    (xs ys : List ℕ) → length xs ≡ length ys → length (serialise xs ys) ≡ 4 * length xs
unfolding serialise
length-serialise [] ys h = omega arith
length-serialise (x ∷ xs) [] h = absurd (omega arith)
length-serialise (x ∷ xs) (y ∷ ys) h = omega (arith, length-serialise xs ys (omega arith))

length-block : (ws : List ℕ) → length ws ≡ 16 → length (block ws) ≡ 64
unfolding block
length-block ws h =
    omega (arith, length-serialise ws (iterate_rounds 10 ws) (sym (length-iterate_rounds 10 ws)))

length-xor_bytes : (ms ks : Bytes) → length ms ≤ length ks → length (xor_bytes ms ks) ≡ length ms
unfolding xor_bytes
length-xor_bytes [] ks h = refl
length-xor_bytes (m ∷ ms) [] h = absurd (omega arith)
length-xor_bytes (m ∷ ms) (k ∷ ks) h = ap suc (length-xor_bytes ms ks (omega arith))

xor_bytes_twice : (ms ks : Bytes) → length ms ≤ length ks → xor_bytes (xor_bytes ms ks) ks ≡ ms
unfolding xor_bytes
xor_bytes_twice [] ks h = refl
xor_bytes_twice (m ∷ ms) [] h = absurd (omega arith)
xor_bytes_twice (m ∷ ms) (k ∷ ks) h =
    ap₂ ◌∷◌
      (bit_xor_comm k (bit_xor k m)
        ∙ ap (λ (x : ℕ). bit_xor x k) (bit_xor_comm k m)
        ∙ bit_xor_cancel m k)
      (xor_bytes_twice ms ks (omega arith))

nil_of_length : (xs : Bytes) → length xs ≡ 0 → xs ≡ []
nil_of_length [] h = refl
nil_of_length (x ∷ xs) h = absurd (omega arith)

serialise-AllBytes : (xs ys : List ℕ) → AllBytes (serialise xs ys)
unfolding serialise
serialise-AllBytes [] ys = tt
serialise-AllBytes (x ∷ xs) [] = tt
serialise-AllBytes (x ∷ xs) (y ∷ ys) =
    AllBytes-append (le_bytes (add32 x y)) (serialise xs ys) (omega arith)
      (serialise-AllBytes xs ys)

block-AllBytes : (ws : List ℕ) → AllBytes (block ws)
unfolding block
block-AllBytes ws = serialise-AllBytes ws (iterate_rounds 10 ws)

xor_bytes-AllBytes : (ms ks : Bytes) → AllBytes ms → AllBytes ks → AllBytes (xor_bytes ms ks)
unfolding xor_bytes
xor_bytes-AllBytes [] ks h hk = tt
xor_bytes-AllBytes (m ∷ ms) [] h hk = tt
xor_bytes-AllBytes (m ∷ ms) (k ∷ ks) h hk =
    (bit_xor-lt 8 k m hk.0 h.0, xor_bytes-AllBytes ms ks h.1 hk.1)

module _ (constants key nonce : List ℕ) (lc : length constants ≡ 4) (lk : length key ≡ 8)
    (ln : length nonce ≡ 3) where
  length-stream : (n : ℕ) → length (block (initial constants key n nonce)) ≡ 64
  length-stream n = length-block (initial constants key n nonce) (
      omega (
        arith,
        length-append constants (key ++ (n % 2 ^ 32 ∷ nonce)),
        length-append key (n % 2 ^ 32 ∷ nonce),
      ))

  abbrev blocks : ℕ → ℕ → Bytes → Bytes
  blocks fuel n m = encrypt_blocks constants key nonce n (chunks_loop fuel 64 m)

  blocks-step :
      (fuel n : ℕ) (m : Bytes)
      → 0 < length m
      → blocks (suc fuel) n m
        ≡ xor_bytes (take 64 m) (block (initial constants key n nonce))
          ++ blocks fuel (n + 1) (drop 64 m)
  unfolding encrypt_blocks chunks_loop
  blocks-step fuel n [] h = absurd (omega arith)
  blocks-step fuel n (x ∷ m) h = refl

  blocks-nil : (fuel n : ℕ) → blocks fuel n [] ≡ []
  unfolding encrypt_blocks chunks_loop
  blocks-nil zero n = refl
  blocks-nil (suc fuel) n = refl

  length-blocks : (fuel n : ℕ) (m : Bytes) → length m ≤ fuel → length (blocks fuel n m) ≡ length m
  length-blocks fuel n [] h = ap length (blocks-nil fuel n)
  length-blocks zero n (x ∷ m) h = absurd (omega arith)
  length-blocks (suc fuel) n (x ∷ m) h =
      let first = take 64 (x ∷ m) in
      let ks = block (initial constants key n nonce) in
      ap length (blocks-step fuel n (x ∷ m) (omega arith))
      ∙ omega (
        arith,
        length-append (xor_bytes first ks) (blocks fuel (n + 1) (drop 64 (x ∷ m))),
        length-xor_bytes first ks (omega (arith, length-take 64 (x ∷ m), length-stream n)),
        length-take 64 (x ∷ m),
        length-drop 64 (x ∷ m),
        length-blocks fuel (n + 1) (drop 64 (x ∷ m)) (omega (arith, length-drop 64 (x ∷ m))),
      )

  -- The first block of a ciphertext.
  cut :
      (xs ys m : Bytes)
      → length xs ≡ length (take 64 m)
      → length ys ≡ length (drop 64 m)
      → (take 64 (xs ++ ys) ≡ xs) × (drop 64 (xs ++ ys) ≡ ys)
  cut xs ys m hx hy = elim (dec_le 64 (length m)) [
    | yes full ↦
        let e : 64 ≡ length xs = omega (arith, length-take 64 m) in
        (
          ap (λ (k : ℕ). take k (xs ++ ys)) e ∙ take-append xs ys,
          ap (λ (k : ℕ). drop k (xs ++ ys)) e ∙ drop-append xs ys,
        )
    | no last ↦
        let none_left = nil_of_length ys (omega (arith, length-drop 64 m)) in
        rw (none_left, append-nil)
          (
            take_all 64 xs (omega (arith, length-take 64 m)),
            drop_all 64 xs (omega (arith, length-take 64 m)),
          )
  ]

  blocks_twice : (fuel n : ℕ) (m : Bytes) → length m ≤ fuel → blocks fuel n (blocks fuel n m) ≡ m
  blocks_twice fuel n [] h = ap (blocks fuel n) (blocks-nil fuel n) ∙ blocks-nil fuel n
  blocks_twice zero n (x ∷ m) h = absurd (omega arith)
  blocks_twice (suc fuel) n (x ∷ m) h =
      let first = take 64 (x ∷ m) in
      let later = drop 64 (x ∷ m) in
      let ks = block (initial constants key n nonce) in
      let fits : length first ≤ length ks =
        omega (arith, length-take 64 (x ∷ m), length-stream n) in
      let short : length later ≤ fuel = omega (arith, length-drop 64 (x ∷ m)) in
      let rest = blocks fuel (n + 1) later in
      let parts =
        cut (xor_bytes first ks) rest (x ∷ m) (length-xor_bytes first ks fits)
          (length-blocks fuel (n + 1) later short) in
      ap (blocks (suc fuel) n) (blocks-step fuel n (x ∷ m) (omega arith))
      ∙ blocks-step fuel n (xor_bytes first ks ++ rest) (
          omega (
            arith,
            length-append (xor_bytes first ks) rest,
            length-xor_bytes first ks fits,
            length-take 64 (x ∷ m),
          ))
      ∙ ap₂ (λ (a b : Bytes). xor_bytes a ks ++ blocks fuel (n + 1) b) parts.0 parts.1
      ∙ ap₂ ◌++◌ (xor_bytes_twice first ks fits) (blocks_twice fuel (n + 1) later short)
      ∙ take-append-drop 64 (x ∷ m)

  -- The cipher keeps the length, and applied twice with the same key, nonce and counter it gives
  -- the message back.
  pub chacha20_twice :
      (n : ℕ) (message : Bytes)
      → (length (chacha20 constants key nonce n message) ≡ length message)
        × (chacha20 constants key nonce n (chacha20 constants key nonce n message) ≡ message)
  unfolding chacha20
  chacha20_twice n message =
      let size = length-blocks (length message) n message (omega arith) in
      (
        size,
        ap (λ (k : ℕ). blocks k n (blocks (length message) n message)) size
            ∙ blocks_twice (length message) n message (omega arith),
      )

  blocks-AllBytes : (fuel n : ℕ) (m : Bytes) → AllBytes m → AllBytes (blocks fuel n m)
  unfolding encrypt_blocks chunks_loop
  blocks-AllBytes zero n m h = tt
  blocks-AllBytes (suc fuel) n [] h = tt
  blocks-AllBytes (suc fuel) n (x ∷ m) h =
      let first = take 64 (x ∷ m) in
      let state = initial constants key n nonce in
      let rest = blocks-AllBytes fuel (n + 1) (drop 64 (x ∷ m)) (AllBytes-drop 64 (x ∷ m) h) in
      subst AllBytes (sym (blocks-step fuel n (x ∷ m) (omega arith))) (
        AllBytes-append (xor_bytes first (block state)) _
          (xor_bytes-AllBytes first (block state) (AllBytes-take 64 (x ∷ m) h)
            (block-AllBytes state))
          rest)

  pub chacha20-AllBytes :
      (n : ℕ) (message : Bytes)
      → AllBytes message
      → AllBytes (chacha20 constants key nonce n message)
  unfolding chacha20
  chacha20-AllBytes n message h = blocks-AllBytes (length message) n message h
