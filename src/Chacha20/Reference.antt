-- ===== src/Chacha20/Reference.antt =====
-- ChaCha20 over numbers, as RFC 8439 describes it: the quarter round is a function of four words,
-- the block number enters each block by itself, and the key stream is added to the message.
use Prim.Native.Nat.{bit_xor}
use zk_prompt.Base.{ℕ, zero, suc, ◌+◌, ◌%◌, ◌^◌, List, [], ◌∷◌, ◌++◌, Bytes, length, get_or, set}
use zk_prompt.Base.Chunks.{chunks_loop}
use zk_prompt.Gadgets.{rotate_left, le_bytes}

abbrev pub add32 : ℕ → ℕ → ℕ
add32 x y = (x + y) % 2 ^ 32

unfoldable pub quarter : ℕ → ℕ → ℕ → ℕ → ℕ × ℕ × ℕ × ℕ
quarter a b c d =
    let a1 = add32 a b in
    let d1 = rotate_left (bit_xor d a1) 16 in
    let c1 = add32 c d1 in
    let b1 = rotate_left (bit_xor b c1) 12 in
    let a2 = add32 a1 b1 in
    let d2 = rotate_left (bit_xor d1 a2) 8 in
    let c2 = add32 c1 d2 in (a2, rotate_left (bit_xor b1 c2) 7, c2, d2)

-- QUARTERROUND(i, j, k, l) on a state of words.
unfoldable pub quarter_at : ℕ → ℕ → ℕ → ℕ → List ℕ → List ℕ
quarter_at i j k l ws =
    let q = quarter (get_or ws i 0) (get_or ws j 0) (get_or ws k 0) (get_or ws l 0) in
    set (set (set (set ws i q.0) j q.1) k q.2) l q.3

unfoldable pub double_round : List ℕ → List ℕ
unfolding quarter_at quarter
double_round ws = quarter_at 3 4 9 14 (
    quarter_at 2 7 8 13 (
      quarter_at 1 6 11 12 (
        quarter_at 0 5 10 15 (
          quarter_at 3 7 11 15
            (quarter_at 2 6 10 14 (quarter_at 1 5 9 13 (quarter_at 0 4 8 12 ws)))))))

unfoldable pub iterate_rounds : ℕ → List ℕ → List ℕ
iterate_rounds zero ws = ws
iterate_rounds (suc n) ws = iterate_rounds n (double_round ws)

unfoldable pub serialise : List ℕ → List ℕ → Bytes
serialise [] ys = []
serialise (x ∷ xs) [] = []
serialise (x ∷ xs) (y ∷ ys) = le_bytes (add32 x y) ++ serialise xs ys

-- The key stream of one block, from its initial state.
unfoldable pub block : List ℕ → Bytes
block ws = serialise ws (iterate_rounds 10 ws)

unfoldable pub xor_bytes : Bytes → Bytes → Bytes
xor_bytes [] ks = []
xor_bytes (m ∷ ms) [] = []
xor_bytes (m ∷ ms) (k ∷ ks) = bit_xor k m ∷ xor_bytes ms ks

-- The initial state of block number `n`.
abbrev pub initial : List ℕ → List ℕ → ℕ → List ℕ → List ℕ
initial constants key n nonce = constants ++ (key ++ (n % 2 ^ 32 ∷ nonce))

-- The message as blocks, the first of them with number `n`.
unfoldable pub encrypt_blocks : List ℕ → List ℕ → List ℕ → ℕ → List Bytes → Bytes
encrypt_blocks constants key nonce n [] = []
encrypt_blocks constants key nonce n (b ∷ bs) =
    xor_bytes b (block (initial constants key n nonce))
    ++ encrypt_blocks constants key nonce (n + 1) bs

-- A message in blocks of 64 bytes.
unfoldable pub chacha20 : List ℕ → List ℕ → List ℕ → ℕ → Bytes → Bytes
chacha20 constants key nonce n message =
    encrypt_blocks constants key nonce n (chunks_loop (length message) 64 message)
