-- ===== src/Commitment.antt =====
-- prover/src/commitment.rs and prover/src/witness.rs: bytes packed into field elements, and the
-- MiMC commitments to the prompt and to the ciphertext.
pub mod Pack
pub mod Binding
use zk_prompt.Base.{
  ℕ, zero, suc, ◌+◌, ◌*◌, ◌/◌, ◌%◌, ◌^◌, Bool, true, false, Option, some, none, List, [], ◌∷◌, ◌++◌,
  map, Bytes, length, take, drop, get_elem?, set, replicate, ◌==◌, if◌then◌else◌,
}
use zk_prompt.Base.Chunks.{chunks}
use zk_prompt.Base.Partial.{◌>>=◌}
use zk_prompt.Field.{PrimeField}
use zk_prompt.Mimc.{permute_feistel}
use zk_prompt.Mimc.Bn254.{mimc_bn254}

abbrev pub chunk_bits : ℕ
chunk_bits = 250

-- `(byte >> i) & 1 == 1`
abbrev pub bit_is_set : ℕ → ℕ → Bool
bit_is_set byte i = byte / 2 ^ i % 2 == 1

-- `(0..n).rev().map(|i| ...)`
unfoldable pub bits_down : ℕ → ℕ → List Bool
bits_down byte zero = []
bits_down byte (suc i) = bit_is_set byte i ∷ bits_down byte i

unfoldable pub bytes_to_bits_be : Bytes → List Bool
unfolding bits_down
bytes_to_bits_be [] = []
bytes_to_bits_be (byte ∷ data') = bits_down byte 8 ++ bytes_to_bits_be data'

-- `for (i, bit) in chunk.iter().enumerate() { padded[i] = *bit }` from index `i` on. A chunk is no
-- longer than `padded`, so that the index is in range.
unfoldable pub copy_loop : ℕ → List Bool → List Bool → List Bool
copy_loop i [] padded = padded
copy_loop i (bit ∷ bits) padded = copy_loop (i + 1) bits (set padded i bit)

module _ (f : PrimeField) where
  open f use {F, add, double, zero as fp_zero, one}

  unfoldable pub le_bits_loop : List Bool → F → F → F
  le_bits_loop [] result power = result
  le_bits_loop (bit ∷ bits) result power =
      le_bits_loop bits (if bit then add result power else result) (double power)

  unfoldable pub le_bits_to_fp : List Bool → F
  unfolding le_bits_loop
  le_bits_to_fp bits = le_bits_loop bits fp_zero one

  unfoldable pub compress_chunk : ℕ → List Bool → F
  unfolding copy_loop le_bits_to_fp
  compress_chunk n chunk = le_bits_to_fp (copy_loop 0 chunk (replicate n false))

  unfoldable pub compress_bytes : Bytes → ℕ → Option (List F)
  unfolding bytes_to_bits_be chunks compress_chunk
  compress_bytes data' n = do
    cs ← chunks n (bytes_to_bits_be data')
    some (map (compress_chunk n) cs)

  -- `permute_feistel(&state, 1)[0]`; `none` is a panic.
  unfoldable pub mimc_commit : Bytes → Option F
  unfolding compress_bytes permute_feistel
  mimc_commit data' = do
    state ← compress_bytes data' chunk_bits
    get_elem? (permute_feistel f (mimc_bn254 f) state 1) 0

  unfoldable pub cipher_commitment : Bytes → Option F
  cipher_commitment cipher = mimc_commit cipher

  unfoldable pub prompt_commitment : Bytes → Option F
  prompt_commitment prompt = mimc_commit prompt
