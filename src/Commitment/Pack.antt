-- ===== src/Commitment/Pack.antt =====
-- What the packing computes: each chunk of bits, read from the lowest up, as a field element.
use zk_prompt.Base.{
  ℕ, zero, suc, ◌+◌, ◌-◌, ◌*◌, ◌≤◌, ◌<◌, ◌≡◌, refl, sym, ap, ap₂, ◌∙◌, Bool, true, false, Option,
  some, List, [], ◌∷◌, ◌++◌, map, Bytes, length, drop, get_elem?, set, replicate, ◌==◌, arith,
  append_assoc, length-replicate, length-append, set-append,
}
use zk_prompt.Base.Chunks.{chunks, chunks_loop, AllShort, chunks_loop-AllShort}
use zk_prompt.Field.{PrimeField}
use zk_prompt.Gadgets.{le_value}
use zk_prompt.Mimc.{permute_feistel, absorb_loop}
use zk_prompt.Mimc.Bn254.{mimc_bn254}
use zk_prompt.Mimc.Outputs.{permute_feistel_outputs}
use zk_prompt.Base.Partial.{◌>>=◌}
use zk_prompt.Commitment.{
  mimc_commit, bytes_to_bits_be, copy_loop, le_bits_loop, le_bits_to_fp, compress_chunk,
  compress_bytes,
}

copy_loop_lem :
    (pre bits rest : List Bool) (i : ℕ)
    → i ≡ length pre
    → length bits ≤ length rest
    → copy_loop i bits (pre ++ rest) ≡ pre ++ (bits ++ drop (length bits) rest)
unfolding copy_loop
copy_loop_lem pre [] rest i e h = refl
copy_loop_lem pre (b ∷ bits) [] i e h = absurd (omega arith)
copy_loop_lem pre (b ∷ bits) (r ∷ rest) i e h =
    let at : set (pre ++ r ∷ rest) i b ≡ pre ++ b ∷ rest =
      ap (λ (k : ℕ). set (pre ++ r ∷ rest) k b) e ∙ set-append pre rest r b in
    ap (copy_loop (i + 1) bits) (at ∙ sym (append_assoc pre (b ∷ []) rest))
    ∙ copy_loop_lem (pre ++ b ∷ []) bits rest (i + 1) (omega (arith, length-append pre (b ∷ [])))
        (omega arith)
    ∙ append_assoc pre (b ∷ []) (bits ++ drop (length bits) rest)

pub le_value-pad : (bits : List Bool) (k : ℕ) → le_value (bits ++ replicate k false) ≡ le_value bits
le_value-pad [] zero = refl
le_value-pad [] (suc k) = omega (arith, le_value-pad [] k)
le_value-pad (b ∷ bits) k = omega (arith, le_value-pad bits k)

drop-replicate : (n k : ℕ) → drop k (replicate n false) ≡ replicate (n - k) false
drop-replicate n zero = let e : n ≡ n - 0 = omega arith in ap (λ (m : ℕ). replicate m false) e
drop-replicate zero (suc k) =
    let e : 0 ≡ 0 - suc k = omega arith in ap (λ (m : ℕ). replicate m false) e
drop-replicate (suc n) (suc k) =
    let e : n - k ≡ suc n - suc k = omega arith in
    drop-replicate n k ∙ ap (λ (m : ℕ). replicate m false) e

module _ (f : PrimeField) where
  open f use {F, add, double, of_nat, zero as fp_zero, one}

  le_bits_loop_lem :
      (bits : List Bool) (a p : ℕ)
      → le_bits_loop f bits (of_nat a) (of_nat p) ≡ of_nat (a + p * le_value bits)
  unfolding le_bits_loop
  le_bits_loop_lem [] a p = ap of_nat (omega arith)
  le_bits_loop_lem (true ∷ bits) a p =
      ap₂ (le_bits_loop f bits) (sym (f.of_nat-add a p))
        (f.double_lem (of_nat p) ∙ sym (f.of_nat-add p p))
      ∙ le_bits_loop_lem bits (a + p) (p + p)
      ∙ ap of_nat (omega arith)
  le_bits_loop_lem (false ∷ bits) a p =
      ap (le_bits_loop f bits (of_nat a)) (f.double_lem (of_nat p) ∙ sym (f.of_nat-add p p))
      ∙ le_bits_loop_lem bits a (p + p)
      ∙ ap of_nat (omega arith)

  pub le_bits_to_fp-of_nat : (bits : List Bool) → le_bits_to_fp f bits ≡ of_nat (le_value bits)
  unfolding le_bits_to_fp
  le_bits_to_fp-of_nat bits =
      ap₂ (le_bits_loop f bits) (sym f.of_nat-zero) (sym f.of_nat-one)
      ∙ le_bits_loop_lem bits 0 1
      ∙ ap of_nat (omega arith)

  -- The padding of a chunk changes nothing.
  pub compress_chunk-of_nat :
      (n : ℕ) (chunk : List Bool)
      → length chunk ≤ n
      → compress_chunk f n chunk ≡ of_nat (le_value chunk)
  unfolding compress_chunk
  compress_chunk-of_nat n chunk h =
      ap (le_bits_to_fp f) (
        copy_loop_lem [] chunk (replicate n false) 0 refl (omega (arith, length-replicate n false))
        ∙ ap (◌++◌ chunk) (drop-replicate n (length chunk)))
      ∙ le_bits_to_fp-of_nat _
      ∙ ap of_nat (le_value-pad chunk (n - length chunk))

  map-compress_chunk :
      (n : ℕ) (cs : List (List Bool))
      → AllShort n cs
      → map (compress_chunk f n) cs ≡ map (λ c. of_nat (le_value c)) cs
  map-compress_chunk n [] h = refl
  map-compress_chunk n (c ∷ cs) h =
      ap₂ ◌∷◌ (compress_chunk-of_nat n c h.0) (map-compress_chunk n cs h.1)

  -- `compress_bytes` never panics at a positive chunk size, and its elements are the chunks of the
  -- bits, highest bit of each byte first, read as binary numbers from the lowest digit up.
  pub compress_bytes-of_nat :
      (bytes : Bytes) (n : ℕ)
      → 0 < n
      → compress_bytes f bytes n
        ≡ some (
            map
              (λ c. of_nat (le_value c))
              (chunks_loop (length (bytes_to_bits_be bytes)) n (bytes_to_bits_be bytes)))
  unfolding compress_bytes chunks
  compress_bytes-of_nat bytes n h =
      let bits = bytes_to_bits_be bytes in
      let positive : (n == 0) ≡ false = ground arith in
      rw positive (ap some (map-compress_chunk n _ (chunks_loop-AllShort (length bits) n bits)))

  -- The commitment is defined on all bytes.
  pub mimc_commit-some : (bytes : Bytes) → (x : F) × (mimc_commit f bytes ≡ some x)
  unfolding mimc_commit
  mimc_commit-some bytes =
      let m = mimc_bn254 f in
      let state =
        map (λ c. of_nat (le_value c))
          (chunks_loop (length (bytes_to_bits_be bytes)) 250 (bytes_to_bits_be bytes)) in
      let (rest, shape) = (permute_feistel_outputs f m state 1).1 in
      (
        (absorb_loop f m state (fp_zero, fp_zero)).0,
        ap (λ (o : Option (List F)). o >>= λ state. get_elem? (permute_feistel f m state 1) 0)
              (compress_bytes-of_nat bytes 250 (omega arith))
            ∙ ap (λ (l : List F). get_elem? l 0) shape,
      )
