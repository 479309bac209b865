-- ===== src/Commitment/Binding.antt =====
-- Which bytes one packing can stand for.
use native.Mathlib.Nat.{pow-suc}
use zk_prompt.Base.{
  ℕ, zero, suc, ◌+◌, ◌*◌, ◌^◌, ◌≤◌, ◌<◌, ◌≡◌, refl, sym, ap, ap₂, ◌∙◌, Bool, true, false, ◌&&◌,
  Option, some, List, [], ◌∷◌, ◌++◌, map, Bytes, length, take, drop, replicate, ◌==◌, ==_iff,
  if◌then◌else◌, arith, length-append, append_split, AllBytes, take-append-drop, length-take,
  length-drop, length-replicate, get_elem?, append_assoc,
}
use zk_prompt.Base.Partial.{◌>>=◌}
use zk_prompt.Mimc.{permute_feistel}
use zk_prompt.Mimc.Bn254.{mimc_bn254}
use zk_prompt.Base.Chunks.{chunks_loop, chunks_loop_one}
use zk_prompt.Field.{PrimeField}
use zk_prompt.Gadgets.{le_value}
use zk_prompt.Commitment.{bits_down, bytes_to_bits_be, compress_bytes, mimc_commit}
use zk_prompt.Commitment.Pack.{compress_bytes-of_nat}

le_value-lt : (n : ℕ) (bits : List Bool) → length bits ≤ n → le_value bits < 2 ^ n
le_value-lt zero [] h = omega arith
le_value-lt (suc n) [] h = omega (arith, pow-suc 2 n, le_value-lt n [] (omega arith))
le_value-lt zero (b ∷ bits) h = absurd (omega arith)
le_value-lt (suc n) (true ∷ bits) h = omega (arith, pow-suc 2 n, le_value-lt n bits (omega arith))
le_value-lt (suc n) (false ∷ bits) h = omega (arith, pow-suc 2 n, le_value-lt n bits (omega arith))

le_value_injective :
    (xs ys : List Bool) → length xs ≡ length ys → le_value xs ≡ le_value ys → xs ≡ ys
le_value_injective [] [] l e = refl
le_value_injective [] (y ∷ ys) l e = absurd (omega arith)
le_value_injective (x ∷ xs) [] l e = absurd (omega arith)
le_value_injective (true ∷ xs) (true ∷ ys) l e =
    ap (◌∷◌ true) (le_value_injective xs ys (omega arith) (omega arith))
le_value_injective (false ∷ xs) (false ∷ ys) l e =
    ap (◌∷◌ false) (le_value_injective xs ys (omega arith) (omega arith))
le_value_injective (true ∷ xs) (false ∷ ys) l e = absurd (omega arith)
le_value_injective (false ∷ xs) (true ∷ ys) l e = absurd (omega arith)

module _ (f : PrimeField) where
  pack : List Bool → f.F
  pack c = f.of_nat (le_value c)

  pack_injective :
      (xs ys : List Bool) → length xs ≤ 250 → length xs ≡ length ys → pack xs ≡ pack ys → xs ≡ ys
  unfolding pack
  pack_injective xs ys h l e = le_value_injective xs ys l (
      f.of_nat-injective (le_value xs) (le_value ys) (omega (arith, f.wide, le_value-lt 250 xs h))
        (omega (arith, f.wide, le_value-lt 250 ys (omega arith))) e)

  chunks_injective :
      (fuel n : ℕ) (xs ys : List Bool)
      → 0 < n
      → n ≤ 250
      → length xs ≤ fuel
      → length xs ≡ length ys
      → map pack (chunks_loop fuel n xs) ≡ map pack (chunks_loop fuel n ys)
      → xs ≡ ys
  unfolding chunks_loop
  chunks_injective fuel n [] [] p w h l e = refl
  chunks_injective fuel n [] (y ∷ ys) p w h l e = absurd (omega arith)
  chunks_injective fuel n (x ∷ xs) [] p w h l e = absurd (omega arith)
  chunks_injective zero n (x ∷ xs) (y ∷ ys) p w h l e = absurd (omega arith)
  chunks_injective (suc fuel) n (x ∷ xs) (y ∷ ys) p w h l e =
      let firsts : pack (take n (x ∷ xs)) ≡ pack (take n (y ∷ ys)) = cc in
      let rests : map pack (chunks_loop fuel n (drop n (x ∷ xs)))
          ≡ map pack (chunks_loop fuel n (drop n (y ∷ ys))) =
        cc in
      let taken =
        pack_injective (take n (x ∷ xs)) (take n (y ∷ ys)) (omega (arith, length-take n (x ∷ xs)))
          (omega (arith, length-take n (x ∷ xs), length-take n (y ∷ ys))) firsts in
      let dropped =
        chunks_injective fuel n (drop n (x ∷ xs)) (drop n (y ∷ ys)) p w
          (omega (arith, length-drop n (x ∷ xs)))
          (omega (arith, length-drop n (x ∷ xs), length-drop n (y ∷ ys))) rests in
      sym (take-append-drop n (x ∷ xs)) ∙ ap₂ ◌++◌ taken dropped ∙ take-append-drop n (y ∷ ys)

-- The byte back from its bits, highest first.
abbrev be_value : ℕ → List Bool → ℕ
be_value acc [] = acc
be_value acc (b ∷ bs) = be_value (2 * acc + (if b then 1 else 0)) bs

-- Whether every number below the limit passes the test.
passes : (ℕ → Bool) → ℕ → Bool
passes test zero = true
passes test (suc limit) = passes test limit && test limit

passes_lem : (test : ℕ → Bool) (limit k : ℕ) → k < limit → passes test limit ≡ true → test k ≡ true
unfolding passes
passes_lem test zero k below all = absurd (omega arith)
passes_lem test (suc limit) k below all = ground (arith, passes_lem test limit k)

byte_table : passes (λ x. be_value 0 (bits_down x 8) == x) 256 ≡ true
unfolding passes bits_down
byte_table = refl

be_value-bits_down : (x : ℕ) → x < 256 → be_value 0 (bits_down x 8) ≡ x
be_value-bits_down x h = (==_iff _ x).0 (passes_lem _ 256 x h byte_table)

pub length-bits_down : (x n : ℕ) → length (bits_down x n) ≡ n
unfolding bits_down
length-bits_down x zero = refl
length-bits_down x (suc n) = ap suc (length-bits_down x n)

pub length-bytes_to_bits_be : (bytes : Bytes) → length (bytes_to_bits_be bytes) ≡ 8 * length bytes
unfolding bytes_to_bits_be
length-bytes_to_bits_be [] = omega arith
length-bytes_to_bits_be (b ∷ bytes) = omega (
  arith,
  length-append (bits_down b 8) (bytes_to_bits_be bytes),
  length-bits_down b 8,
  length-bytes_to_bits_be bytes,
)

bytes_to_bits_be_injective :
    (xs ys : Bytes)
    → AllBytes xs
    → AllBytes ys
    → length xs ≡ length ys
    → bytes_to_bits_be xs ≡ bytes_to_bits_be ys
    → xs ≡ ys
unfolding bytes_to_bits_be
bytes_to_bits_be_injective [] [] p q l e = refl
bytes_to_bits_be_injective [] (y ∷ ys) p q l e = absurd (omega arith)
bytes_to_bits_be_injective (x ∷ xs) [] p q l e = absurd (omega arith)
bytes_to_bits_be_injective (x ∷ xs) (y ∷ ys) p q l e =
    let parts =
      append_split (bits_down x 8) (bits_down y 8) _ _
        (length-bits_down x 8 ∙ sym (length-bits_down y 8)) e in
    ap₂ ◌∷◌ (sym (be_value-bits_down x p.0) ∙ ap (be_value 0) parts.0 ∙ be_value-bits_down y q.0)
      (bytes_to_bits_be_injective xs ys p.1 q.1 (omega arith) parts.1)

module _ (f : PrimeField) where
  -- Different byte strings of one length have different packings, for every chunk size of 1 to
  -- 250 bits.
  pub compress_bytes_injective :
      (n : ℕ) (xs ys : Bytes)
      → 0 < n
      → n ≤ 250
      → AllBytes xs
      → AllBytes ys
      → length xs ≡ length ys
      → compress_bytes f xs n ≡ compress_bytes f ys n
      → xs ≡ ys
  compress_bytes_injective n xs ys p w bx by l e =
      let bits = bytes_to_bits_be xs in
      let bits' = bytes_to_bits_be ys in
      let same : length bits ≡ length bits' =
        omega (arith, length-bytes_to_bits_be xs, length-bytes_to_bits_be ys) in
      let packed : some (map (pack f) (chunks_loop (length bits) n bits))
          ≡ some (map (pack f) (chunks_loop (length bits') n bits')) =
        unfold pack in
        (sym (compress_bytes-of_nat f xs n p) ∙ e ∙ compress_bytes-of_nat f ys n p) in
      let inner : map (pack f) (chunks_loop (length bits) n bits)
          ≡ map (pack f) (chunks_loop (length bits') n bits') =
        cc in
      bytes_to_bits_be_injective xs ys bx by l (
        chunks_injective f (length bits) n bits bits' p w (omega arith) same
          (inner ∙ ap (λ (k : ℕ). map (pack f) (chunks_loop k n bits')) (sym same)))

bytes_to_bits_be-append :
    (xs ys : Bytes) → bytes_to_bits_be (xs ++ ys) ≡ bytes_to_bits_be xs ++ bytes_to_bits_be ys
unfolding bytes_to_bits_be
bytes_to_bits_be-append [] ys = refl
bytes_to_bits_be-append (x ∷ xs) ys =
    ap (◌++◌ (bits_down x 8)) (bytes_to_bits_be-append xs ys)
    ∙ sym (append_assoc (bits_down x 8) (bytes_to_bits_be xs) (bytes_to_bits_be ys))

le_value-zero_bytes :
    (bits : List Bool) (k : ℕ) → le_value (bits ++ bytes_to_bits_be (replicate k 0)) ≡ le_value bits
unfolding bytes_to_bits_be bits_down
le_value-zero_bytes [] zero = refl
le_value-zero_bytes [] (suc k) = omega (arith, le_value-zero_bytes [] k)
le_value-zero_bytes (b ∷ bits) k = omega (arith, le_value-zero_bytes bits k)

one_chunk :
    (n : ℕ) (bits : List Bool)
    → 0 < length bits
    → length bits ≤ n
    → chunks_loop (length bits) n bits ≡ bits ∷ []
one_chunk n [] h k = absurd (omega arith)
one_chunk n (b ∷ bits) h k = chunks_loop_one (length bits) n b bits k

module _ (f : PrimeField) where
  compress_one :
      (bytes : Bytes)
      → 0 < length bytes
      → length bytes ≤ 31
      → compress_bytes f bytes 250 ≡ some (f.of_nat (le_value (bytes_to_bits_be bytes)) ∷ [])
  compress_one bytes h k =
      compress_bytes-of_nat f bytes 250 (omega arith)
      ∙ ap (λ (cs : List (List Bool)). some (map (λ c. f.of_nat (le_value c)) cs))
          (one_chunk 250 (bytes_to_bits_be bytes) (omega (arith, length-bytes_to_bits_be bytes))
            (omega (arith, length-bytes_to_bits_be bytes)))

  -- The commitment does not bind the length: zero bytes added to a message of 1 to 31 bytes, up to
  -- 31 bytes in all, leave it unchanged.
  pub mimc_commit-zero_bytes :
      (bytes : Bytes) (k : ℕ)
      → 0 < length bytes
      → length bytes + k ≤ 31
      → mimc_commit f (bytes ++ replicate k 0) ≡ mimc_commit f bytes
  unfolding mimc_commit
  mimc_commit-zero_bytes bytes k h fits =
      ap
        (λ (o : Option (List (f.F))).
          o >>= λ state. get_elem? (permute_feistel f (mimc_bn254 f) state 1) 0)
        packed
    where
      packed : compress_bytes f (bytes ++ replicate k 0) 250 ≡ compress_bytes f bytes 250
      packed =
          compress_one (bytes ++ replicate k 0) (omega (arith, length-append bytes (replicate k 0)))
            (omega (arith, length-append bytes (replicate k 0), length-replicate {A = ℕ} k 0))
          ∙ ap (λ (v : ℕ). some (f.of_nat v ∷ []))
              (ap le_value (bytes_to_bits_be-append bytes (replicate k 0))
                ∙ le_value-zero_bytes (bytes_to_bits_be bytes) k)
          ∙ sym (compress_one bytes h (omega arith))
