-- ===== src/Tests/Packing/Bits.antt =====
-- The bits of bytes in chunks of 248, against the bytes in chunks of 31.
use native.Mathlib.Decide.{dec_le}
use zk_prompt.Base.{
  ℕ, zero, suc, ◌+◌, ◌*◌, ◌/◌, ◌%◌, ◌^◌, ◌≤◌, ◌<◌, ◌≡◌, refl, ap, ap₂, sym, ◌∙◌, Bool, Bool-cases,
  inl, inr, List, [], ◌∷◌, ◌++◌, map, Bytes, length, take, drop, AllBytes, AllBytes-take,
  AllBytes-drop, arith, append_assoc, length-take, length-drop, take-append, drop-append, take_all,
  drop_all, take-append-drop, ==_iff, if◌then◌else◌,
}
use zk_prompt.Base.Chunks.{chunks_loop, chunks_loop-nil, chunks_loop-step}
use zk_prompt.Field.{PrimeField}
use zk_prompt.Gadgets.{le_value}
use zk_prompt.Commitment.{bit_is_set}
use zk_prompt.Tests.Packing.{u8_to_le_bits, data_bytes}
use zk_prompt.Tests.Fields.{FieldTests, le_number}

bit_number : (n i : ℕ) → (if bit_is_set n i then 1 else 0) ≡ n / 2 ^ i % 2
bit_number n i = elim (Bool-cases (bit_is_set n i)) [
  | inl set ↦ rw set (omega (arith, (==_iff (n / 2 ^ i % 2) 1).0 set))
  | inr clear ↦ rw clear (ground (arith, clear))
]

abbrev bit : ℕ → ℕ → ℕ
bit n i = if bit_is_set n i then 1 else 0

u8_to_le_bits-value :
    (x : ℕ) (rest : List Bool)
    → x < 256
    → le_value (u8_to_le_bits x ++ rest) ≡ x + 256 * le_value rest
unfolding u8_to_le_bits
u8_to_le_bits-value x rest h = omega (
  arith,
  h,
  bit_number x 0,
  bit_number x 1,
  bit_number x 2,
  bit_number x 3,
  bit_number x 4,
  bit_number x 5,
  bit_number x 6,
  bit_number x 7,
)

data_bytes-value : (bs : Bytes) → AllBytes bs → le_value (data_bytes bs) ≡ le_number bs
unfolding data_bytes
data_bytes-value [] h = refl
data_bytes-value (b ∷ bs) h =
    u8_to_le_bits-value b (data_bytes bs) h.0
    ∙ ap (λ (n : ℕ). b + 256 * n) (data_bytes-value bs h.1)

length-data_bytes : (bs : Bytes) → length (data_bytes bs) ≡ 8 * length bs
unfolding data_bytes u8_to_le_bits
length-data_bytes [] = refl
length-data_bytes (b ∷ bs) = omega (arith, length-data_bytes bs)

data_bytes-append : (xs ys : Bytes) → data_bytes (xs ++ ys) ≡ data_bytes xs ++ data_bytes ys
unfolding data_bytes
data_bytes-append [] ys = refl
data_bytes-append (x ∷ xs) ys =
    ap (◌++◌ (u8_to_le_bits x)) (data_bytes-append xs ys)
    ∙ sym (append_assoc (u8_to_le_bits x) (data_bytes xs) (data_bytes ys))

-- A chunk of 248 bits is a chunk of 31 bytes.
cut_bits :
    (bs : Bytes)
    → (take 248 (data_bytes bs) ≡ data_bytes (take 31 bs))
      × (drop 248 (data_bytes bs) ≡ data_bytes (drop 31 bs))
unfolding data_bytes
cut_bits bs = elim (dec_le 31 (length bs)) [
  | yes full ↦
      let front = data_bytes (take 31 bs) in
      let back = data_bytes (drop 31 bs) in
      let whole : data_bytes bs ≡ front ++ back =
        ap data_bytes (sym (take-append-drop 31 bs))
        ∙ data_bytes-append (take 31 bs) (drop 31 bs) in
      let size : 248 ≡ length front =
        omega (arith, length-data_bytes (take 31 bs), length-take 31 bs) in
      (ap₂ take size whole ∙ take-append front back, ap₂ drop size whole ∙ drop-append front back)
  | no last ↦
      let short : length (data_bytes bs) ≤ 248 = omega (arith, length-data_bytes bs) in
      (
        take_all 248 (data_bytes bs) short ∙ ap data_bytes (sym (take_all 31 bs (omega arith))),
        drop_all 248 (data_bytes bs) short ∙ ap data_bytes (sym (drop_all 31 bs (omega arith))),
      )
]

nothing : data_bytes [] ≡ []
unfolding data_bytes
nothing = refl

module _ (f : PrimeField) (t : FieldTests f) where
  abbrev pack : List Bool → f.F
  pack c = f.of_nat (le_value c)

  -- Packed, a chunk of bits is the number of the chunk of bytes.
  pub data_bytes-chunks :
      (fuel fuel' : ℕ) (bs : Bytes)
      → length (data_bytes bs) ≤ fuel
      → length bs ≤ fuel'
      → AllBytes bs
      → map pack (chunks_loop fuel 248 (data_bytes bs))
        ≡ map (t.from_le_bytes_mod_order) (chunks_loop fuel' 31 bs)
  data_bytes-chunks fuel fuel' [] h h' b =
      ap (map pack) (ap (chunks_loop fuel 248) nothing ∙ chunks_loop-nil fuel 248)
      ∙ ap (map (t.from_le_bytes_mod_order)) (sym (chunks_loop-nil fuel' 31))
  data_bytes-chunks zero fuel' (x ∷ bs) h h' b = absurd (omega (arith, length-data_bytes (x ∷ bs)))
  data_bytes-chunks (suc fuel) zero (x ∷ bs) h h' b = absurd (omega arith)
  data_bytes-chunks (suc fuel) (suc fuel') (x ∷ bs) h h' b =
      let (front, back) = cut_bits (x ∷ bs) in
      let first = take 31 (x ∷ bs) in
      let later = drop 31 (x ∷ bs) in
      let room : length (data_bytes later) ≤ fuel =
        omega
          (arith, length-data_bytes later, length-data_bytes (x ∷ bs), length-drop 31 (x ∷ bs)) in
      let bytes = AllBytes-take 31 (x ∷ bs) b in
      let same : f.of_nat (le_value (data_bytes first)) ≡ t.from_le_bytes_mod_order first =
        ap (f.of_nat) (data_bytes-value first bytes)
        ∙ sym (t.from_le_bytes_mod_order_lem first bytes) in
      ap (map pack) (
        chunks_loop-step fuel 248 (data_bytes (x ∷ bs)) (omega (arith, length-data_bytes (x ∷ bs)))
        ∙ ap₂ (λ (c rest : List Bool). c ∷ chunks_loop fuel 248 rest) front back)
      ∙ ap₂ ◌∷◌ same (
          data_bytes-chunks fuel fuel' later room (omega (arith, length-drop 31 (x ∷ bs)))
            (AllBytes-drop 31 (x ∷ bs) b))
      ∙ ap (map (t.from_le_bytes_mod_order))
          (sym (chunks_loop-step fuel' 31 (x ∷ bs) (omega arith)))
