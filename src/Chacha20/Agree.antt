-- ===== src/Chacha20/Agree.antt =====
-- The whole circuit against the reference cipher.
use mathlib.Core.List.{map-append}
use zk_prompt.Base.{
  ℕ, ◌+◌, ◌%◌, ◌^◌, ◌≡◌, refl, ap, ap₂, sym, ◌∙◌, List, [], ◌∷◌, ◌++◌, true, map, length, get_elem?,
  set, ◌==◌, arith, append-nil, append_assoc, Bytes, some, length-append, length-map,
  get_elem?-append, set-append,
}
use zk_prompt.Base.Chunks.{chunks, chunks_loop, chunks_loop-map}
use zk_prompt.Base.Outcome.{ok}
use zk_prompt.Chacha20
use zk_prompt.Field.{PrimeField}
use zk_prompt.Gadgets.{Gadgets}
use zk_prompt.Chacha20.Reference.{block, xor_bytes, initial, encrypt_blocks, chacha20}
use zk_prompt.Chacha20.Rounds.{round_lem}

module _ {f : PrimeField} (g : Gadgets f) where
  open g use {U8, U32, u8_value, u32_value, wrapping_add, u32_constant, u8_xor}

  xor_loop_lem :
      (ms ks out : List U8)
      → map u8_value (Chacha20.xor_loop g ms ks out)
        ≡ map u8_value out ++ xor_bytes (map u8_value ms) (map u8_value ks)
  unfolding Chacha20.xor_loop xor_bytes
  xor_loop_lem [] ks out = sym (append-nil _)
  xor_loop_lem (m ∷ ms) [] out = sym (append-nil _)
  xor_loop_lem (m ∷ ms) (k ∷ ks) out =
      xor_loop_lem ms ks (out ++ u8_xor k m ∷ [])
      ∙ ap (λ (l : Bytes). l ++ xor_bytes (map u8_value ms) (map u8_value ks))
          (map-append u8_value out (u8_xor k m ∷ [])
            ∙ ap (λ (b : ℕ). map u8_value out ++ b ∷ []) (g.u8_value-xor k m))
      ∙ append_assoc (map u8_value out) _ _

  -- The counter is word 12.
  module _ (constants key nonce : List U32) (counter : U32) (lc : length constants ≡ 4)
      (lk : length key ≡ 8) (ln : length nonce ≡ 3) where
    twelve : length (constants ++ key) ≡ 12
    twelve = omega (arith, length-append constants key)

    joined : (c : U32) → (constants ++ key) ++ c ∷ nonce ≡ constants ++ (key ++ c ∷ nonce)
    joined c = append_assoc constants key (c ∷ nonce)

    state_size : length (constants ++ (key ++ counter ∷ nonce)) ≡ 16
    state_size = omega (
      arith,
      length-append constants (key ++ counter ∷ nonce),
      length-append key (counter ∷ nonce),
    )

    counter_at : get_elem? (constants ++ (key ++ counter ∷ nonce)) 12 ≡ some counter
    counter_at =
        ap₂ (λ (l : List U32) (i : ℕ). get_elem? l i) (sym (joined counter)) (sym twelve)
        ∙ get_elem?-append (constants ++ key) nonce counter

    counter_set :
        (c : U32)
        → set (constants ++ (key ++ counter ∷ nonce)) 12 c ≡ constants ++ (key ++ c ∷ nonce)
    counter_set c =
        ap₂ (λ (l : List U32) (i : ℕ). set l i c) (sym (joined counter)) (sym twelve)
        ∙ set-append (constants ++ key) nonce counter c
        ∙ joined c

    map_state :
        (n : ℕ)
        → u32_value counter ≡ n % 2 ^ 32
        → map u32_value (constants ++ (key ++ counter ∷ nonce))
          ≡ initial (map u32_value constants) (map u32_value key) n (map u32_value nonce)
    map_state n e =
        map-append u32_value constants (key ++ counter ∷ nonce)
        ∙ ap (◌++◌ (map u32_value constants)) (
            map-append u32_value key (counter ∷ nonce)
            ∙ ap (λ (k : ℕ). map u32_value key ++ k ∷ map u32_value nonce) e)

  -- The counter wraps at 2^32, as the block number of the reference does.
  chunk_loop_lem :
      (parts : List (List U8)) (constants key nonce : List U32) (counter : U32) (n : ℕ)
      (out : List U8)
      → length constants ≡ 4
      → length key ≡ 8
      → length nonce ≡ 3
      → u32_value counter ≡ n % 2 ^ 32
      → (os : List U8) × (Chacha20.chunk_loop g parts (constants ++ (key ++ (counter ∷ nonce))) out
          ≡ ok os)
        × (map u8_value os
            ≡ map u8_value out
              ++ encrypt_blocks
                  (map u32_value constants)
                  (map u32_value key)
                  (map u32_value nonce)
                  n
                  (map (map u8_value) parts))
  unfolding Chacha20.chunk_loop encrypt_blocks
  chunk_loop_lem [] constants key nonce counter n out lc lk ln e = (out, refl, sym (append-nil _))
  chunk_loop_lem (p ∷ parts) constants key nonce counter n out lc lk ln e =
      let state = constants ++ (key ++ counter ∷ nonce) in
      let (r, made, ran, stream) =
        round_lem g state (state_size constants key nonce counter lc lk ln) in
      let next = wrapping_add counter (u32_constant 1) in
      let next_value : u32_value next ≡ (n + 1) % 2 ^ 32 =
        omega
          (arith, g.u32_value-add counter (u32_constant 1), g.u32_value-constant 1 (omega arith)) in
      let out' = Chacha20.xor_loop g p r.key_stream out in
      let (os, runs, values) =
        chunk_loop_lem parts constants key nonce next (n + 1) out' lc lk ln next_value in
      (
        os,
        rw made (
            rw ran (
              rw (counter_at constants key nonce counter lc lk ln)
                (rw (counter_set constants key nonce counter lc lk ln next) runs))),
        values
            ∙ ap
                (λ (l : Bytes).
                  l
                  ++ encrypt_blocks (map u32_value constants) (map u32_value key)
                      (map u32_value nonce) (n + 1) (map (map u8_value) parts))
                (xor_loop_lem p r.key_stream out
                  ∙ ap (λ (ks : Bytes). map u8_value out ++ xor_bytes (map u8_value p) ks)
                      (stream ∙ ap block (map_state constants key nonce counter lc lk ln n e)))
            ∙ append_assoc (map u8_value out) _ _,
      )

  whole :
      (constants key nonce : List U32) (c : U32)
      → ((constants ++ key) ++ c ∷ []) ++ nonce ≡ constants ++ (key ++ c ∷ nonce)
  whole constants key nonce c =
      append_assoc (constants ++ key) (c ∷ []) nonce ∙ append_assoc constants key (c ∷ nonce)

  -- With 4 constants, 8 key words and 3 nonce words of any values, `ChaCha20Var::new` and
  -- `generate_constraints` succeed for every input, and the values of `output_vars` are the
  -- ChaCha20 encryption of the values of the input, the first block's number being the counter.
  pub generate_constraints-chacha20 :
      (constants key nonce : List U32) (counter : U32) (input : List U8)
      → length constants ≡ 4
      → length key ≡ 8
      → length nonce ≡ 3
      → (c c' : Chacha20.ChaCha20Var g) × (Chacha20.new g constants key nonce counter input ≡ ok c)
        × (Chacha20.generate_constraints g c ≡ ok c')
        × (map u8_value c'.output_vars
            ≡ chacha20
                (map u32_value constants)
                (map u32_value key)
                (map u32_value nonce)
                (u32_value counter)
                (map u8_value input))
  unfolding Chacha20.new Chacha20.generate_constraints chacha20 chunks
  generate_constraints-chacha20 constants key nonce counter input lc lk ln =
      let wrapped : u32_value counter ≡ u32_value counter % 2 ^ 32 =
        omega (arith, g.u32_value-lt counter) in
      let (os, runs, values) =
        chunk_loop_lem (chunks_loop (length input) 64 input) constants key nonce counter
          (u32_value counter) [] lc lk ln wrapped in
      let four : (length constants == 4) ≡ true = ground arith in
      let eight : (length key == 8) ≡ true = ground arith in
      let three : (length nonce == 3) ≡ true = ground arith in
      (
        record {
          qr_constant_vars = constants;
          key_vars = key;
          nonce_vars = nonce;
          count_var = counter;
          input_vars = input;
          output_vars = [];
        },
        record {
          qr_constant_vars = constants;
          key_vars = key;
          nonce_vars = nonce;
          count_var = counter;
          input_vars = input;
          output_vars = os;
        },
        rw (four, eight, three),
        rw (whole constants key nonce counter) (rw runs),
        values
            ∙ ap
                (encrypt_blocks (map u32_value constants) (map u32_value key) (map u32_value nonce)
                  (u32_value counter))
                (sym (chunks_loop-map u8_value (length input) 64 input)
                  ∙ ap (λ (k : ℕ). chunks_loop k 64 (map u8_value input))
                      (sym (length-map u8_value input))),
      )
