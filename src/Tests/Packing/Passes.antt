-- ===== src/Tests/Packing/Passes.antt =====
-- The tests of the packing and of the commitments, on any bytes.
use zk_prompt.Base.{
  ℕ, ◌≤◌, ◌≡◌, refl, ap, ap₂, sym, ◌∙◌, Bool, true, some, List, [], ◌∷◌, ◌++◌, map, Bytes, length,
  AllBytes, arith, length-map, ◌==◌, ==_iff,
}
use zk_prompt.Base.Chunks.{chunks, chunks_loop, chunks_loop-map, AllShort, chunks_loop-AllShort}
use zk_prompt.Base.Outcome.{ok, >>=-eq-ok}
use zk_prompt.Field.{PrimeField}
use zk_prompt.Gadgets.{Gadgets, bits_be, map-u8_constant}
use zk_prompt.Commitment.{
  bits_down, bytes_to_bits_be, chunk_bits, compress_bytes, mimc_commit, cipher_commitment,
}
use zk_prompt.Circuit.{bits_loop, commit_var}
use zk_prompt.Circuit.Utils.{compress_var}
use zk_prompt.Circuit.Commit.{pack, compress_loop_lem, compress_var_lem, commit_var_lem}
use zk_prompt.Circuit.Meaning.{mimc_var, mimc_made, mimc_var-Holds, mimc_var_one}
use zk_prompt.Tests.Packing.{
  data_bytes, list_eq, test_compress, value_bits, same_loop, native_compress_matches_circuit,
  native_cipher_commitment_matches_circuit,
}
use zk_prompt.Tests.Fields.{FieldTests}
use zk_prompt.Tests.Packing.Bits.{data_bytes-chunks}

AllShort-le {ℓ} :
    {A : Type ℓ} (m n : ℕ) (cs : List (List A)) → m ≤ n → AllShort m cs → AllShort n cs
AllShort-le m n [] h k = tt
AllShort-le m n (c ∷ cs) h k = (omega (arith, h, k.0), AllShort-le m n cs h k.1)

module _ {f : PrimeField} (g : Gadgets f) (t : FieldTests f) where
  open g use {
    SynthesisError, Bit, U8, Fp, bit_value, u8_value, fp_value, bit_constant, u8_constant,
    fp_constant, fp_zero,
  }

  map-bit_constant : (bs : List Bool) → map bit_value (map bit_constant bs) ≡ bs
  map-bit_constant [] = refl
  map-bit_constant (b ∷ bs) = ap₂ ◌∷◌ (g.bit_value-constant b) (map-bit_constant bs)

  list_eq-same : (xs : List (f.F)) → list_eq (t.eq) xs xs ≡ true
  list_eq-same [] = refl
  list_eq-same (x ∷ xs) = rw ((t.eq_iff x x).1 refl, list_eq-same xs) refl

  -- For all bytes `test_compress` passes: 248 bits at a time, `compress_var` reads the number that
  -- 31 bytes are.
  pub test_compress_passes : (data' : Bytes) → AllBytes data' → test_compress g t data' ≡ ok tt
  unfolding test_compress compress_var chunks
  test_compress_passes data' h =
      let data_var = map bit_constant (data_bytes data') in
      let parts = chunks_loop (length data_var) 248 data_var in
      let (out, runs, values) = compress_loop_lem g parts [] (
        AllShort-le 248 250 parts (omega arith)
          (chunks_loop-AllShort (length data_var) 248 data_var)) in
      let expect = map (t.from_le_bytes_mod_order) (chunks_loop (length data') 31 data') in
      let same : map fp_value out ≡ expect =
        values
        ∙ ap (map (pack g)) (
            sym (chunks_loop-map bit_value (length data_var) 248 data_var)
            ∙ ap (chunks_loop (length data_var) 248) (map-bit_constant (data_bytes data')))
        ∙ data_bytes-chunks f t (length data_var) (length data') data'
            (omega (arith, length-map bit_constant (data_bytes data'))) (omega arith) h in
      rw runs (rw same (rw (list_eq-same expect) refl))

  value_bits_lem :
      (data' : Bytes) → AllBytes data' → value_bits g t data' ≡ ok (bytes_to_bits_be data')
  unfolding value_bits bytes_to_bits_be bits_down
  value_bits_lem [] h = refl
  value_bits_lem (byte ∷ data') h =
      let (bits, runs, values) = g.to_bits_be_lem (u8_constant byte) in
      let same : map bit_value bits ≡ bits_be byte =
        values ∙ ap bits_be (g.u8_value-constant byte h.0) in
      rw runs (
        rw (value_bits_lem data' h.1)
          (ap (λ (l : List Bool). ok (l ++ bytes_to_bits_be data')) same))

  same_loop-values : (out : List Fp) → same_loop g t out (map fp_value out) ≡ ok tt
  unfolding same_loop
  same_loop-values [] = refl
  same_loop-values (x ∷ out) =
      rw ((t.eq_iff (fp_value x) (fp_value x)).1 refl) (same_loop-values out)

  native_compress_passes :
      (data' : Bytes) → AllBytes data' → native_compress_matches_circuit g t data' ≡ ok tt
  unfolding native_compress_matches_circuit
  native_compress_passes data' h =
      let bits = bytes_to_bits_be data' in
      let constant = map-u8_constant g data' h in
      let (out, runs, packed) =
        compress_var_lem g (map u8_constant data') (map bit_constant bits)
          (map-bit_constant bits ∙ ap bytes_to_bits_be (sym constant)) in
      let native : compress_bytes f data' chunk_bits ≡ some (map fp_value out) =
        ap (λ (l : Bytes). compress_bytes f l chunk_bits) (sym constant) ∙ packed in
      let size : (length out == length (map fp_value out)) ≡ true =
        (==_iff (length out) (length (map fp_value out))).1 (sym (length-map fp_value out)) in
      rw (value_bits_lem data' h) (rw runs (rw native (rw size (same_loop-values out))))

  native_cipher_commitment_passes :
      (data' : Bytes) → AllBytes data' → native_cipher_commitment_matches_circuit g t data' ≡ ok tt
  unfolding native_cipher_commitment_matches_circuit cipher_commitment commit_var
  native_cipher_commitment_passes data' h =
      let vars = map u8_constant data' in
      let (x, runs, value) =
        commit_var_lem g (mimc_var g) vars (mimc_var-Holds g) (mimc_var_one g) in
      let native : mimc_commit f data' ≡ some (fp_value x) =
        ap (mimc_commit f) (sym (map-u8_constant g data' h)) ∙ value in
      let (bits, e1, later) = >>=-eq-ok (bits_loop g vars []) _ runs in
      let (compress, e2, last) = >>=-eq-ok (compress_var g bits 250) _ later in
      rw native (
        rw e1 (
          rw e2
            (rw (mimc_made g) (rw last (rw ((t.eq_iff (fp_value x) (fp_value x)).1 refl) refl)))))

  -- For all bytes the two tests that compare the circuit with the native code pass: the one of the
  -- packing, and the one of the commitment.
  pub natives_match_circuit :
      (data' : Bytes)
      → AllBytes data'
      → (native_compress_matches_circuit g t data' ≡ ok tt)
        × (native_cipher_commitment_matches_circuit g t data' ≡ ok tt)
  natives_match_circuit data' h =
      (native_compress_passes data' h, native_cipher_commitment_passes data' h)
