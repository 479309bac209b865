-- ===== src/Circuit/Commit.antt =====
-- The commitments of the circuit against the native ones.
use mathlib.Core.List.{map-append}
use zk_prompt.Base.{
  ℕ, ◌≡◌, refl, ap, sym, ◌∙◌, Bool, List, [], ◌∷◌, ◌++◌, map, length, get_elem?, arith, append-nil,
  append_assoc, Option, some, length-map,
}
use zk_prompt.Base.Chunks.{chunks, chunks_loop, chunks_loop-map, AllShort, chunks_loop-AllShort}
use zk_prompt.Base.Partial
use zk_prompt.Base.Outcome.{ok}
use zk_prompt.Field.{PrimeField}
use zk_prompt.Gadgets.{Gadgets, le_value}
use zk_prompt.Mimc.{permute_feistel}
use zk_prompt.Mimc.Outputs.{permute_feistel_outputs}
use zk_prompt.Mimc.Bn254.{mimc_bn254}
use zk_prompt.Mimc.Constraint
use zk_prompt.Mimc.Constraint.{MimcBn254Var}
use zk_prompt.Mimc.Agree.{Holds, map-generate_constraints}
use zk_prompt.Commitment.{bits_down, bytes_to_bits_be, mimc_commit, compress_bytes}
use zk_prompt.Commitment.Pack.{compress_bytes-of_nat}
use zk_prompt.Circuit.Utils.{compress_loop, compress_var}
use zk_prompt.Circuit.{bits_loop, commit_var}

module _ {f : PrimeField} (g : Gadgets f) where
  open g use {SynthesisError, Cs, Bit, U8, Fp, bit_value, u8_value, fp_value}

  bits_loop_lem :
      (ps : List U8) (bits : List Bit)
      → (out : List Bit) × (bits_loop g ps bits ≡ ok out)
        × (map bit_value out ≡ map bit_value bits ++ bytes_to_bits_be (map u8_value ps))
  unfolding bits_loop bytes_to_bits_be bits_down
  bits_loop_lem [] bits = (bits, refl, sym (append-nil _))
  bits_loop_lem (p ∷ ps) bits =
      let (bs, runs, values) = g.to_bits_be_lem p in
      let (out, runs', values') = bits_loop_lem ps (bits ++ bs) in
      (
        out,
        rw runs runs',
        values'
            ∙ ap (λ (l : List Bool). l ++ bytes_to_bits_be (map u8_value ps))
                (map-append bit_value bits bs ∙ ap (◌++◌ (map bit_value bits)) values)
            ∙ append_assoc (map bit_value bits) _ _,
      )

  abbrev pub pack : List Bool → f.F
  pack c = f.of_nat (le_value c)

  pub compress_loop_lem :
      (parts : List (List Bit)) (vars : List Fp)
      → AllShort 250 parts
      → (out : List Fp) × (compress_loop g parts vars ≡ ok out)
        × (map fp_value out ≡ map fp_value vars ++ map pack (map (map bit_value) parts))
  unfolding compress_loop
  compress_loop_lem [] vars h = (vars, refl, sym (append-nil _))
  compress_loop_lem (c ∷ parts) vars h =
      let (x, runs, value) = g.le_bits_to_fp_lem c h.0 in
      let (out, runs', values') = compress_loop_lem parts (vars ++ x ∷ []) h.1 in
      (
        out,
        rw runs runs',
        values'
            ∙ ap (λ (l : List (f.F)). l ++ map pack (map (map bit_value) parts))
                (map-append fp_value vars (x ∷ [])
                  ∙ ap (λ (y : f.F). map fp_value vars ++ y ∷ []) value)
            ∙ append_assoc (map fp_value vars) _ _,
      )

  -- `compress_var` in chunks of 250 bits computes `compress_bytes`.
  pub compress_var_lem :
      (ps : List U8) (bits : List Bit)
      → map bit_value bits ≡ bytes_to_bits_be (map u8_value ps)
      → (out : List Fp) × (compress_var g bits 250 ≡ ok out)
        × (compress_bytes f (map u8_value ps) 250 ≡ some (map fp_value out))
  unfolding compress_var chunks
  compress_var_lem ps bits e =
      let parts = chunks_loop (length bits) 250 bits in
      let (out, runs, values) =
        compress_loop_lem parts [] (chunks_loop-AllShort (length bits) 250 bits) in
      (
        out,
        runs,
        compress_bytes-of_nat f (map u8_value ps) 250 (omega arith)
            ∙ ap (λ (l : List Bool). some (map pack (chunks_loop (length l) 250 l))) (sym e)
            ∙ ap some (
                ap (λ (k : ℕ). map pack (chunks_loop k 250 (map bit_value bits)))
                  (length-map bit_value bits)
                ∙ ap (map pack) (chunks_loop-map bit_value (length bits) 250 bits)
                ∙ sym values),
      )

  pub first_value :
      (xs : List Fp) (y : f.F) (ys : List (f.F))
      → map fp_value xs ≡ y ∷ ys
      → (x : Fp) × (get_elem? xs 0 ≡ some x) × (fp_value x ≡ y)
  first_value [] y ys e = cc
  first_value (x ∷ xs) y ys e = (x, refl, cc)

  -- For every byte string the circuit's commitment is computed, and its value is the native
  -- commitment to the values of the bytes, which does not panic.
  pub commit_var_lem :
      (v : MimcBn254Var g) (ps : List U8)
      → Holds g v
      → v.num_outputs ≡ 1
      → (x : Fp) × (commit_var g v ps ≡ ok x)
        × (mimc_commit f (map u8_value ps) ≡ some (fp_value x))
  unfolding commit_var mimc_commit
  commit_var_lem v ps h one =
      let m = mimc_bn254 f in
      let (bits, runs, values) = bits_loop_lem ps [] in
      let (out, runs', packed) = compress_var_lem ps bits values in
      let state = map fp_value out in
      let (rest, shape) = (permute_feistel_outputs f m state 1).1 in
      let outputs =
        map-generate_constraints g v h out ∙ ap (permute_feistel f m state) one ∙ shape in
      let (x, first, value) =
        first_value (Constraint.generate_constraints g v out) _ rest outputs in
      (
        x,
        rw runs (rw runs' (rw first)),
        ap
              (λ (o : Option (List (f.F))).
                Partial.◌>>=◌ o (λ st. get_elem? (permute_feistel f m st 1) 0))
              packed
            ∙ ap (λ (l : List (f.F)). get_elem? l 0) shape
            ∙ ap some (sym value),
      )
