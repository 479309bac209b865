-- ===== src/Circuit/Utils.antt =====
-- prover/src/utils/mod.rs.
use zk_prompt.Base.{ℕ, List, [], ◌∷◌, ◌++◌}
use zk_prompt.Base.Chunks.{chunks}
use zk_prompt.Base.Outcome.{Outcome, ok, ◌>>=◌, in_range}
use zk_prompt.Field.{PrimeField}
use zk_prompt.Gadgets.{Gadgets}

module _ {f : PrimeField} (g : Gadgets f) where
  open g use {SynthesisError, Cs, Bit, U8, Fp, u8_enforce_equal, le_bits_to_fp}

  -- `zip` ends with the shorter slice.
  unfoldable pub enforce_equals : List U8 → List U8 → Cs → Outcome SynthesisError Cs
  enforce_equals [] b cs = ok cs
  enforce_equals (v0 ∷ a) [] cs = ok cs
  enforce_equals (v0 ∷ a) (v1 ∷ b) cs = do cs' ← u8_enforce_equal v0 v1 cs; enforce_equals a b cs'

  unfoldable pub compress_loop : List (List Bit) → List Fp → Outcome SynthesisError (List Fp)
  compress_loop [] compress_vars = ok compress_vars
  compress_loop (chunk ∷ rest) compress_vars = do
    var ← le_bits_to_fp chunk
    compress_loop rest (compress_vars ++ var ∷ [])

  unfoldable pub compress_var : List Bit → ℕ → Outcome SynthesisError (List Fp)
  compress_var vars chunk_len = do parts ← in_range (chunks chunk_len vars); compress_loop parts []
