-- ===== src/Chacha20.antt =====
-- prover/src/chacha20: the ChaCha20 circuit. quarter_round.rs and round.rs are in QuarterRound and
-- Round, mod.rs is here; Reference is the cipher over numbers, and Agree relates the two.
pub mod QuarterRound
pub mod Round
pub mod Reference
pub mod Quarters
pub mod Laws
pub mod Rounds
pub mod Agree
pub mod Consistent
use zk_prompt.Base.{
  ℕ, ◌+◌, Bool, List, [], ◌∷◌, ◌++◌, length, get_elem?, set, ◌==◌, if◌then◌else◌, map, Bytes,
}
use zk_prompt.Base.Text.{str_eq}
use zk_prompt.Base.Chunks.{chunks}
use zk_prompt.Base.Outcome.{Outcome, ok, err, panic, ◌>>=◌, ◌>>◌, assert, in_range}
use zk_prompt.Field.{PrimeField}
use zk_prompt.Gadgets.{Gadgets}

module _ {f : PrimeField} (g : Gadgets f) where
  open g use {SynthesisError, U8, U32, wrapping_add, u32_constant, u8_xor}

  pub record ChaCha20Var : Type 0 where
    pub qr_constant_vars : List U32
    pub key_vars : List U32
    pub nonce_vars : List U32
    pub count_var : U32
    pub input_vars : List U8
    pub output_vars : List U8

  unfoldable pub new :
      List U32 → List U32 → List U32 → U32 → List U8 → Outcome SynthesisError ChaCha20Var
  new qr_constant_vars key_vars nonce_vars count_var input_vars = do
    assert (length qr_constant_vars == 4)
    assert (length key_vars == 8)
    assert (length nonce_vars == 3)
    ok (record {
      qr_constant_vars = qr_constant_vars;
      key_vars = key_vars;
      nonce_vars = nonce_vars;
      count_var = count_var;
      input_vars = input_vars;
      output_vars = [];
    })

  -- `for (msg, key) in chunk_vars.iter().zip(round.key_stream.iter())`
  unfoldable pub xor_loop : List U8 → List U8 → List U8 → List U8
  xor_loop [] keys cipher_vars = cipher_vars
  xor_loop (msg ∷ msgs) [] cipher_vars = cipher_vars
  xor_loop (msg ∷ msgs) (key ∷ keys) cipher_vars =
      xor_loop msgs keys (cipher_vars ++ u8_xor key msg ∷ [])

  -- The loop over the chunks of 64 bytes, with the state and the output so far.
  unfoldable pub chunk_loop : List (List U8) → List U32 → List U8 → Outcome SynthesisError (List U8)
  chunk_loop [] state_vars cipher_vars = ok cipher_vars
  chunk_loop (chunk_vars ∷ rest) state_vars cipher_vars = do
    round ← Round.new g state_vars
    round' ← Round.generate_constraints g round
    counter ← in_range (get_elem? state_vars 12)
    chunk_loop rest (set state_vars 12 (wrapping_add counter (u32_constant 1)))
        (xor_loop chunk_vars round'.key_stream cipher_vars)

  unfoldable pub generate_constraints : ChaCha20Var → Outcome SynthesisError ChaCha20Var
  generate_constraints c = do
    let state_vars = c.qr_constant_vars ++ c.key_vars ++ c.count_var ∷ [] ++ c.nonce_vars
    parts ← in_range (chunks 64 c.input_vars)
    cipher_vars ← chunk_loop parts state_vars []
    ok (record c { output_vars = cipher_vars })

  -- The `assert_eq!` on the values of the output.
  unfoldable pub consistency_check : ChaCha20Var → Bytes → Outcome SynthesisError (Unit {0})
  consistency_check c expect = assert (str_eq (map g.u8_value c.output_vars) expect)
