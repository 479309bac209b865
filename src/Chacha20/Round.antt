-- ===== src/Chacha20/Round.antt =====
-- prover/src/chacha20/round.rs.
use zk_prompt.Base.{ℕ, zero, suc, List, [], ◌∷◌, ◌++◌, length, ◌==◌}
use zk_prompt.Base.Outcome.{Outcome, ok, ◌>>=◌, ◌>>◌, assert}
use zk_prompt.Field.{PrimeField}
use zk_prompt.Gadgets.{Gadgets}
use zk_prompt.Chacha20.QuarterRound
use zk_prompt.Chacha20.QuarterRound.{QuarterRound}

module _ {f : PrimeField} (g : Gadgets f) where
  open g use {SynthesisError, U8, U32, wrapping_add, to_bytes_le}

  pub record Round : Type 0 where
    pub state_vars : List U32
    pub key_stream : List U8

  unfoldable pub new : List U32 → Outcome SynthesisError Round
  new state_vars = do
    assert (length state_vars == 16)
    ok (record { state_vars = state_vars; key_stream = [] })

  -- The body of the loop `for _ in 0..10`.
  unfoldable pub double_round : QuarterRound g → Outcome SynthesisError (QuarterRound g)
  unfolding QuarterRound.generate_constraints
  double_round q = do
    q ← QuarterRound.generate_constraints g q 0 4 8 12
    q ← QuarterRound.generate_constraints g q 1 5 9 13
    q ← QuarterRound.generate_constraints g q 2 6 10 14
    q ← QuarterRound.generate_constraints g q 3 7 11 15
    q ← QuarterRound.generate_constraints g q 0 5 10 15
    q ← QuarterRound.generate_constraints g q 1 6 11 12
    q ← QuarterRound.generate_constraints g q 2 7 8 13
    QuarterRound.generate_constraints g q 3 4 9 14

  unfoldable pub rounds_loop : ℕ → QuarterRound g → Outcome SynthesisError (QuarterRound g)
  rounds_loop zero q = ok q
  rounds_loop (suc left) q = do q' ← double_round q; rounds_loop left q'

  -- The loop over the two states side by side.
  unfoldable pub key_stream_loop : List U32 → List U32 → List U8 → Outcome SynthesisError (List U8)
  key_stream_loop [] afters key_stream = ok key_stream
  key_stream_loop (before ∷ befores) [] key_stream = ok key_stream
  key_stream_loop (before ∷ befores) (after ∷ afters) key_stream = do
    bytes ← to_bytes_le (wrapping_add before after)
    key_stream_loop befores afters (key_stream ++ bytes)

  unfoldable pub generate_constraints : Round → Outcome SynthesisError Round
  generate_constraints r = do
    q ← QuarterRound.new g r.state_vars
    q' ← rounds_loop 10 q
    key_stream ← key_stream_loop r.state_vars q'.state_vars []
    ok (record r { key_stream = key_stream })
