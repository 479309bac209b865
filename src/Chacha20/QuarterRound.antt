-- ===== src/Chacha20/QuarterRound.antt =====
-- prover/src/chacha20/quarter_round.rs.
use zk_prompt.Base.{ℕ, List, length, get_elem?, set, ◌==◌}
use zk_prompt.Base.Outcome.{Outcome, ok, ◌>>=◌, ◌>>◌, assert, in_range}
use zk_prompt.Field.{PrimeField}
use zk_prompt.Gadgets.{Gadgets}

module _ {f : PrimeField} (g : Gadgets f) where
  open g use {SynthesisError, U32, wrapping_add, u32_xor, u32_rotate_left}

  pub record QuarterRound : Type 0 where
    pub state_vars : List U32

  unfoldable pub new : List U32 → Outcome SynthesisError QuarterRound
  new state_vars = do assert (length state_vars == 16); ok (record { state_vars = state_vars })

  -- `state[i] = op(state[j], state[k])`
  abbrev pub assign : (U32 → U32 → U32) → ℕ → ℕ → ℕ → List U32 → Outcome SynthesisError (List U32)
  assign op i j k state = do
    x ← in_range (get_elem? state j)
    y ← in_range (get_elem? state k)
    ok (set state i (op x y))

  -- `state[i] = state[i].rotate_left(n)`
  abbrev pub rotate : ℕ → ℕ → List U32 → Outcome SynthesisError (List U32)
  rotate i n state = do x ← in_range (get_elem? state i); ok (set state i (u32_rotate_left x n))

  unfoldable pub generate_constraints :
      QuarterRound → ℕ → ℕ → ℕ → ℕ → Outcome SynthesisError QuarterRound
  generate_constraints q a b c d = do
    s ← assign wrapping_add a a b q.state_vars
    s ← assign u32_xor d d a s
    s ← rotate d 16 s
    s ← assign wrapping_add c c d s
    s ← assign u32_xor b b c s
    s ← rotate b 12 s
    s ← assign wrapping_add a a b s
    s ← assign u32_xor d a d s
    s ← rotate d 8 s
    s ← assign wrapping_add c c d s
    s ← assign u32_xor b c b s
    s ← rotate b 7 s
    ok (record { state_vars = s })
