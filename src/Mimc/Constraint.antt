-- ===== src/Mimc/Constraint.antt =====
-- prover/src/mimc/bn254/constraint.rs: `MimcBn254Var`, the same sponge over circuit variables.
use zk_prompt.Base.{
  ℕ, zero, suc, ◌+◌, ◌-◌, Option, some, List, [], ◌∷◌, ◌++◌, get_or, length, ltb, ◌==◌,
  if◌then◌else◌,
}
use zk_prompt.Base.Partial.{◌>>◌, assert}
use zk_prompt.Field.{PrimeField}
use zk_prompt.Gadgets.{Gadgets}
use zk_prompt.Mimc.Bn254.{mimc_bn254}

module _ {f : PrimeField} (g : Gadgets f) where
  open g use {Fp, fp_zero, fp_one, fp_add, fp_mul}

  pub record MimcBn254Var : Type 0 where
    pub num_outputs : ℕ
    pub k : Fp
    pub round_keys : List Fp

  -- `MimcBn254Var::new`; the `assert_eq!` on the number of round keys is a panic.
  unfoldable pub new : ℕ → List Fp → Fp → Option MimcBn254Var
  new num_outputs round_keys k = do
    assert (length round_keys == (mimc_bn254 f).rounds)
    some (record { num_outputs = num_outputs; k = k; round_keys = round_keys })

  -- `(0..MimcBn254::exponent()).for_each(|_| tn = &tn * &t)`
  unfoldable pub pow_loop : ℕ → Fp → Fp → Fp
  pow_loop zero t tn = tn
  pow_loop (suc left) t tn = pow_loop left t (fp_mul tn t)

  -- The body of the loop of `feistel`, at round `i`. `new` has checked that `round_keys[i]` is in
  -- range.
  unfoldable pub feistel_round : MimcBn254Var → ℕ → Fp × Fp → Fp × Fp
  unfolding pow_loop
  feistel_round v i (x_l, x_r) =
      let t =
        if i == 0
        then fp_add v.k x_l
        else fp_add (fp_add v.k x_l) (get_or v.round_keys i fp_zero) in
      let tn = pow_loop (mimc_bn254 f).exponent t fp_one in
      if ltb i ((mimc_bn254 f).rounds - 1) then (fp_add x_r tn, x_l) else (x_l, fp_add x_r tn)

  unfoldable pub feistel_loop : MimcBn254Var → ℕ → ℕ → Fp × Fp → Fp × Fp
  feistel_loop v zero i x = x
  feistel_loop v (suc left) i x = feistel_loop v left (i + 1) (feistel_round v i x)

  unfoldable pub feistel : MimcBn254Var → Fp × Fp → Fp × Fp
  unfolding feistel_loop feistel_round
  feistel v x = feistel_loop v (mimc_bn254 f).rounds 0 x

  -- The first loop of `generate_constraints`.
  unfoldable pub absorb_loop : MimcBn254Var → List Fp → Fp × Fp → Fp × Fp
  absorb_loop v [] x = x
  absorb_loop v (s ∷ ss) x = absorb_loop v ss (feistel v (fp_add x.0 s, x.1))

  -- The second loop, with `left` outputs to go.
  unfoldable pub squeeze_loop : MimcBn254Var → ℕ → Fp × Fp → List Fp → List Fp
  squeeze_loop v zero x outputs = outputs
  squeeze_loop v (suc left) x outputs =
      let x' = feistel v x in squeeze_loop v left x' (outputs ++ x'.0 ∷ [])

  unfoldable pub generate_constraints : MimcBn254Var → List Fp → List Fp
  unfolding absorb_loop squeeze_loop feistel
  generate_constraints v state =
      let x = absorb_loop v state (fp_zero, fp_zero) in
      let outputs = x.0 ∷ [] in
      if v.num_outputs == 0
      then outputs
      else if v.num_outputs == 1
      then outputs
      else squeeze_loop v (v.num_outputs - 1) x outputs
