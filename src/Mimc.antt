-- ===== src/Mimc.antt =====
-- prover/src/mimc/mod.rs: the trait `MiMC`, its permutation and sponge over any field. The trait's
-- parameters ROUNDS and EXPONENT and its constants K and ROUND_KEYS are the fields of `Mimc`.
pub mod RoundKeys
pub mod Bn254
pub mod Outputs
pub mod Reference
pub mod Constraint
pub mod Agree
use zk_prompt.Base.{
  ℕ, zero, suc, ◌+◌, ◌-◌, Bool, List, [], ◌∷◌, ◌++◌, get_or, ltb, ◌==◌, if◌then◌else◌,
}
use zk_prompt.Field.{PrimeField}

pub record Mimc (f : PrimeField) : Type 0 where
  pub rounds : ℕ
  pub exponent : ℕ
  pub k : f.F
  -- An array of `rounds` elements, so that `keys[i]` is in range in the loop over `0..rounds`.
  pub keys : List (f.F)

module _ (f : PrimeField) where
  open f use {F, add, mul, zero as fp_zero, one}

  -- `(0..EXPONENT).for_each(|_| tn *= t)`
  unfoldable pub pow_loop : ℕ → F → F → F
  pow_loop zero t tn = tn
  pow_loop (suc left) t tn = pow_loop left t (mul tn t)

  -- The body of the loop of `feistel`, at round `i`.
  unfoldable pub feistel_round : Mimc f → ℕ → F × F → F × F
  unfolding pow_loop
  feistel_round m i (x_l, x_r) =
      let t = if i == 0 then add m.k x_l else add (add m.k x_l) (get_or m.keys i fp_zero) in
      let tn = pow_loop m.exponent t one in
      if ltb i (m.rounds - 1) then (add x_r tn, x_l) else (x_l, add x_r tn)

  -- The rounds from `i` on, with `left` of them to go.
  unfoldable pub feistel_loop : Mimc f → ℕ → ℕ → F × F → F × F
  feistel_loop m zero i x = x
  feistel_loop m (suc left) i x = feistel_loop m left (i + 1) (feistel_round m i x)

  unfoldable pub feistel : Mimc f → F × F → F × F
  unfolding feistel_loop feistel_round
  feistel m x = feistel_loop m m.rounds 0 x

  -- The first loop of `permute_feistel`.
  unfoldable pub absorb_loop : Mimc f → List F → F × F → F × F
  absorb_loop m [] x = x
  absorb_loop m (s ∷ ss) x = absorb_loop m ss (feistel m (add x.0 s, x.1))

  -- The second loop, with `left` outputs to go.
  unfoldable pub squeeze_loop : Mimc f → ℕ → F × F → List F → List F
  squeeze_loop m zero x outputs = outputs
  squeeze_loop m (suc left) x outputs =
      let x' = feistel m x in squeeze_loop m left x' (outputs ++ x'.0 ∷ [])

  unfoldable pub permute_feistel : Mimc f → List F → ℕ → List F
  unfolding absorb_loop squeeze_loop feistel
  permute_feistel m state num_outputs =
      let x = absorb_loop m state (fp_zero, fp_zero) in
      let outputs = x.0 ∷ [] in
      if num_outputs == 0
      then outputs
      else if num_outputs == 1
      then outputs
      else squeeze_loop m (num_outputs - 1) x outputs
