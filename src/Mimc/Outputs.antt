-- ===== src/Mimc/Outputs.antt =====
-- The number of outputs of the sponge.
use zk_prompt.Base.{
  ℕ, zero, suc, ◌+◌, ◌-◌, ◌≡◌, refl, false, List, [], ◌∷◌, ◌++◌, length, ◌==◌, if◌then◌else◌, arith,
  length-append,
}
use zk_prompt.Field.{PrimeField}
use zk_prompt.Mimc.{Mimc, feistel, squeeze_loop, permute_feistel, absorb_loop}

module _ (f : PrimeField) (m : Mimc f) where
  open f use {F, add}

  length-squeeze_loop :
      (left : ℕ) (x : F × F) (outputs : List F)
      → length (squeeze_loop f m left x outputs) ≡ length outputs + left
  unfolding squeeze_loop
  length-squeeze_loop zero x outputs = omega arith
  length-squeeze_loop (suc left) x outputs =
      let x' = feistel f m x in
      omega (
        arith,
        length-squeeze_loop left x' (outputs ++ x'.0 ∷ []),
        length-append outputs (x'.0 ∷ []),
      )

  head_squeeze_loop :
      (left : ℕ) (x : F × F) (o : F) (os : List F)
      → (rest : List F) × (squeeze_loop f m left x (o ∷ os) ≡ o ∷ rest)
  unfolding squeeze_loop
  head_squeeze_loop zero x o os = (os, refl)
  head_squeeze_loop (suc left) x o os =
      let x' = feistel f m x in head_squeeze_loop left x' o (os ++ x'.0 ∷ [])

  -- `permute_feistel` returns as many elements as asked for, and one if none are asked for, and
  -- its first element does not depend on that number: `[0]`, as `mimc_commit` takes it, is in range.
  pub permute_feistel_outputs :
      (state : List F) (n : ℕ)
      → (length (permute_feistel f m state n) ≡ (if n == 0 then 1 else n))
        × ((rest : List F) × (permute_feistel f m state n
              ≡ (absorb_loop f m state (f.zero, f.zero)).0 ∷ rest))
  unfolding permute_feistel
  permute_feistel_outputs state zero = (refl, ([], refl))
  permute_feistel_outputs state (suc zero) = (refl, ([], refl))
  permute_feistel_outputs state (suc (suc n)) =
      let x = absorb_loop f m state (f.zero, f.zero) in
      let some_out : (suc (suc n) == 0) ≡ false = ground arith in
      let more_out : (suc (suc n) == 1) ≡ false = ground arith in
      rw (some_out, more_out)
        (
          omega (arith, length-squeeze_loop (suc (suc n) - 1) x (x.0 ∷ [])),
          head_squeeze_loop (suc (suc n) - 1) x x.0 [],
        )
