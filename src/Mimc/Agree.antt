-- ===== src/Mimc/Agree.antt =====
-- The circuit of `MimcBn254Var` against the native `permute_feistel` of `MimcBn254`.
use zk_prompt.Base.{
  ℕ, zero, suc, ◌+◌, ◌-◌, ◌≡◌, refl, ap, ap₂, ◌∙◌, Bool, true, false, List, [], ◌∷◌, ◌++◌, map,
  get_or, ltb, ◌==◌, if◌then◌else◌,
}
use mathlib.Core.List.{map-append}
use zk_prompt.Field.{PrimeField}
use zk_prompt.Gadgets.{Gadgets}
use zk_prompt.Mimc
use zk_prompt.Mimc.{Mimc}
use zk_prompt.Mimc.Bn254.{mimc_bn254}
use zk_prompt.Mimc.Constraint
use zk_prompt.Mimc.Constraint.{MimcBn254Var}

module _ {f : PrimeField} (g : Gadgets f) where
  open g use {Fp, fp_zero, fp_one, fp_add, fp_mul, fp_value}

  -- The variable holds the constants of `MimcBn254`.
  pub record Holds (v : MimcBn254Var g) : Type 0 where
    pub key : fp_value v.k ≡ (mimc_bn254 f).k
    pub keys : map fp_value v.round_keys ≡ (mimc_bn254 f).keys

  abbrev pub values : Fp × Fp → f.F × f.F
  values x = (fp_value x.0, fp_value x.1)

  fp_value-get_or :
      (xs : List Fp) (i : ℕ) → fp_value (get_or xs i fp_zero) ≡ get_or (map fp_value xs) i (f.zero)
  fp_value-get_or [] i = g.fp_value-zero
  fp_value-get_or (x ∷ xs) zero = refl
  fp_value-get_or (x ∷ xs) (suc i) = fp_value-get_or xs i

  fp_value-pow_loop :
      (n : ℕ) (t tn : Fp)
      → fp_value (Constraint.pow_loop g n t tn) ≡ Mimc.pow_loop f n (fp_value t) (fp_value tn)
  unfolding Constraint.pow_loop Mimc.pow_loop
  fp_value-pow_loop zero t tn = refl
  fp_value-pow_loop (suc n) t tn = fp_value-pow_loop n t (fp_mul tn t) ∙ rw (g.fp_value-mul)

  values_if :
      (b : Bool) (p q : Fp) {p' : f.F}
      → fp_value p ≡ p'
      → values (if b then (p, q) else (q, p)) ≡ (if b then (p', fp_value q) else (fp_value q, p'))
  values_if true p q e = ap (λ (y : f.F). (y, fp_value q)) e
  values_if false p q e = ap (λ (y : f.F). (fp_value q, y)) e

  map_if :
      (b : Bool) (xs ys : List Fp) {xs' ys' : List (f.F)}
      → map fp_value xs ≡ xs'
      → map fp_value ys ≡ ys'
      → map fp_value (if b then xs else ys) ≡ (if b then xs' else ys')
  map_if true xs ys p q = p
  map_if false xs ys p q = q

  -- The outputs of `permute_feistel` after its first loop.
  abbrev outputs_of : ℕ → f.F × f.F → List (f.F)
  outputs_of n x =
      if n == 0
      then x.0 ∷ []
      else if n == 1
      then x.0 ∷ []
      else Mimc.squeeze_loop f (mimc_bn254 f) (n - 1) x (x.0 ∷ [])

  module _ (v : MimcBn254Var g) (h : Holds v) where
    round_input :
        (b : Bool) (i : ℕ) (l : Fp)
        → fp_value
            (if b then fp_add v.k l else fp_add (fp_add v.k l) (get_or v.round_keys i fp_zero))
          ≡ (if b
              then f.add (mimc_bn254 f).k (fp_value l)
              else f.add
                  (f.add (mimc_bn254 f).k (fp_value l))
                  (get_or (mimc_bn254 f).keys i (f.zero)))
    round_input true i l = rw (g.fp_value-add, h.key)
    round_input false i l =
        rw (g.fp_value-add) (rw (g.fp_value-add) (rw (h.key, fp_value-get_or, h.keys)))

    values-feistel_round :
        (i : ℕ) (x : Fp × Fp)
        → values (Constraint.feistel_round g v i x)
          ≡ Mimc.feistel_round f (mimc_bn254 f) i (values x)
    unfolding Constraint.feistel_round Mimc.feistel_round
    values-feistel_round i x = values_if (ltb i ((mimc_bn254 f).rounds - 1)) _ x.0 (
        g.fp_value-add x.1 _
        ∙ ap (f.add (fp_value x.1)) (
            fp_value-pow_loop (mimc_bn254 f).exponent _ fp_one
            ∙ ap₂ (Mimc.pow_loop f (mimc_bn254 f).exponent) (round_input (i == 0) i (x.0))
                g.fp_value-one))

    values-feistel_loop :
        (left i : ℕ) (x : Fp × Fp)
        → values (Constraint.feistel_loop g v left i x)
          ≡ Mimc.feistel_loop f (mimc_bn254 f) left i (values x)
    unfolding Constraint.feistel_loop Mimc.feistel_loop
    values-feistel_loop zero i x = refl
    values-feistel_loop (suc left) i x =
        values-feistel_loop left (i + 1) (Constraint.feistel_round g v i x)
        ∙ ap (Mimc.feistel_loop f (mimc_bn254 f) left (i + 1)) (values-feistel_round i x)

    values-feistel :
        (x : Fp × Fp) → values (Constraint.feistel g v x) ≡ Mimc.feistel f (mimc_bn254 f) (values x)
    unfolding Constraint.feistel Mimc.feistel
    values-feistel x = values-feistel_loop (mimc_bn254 f).rounds 0 x

    values-absorb_loop :
        (state : List Fp) (x : Fp × Fp)
        → values (Constraint.absorb_loop g v state x)
          ≡ Mimc.absorb_loop f (mimc_bn254 f) (map fp_value state) (values x)
    unfolding Constraint.absorb_loop Mimc.absorb_loop
    values-absorb_loop [] x = refl
    values-absorb_loop (s ∷ ss) x =
        values-absorb_loop ss (Constraint.feistel g v (fp_add x.0 s, x.1))
        ∙ ap (Mimc.absorb_loop f (mimc_bn254 f) (map fp_value ss)) (
            values-feistel (fp_add x.0 s, x.1)
            ∙ ap (λ (a : f.F). Mimc.feistel f (mimc_bn254 f) (a, fp_value x.1))
                (g.fp_value-add x.0 s))

    map-squeeze_loop :
        (left : ℕ) (x : Fp × Fp) (outputs : List Fp)
        → map fp_value (Constraint.squeeze_loop g v left x outputs)
          ≡ Mimc.squeeze_loop f (mimc_bn254 f) left (values x) (map fp_value outputs)
    unfolding Constraint.squeeze_loop Mimc.squeeze_loop
    map-squeeze_loop zero x outputs = refl
    map-squeeze_loop (suc left) x outputs =
        map-squeeze_loop left (Constraint.feistel g v x)
          (outputs ++ (Constraint.feistel g v x).0 ∷ [])
        ∙ ap
            (λ (out : List (f.F)).
              Mimc.squeeze_loop f (mimc_bn254 f) left (values (Constraint.feistel g v x)) out)
            (map-append fp_value outputs ((Constraint.feistel g v x).0 ∷ []))
        ∙ ap
            (λ (y : f.F × f.F).
              Mimc.squeeze_loop f (mimc_bn254 f) left y (map fp_value outputs ++ y.0 ∷ []))
            (values-feistel x)

    -- For every input and every number of outputs the values of the circuit's outputs are the
    -- outputs of `MimcBn254::permute_feistel` on the values of the inputs.
    pub map-generate_constraints :
        (state : List Fp)
        → map fp_value (Constraint.generate_constraints g v state)
          ≡ Mimc.permute_feistel f (mimc_bn254 f) (map fp_value state) v.num_outputs
    unfolding Constraint.generate_constraints Mimc.permute_feistel
    map-generate_constraints state =
        let x = Constraint.absorb_loop g v state (fp_zero, fp_zero) in
        let first : map fp_value (x.0 ∷ []) ≡ (values x).0 ∷ [] = refl in
        let more = map-squeeze_loop (v.num_outputs - 1) x (x.0 ∷ []) in
        map_if (v.num_outputs == 0) _ _ first (map_if (v.num_outputs == 1) _ _ first more)
        ∙ ap (outputs_of v.num_outputs) (
            values-absorb_loop state (fp_zero, fp_zero)
            ∙ ap (λ (z : f.F). Mimc.absorb_loop f (mimc_bn254 f) (map fp_value state) (z, z))
                g.fp_value-zero)
