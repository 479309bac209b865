-- ===== src/Tests/Mimc.antt =====
-- The modules `test` of prover/src/mimc/bn254: `test_mimc` of mod.rs, which is one run, and
-- `test_mimc` of constraint.rs with its random input, its expected output and the constraint system
-- as arguments. The decimal text of an element is compared as the element that it names.
use zk_prompt.Base.{
  ◌≡◌, ◌↔◌, refl, ap, sym, ◌∙◌, Bool, true, false, Option, some, List, [], ◌∷◌, map, get_elem?,
}
use zk_prompt.Base.Outcome.{Outcome, ok, ◌>>=◌, ◌>>◌, assert, in_range, unwrap}
use zk_prompt.Field.{PrimeField}
use zk_prompt.Gadgets.{Gadgets}
use zk_prompt.Mimc.{permute_feistel}
use zk_prompt.Mimc.Bn254.{mimc_bn254}
use zk_prompt.Mimc.Outputs.{permute_feistel_outputs}
use zk_prompt.Mimc.Constraint
use zk_prompt.Mimc.Agree.{map-generate_constraints}
use zk_prompt.Circuit.Commit.{first_value}
use zk_prompt.Circuit.Meaning.{mimc_var, mimc_made, mimc_var-Holds, mimc_var_one}
use zk_prompt.Tests.Fields.{FieldTests}

unfoldable pub test_mimc {ℓ} : {E : Type ℓ} (f : PrimeField) → FieldTests f → Outcome E (Unit {0})
test_mimc f t = do
  let state = f.zero ∷ f.one ∷ f.of_nat 567778336660098848776366662228888333 ∷ []
  r ← in_range (get_elem? (permute_feistel f (mimc_bn254 f) state 1) 0)
  assert (
      t.eq r
        (f.of_nat 12525131868496031425744154881744336661020056362076131525086600857748260152186))

some_injective {ℓ} : {A : Type ℓ} {x y : A} → ◌≡◌ {A = Option A} (some x) (some y) → x ≡ y
some_injective h = cc

assert-eq-ok {ℓ} : {E : Type ℓ} (b : Bool) → assert {E = E} b ≡ ok tt → b ≡ true
assert-eq-ok true h = refl
assert-eq-ok false h = cc (h)

assert-then_true {ℓ} :
    {E : Type ℓ} (b : Bool)
    → (assert {E = E} b >>= λ (u : Unit {0}). assert {E = E} true) ≡ assert {E = E} b
assert-then_true true = refl
assert-then_true false = refl

module _ {f : PrimeField} (g : Gadgets f) (t : FieldTests f) where
  open g use {SynthesisError, Cs, fp_value, fp_constant, fp_zero, satisfied}

  unfoldable pub test_mimc_var : f.F → f.F → Cs → Outcome SynthesisError (Unit {0})
  test_mimc_var input expected cs = do
    let round_constant_vars = map fp_constant (mimc_bn254 f).keys
    mimc ← in_range (Constraint.new g 1 round_constant_vars fp_zero)
    (input_var, cs) ← unwrap (g.fp_witness input cs)
    out ← in_range (get_elem? (Constraint.generate_constraints g mimc (input_var ∷ [])) 0)
    assert (t.eq (fp_value out) expected)
    assert (satisfied cs)

  -- On a satisfied system the test passes when the expected output is the first output of
  -- `MimcBn254::permute_feistel` on the input, and with no other.
  pub test_mimc_var_iff :
      (input expected : f.F) (cs : Cs)
      → satisfied cs ≡ true
      → (test_mimc_var input expected cs ≡ ok tt)
        ↔ (get_elem? (permute_feistel f (mimc_bn254 f) (input ∷ []) 1) 0 ≡ some expected)
  unfolding test_mimc_var
  test_mimc_var_iff input expected cs sat =
      let m = mimc_bn254 f in
      let (x, cs', allocated, value, same, ins) = g.fp_witness_lem input cs in
      let (rest, shape) = (permute_feistel_outputs f m (input ∷ []) 1).1 in
      let outs = Constraint.generate_constraints g (mimc_var g) (x ∷ []) in
      let outputs : map fp_value outs ≡ permute_feistel f m (input ∷ []) 1 =
        map-generate_constraints g (mimc_var g) (mimc_var-Holds g) (x ∷ [])
        ∙ (λ i. permute_feistel f m (value i ∷ []) (mimc_var_one g i)) in
      let (out, first, is_first) = first_value g outs _ rest (outputs ∙ shape) in
      let head : get_elem? (permute_feistel f m (input ∷ []) 1) 0 ≡ some (fp_value out) =
        ap (λ (l : List f.F). get_elem? l 0) shape ∙ ap some (sym is_first) in
      let sat' : satisfied cs' ≡ true = same ∙ sat in
      let run : test_mimc_var input expected cs ≡ assert (t.eq (fp_value out) expected) =
        rw (mimc_made g) (rw allocated (rw first (rw sat' (assert-then_true _)))) in
      (
        λ h. head ∙ ap some ((t.eq_iff (fp_value out) expected).0 (assert-eq-ok _ (sym run ∙ h))),
        λ e.
            let same_value : fp_value out ≡ expected = some_injective (sym head ∙ e) in
            run ∙ rw ((t.eq_iff (fp_value out) expected).1 same_value) refl,
      )
