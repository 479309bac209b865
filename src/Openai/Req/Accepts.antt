-- ===== src/Openai/Req/Accepts.antt =====
-- What the constraints of `ReqVar` accept: the data that begin with the header template.
use mathlib.Core.Bool.{Bool, true, ◌&&◌}
use zk_prompt.Base.{
  ℕ, ◌+◌, ◌-◌, ◌≤◌, ◌≡◌, refl, sym, ap, ap₂, ◌∙◌, List, [], ◌∷◌, ◌++◌, map, Bytes, length, take,
  drop, arith, AllBytes, ==_iff, length-append, length-drop, length-take, length-map, map-take,
  map-drop, take-append, drop-append, drop-drop, take-append-drop, append_assoc,
}
use zk_prompt.Base.Partial.{slice, slice-eq-some, slice_inv}
use zk_prompt.Base.Outcome.{Outcome, ok, ◌>>=◌, in_range, >>=-eq-ok, in_range-eq-ok}
use zk_prompt.Field.{PrimeField}
use zk_prompt.Gadgets.{Gadgets}
use zk_prompt.Circuit.Utils.{enforce_equals}
use zk_prompt.Openai.Config.{
  header_sections, joined_sections, template, AllSections, IsText, header_sections-AllSections,
}
use zk_prompt.Openai.Req.{ReqVar, sections_loop, generate_constraints}

module _ {f : PrimeField} (g : Gadgets f) where
  open g use {SynthesisError, Cs, U8, u8_value, u8_constant, satisfied, inputs}

  -- A step that succeeds and leaves the system as satisfied as it was, with the same inputs.
  pub record Keeps (run : Outcome SynthesisError Cs) (cs : Cs) : Type 0 where
    pub cs' : Cs
    pub runs : run ≡ ok cs'
    pub same : satisfied cs' ≡ satisfied cs
    pub same_inputs : inputs cs' ≡ inputs cs

  enforce_equals_same :
      (a b : List U8) (cs : Cs)
      → map u8_value a ≡ map u8_value b
      → Keeps (enforce_equals g a b cs) cs
  unfolding enforce_equals
  enforce_equals_same [] b cs e = record { cs' = cs; runs = refl; same = refl; same_inputs = refl }
  enforce_equals_same (x ∷ a) [] cs e = record {
    cs' = cs;
    runs = refl;
    same = refl;
    same_inputs = refl;
  }
  enforce_equals_same (x ∷ a) (y ∷ b) cs e =
      let heads : u8_value x ≡ u8_value y = cc in
      let tails : map u8_value a ≡ map u8_value b = cc in
      let (cs1, runs, same, ins) = g.u8_enforce_equal-same x y cs heads in
      let rest = enforce_equals_same a b cs1 tails in
      record {
        cs' = rest.cs';
        runs = rw runs (rest.runs);
        same = rest.same ∙ same;
        same_inputs = rest.same_inputs ∙ ins;
      }

  both : (x y : Bool) → (x && y) ≡ true → (x ≡ true) × (y ≡ true)
  both x y h = ground arith

  enforce_equals_holds :
      (a b : List U8) (cs cs' : Cs)
      → length a ≡ length b
      → enforce_equals g a b cs ≡ ok cs'
      → satisfied cs' ≡ true
      → (map u8_value a ≡ map u8_value b) × (satisfied cs ≡ true) × (inputs cs' ≡ inputs cs)
  unfolding enforce_equals
  enforce_equals_holds [] [] cs cs' l e s =
      let same : cs ≡ cs' = cc in (refl, ap satisfied same ∙ s, ap inputs (sym same))
  enforce_equals_holds [] (y ∷ b) cs cs' l e s = absurd (omega arith)
  enforce_equals_holds (x ∷ a) [] cs cs' l e s = absurd (omega arith)
  enforce_equals_holds (x ∷ a) (y ∷ b) cs cs' l e s =
      let (cs1, first, later) = >>=-eq-ok (g.u8_enforce_equal x y cs) (enforce_equals g a b) e in
      let rest = enforce_equals_holds a b cs1 cs' (omega arith) later s in
      let (tested, ins) = g.u8_enforce_equal-holds x y cs cs1 first in
      let (before, equal) = both _ _ (sym tested ∙ rest.1) in
      (ap₂ ◌∷◌ ((==_iff (u8_value x) (u8_value y)).0 equal) rest.0, before, rest.2 ∙ ins)

  map-u8_constant : (bs : Bytes) → AllBytes bs → map u8_value (map u8_constant bs) ≡ bs
  map-u8_constant [] h = refl
  map-u8_constant (b ∷ bs) h = ap₂ ◌∷◌ (g.u8_value-constant b h.0) (map-u8_constant bs h.1)

  -- One section, in range.
  module _ (data_vars : List U8) (start : ℕ) (section : Bytes) where
    region_values :
        map u8_value (take (start + length section - start) (drop start data_vars))
        ≡ take (length section) (drop start (map u8_value data_vars))
    region_values =
        let e : start + length section - start ≡ length section = omega arith in
        ap (λ (k : ℕ). map u8_value (take k (drop start data_vars))) e
        ∙ map-take u8_value (length section) (drop start data_vars)
        ∙ ap (take (length section)) (map-drop u8_value start data_vars)

  sections_loop_same :
      (ss : List Bytes) (start : ℕ) (data_vars : List U8) (rest : Bytes) (cs : Cs)
      → AllSections ss
      → start ≤ length data_vars
      → drop start (map u8_value data_vars) ≡ joined_sections ss ++ rest
      → Keeps (sections_loop g ss start data_vars cs) cs
  unfolding sections_loop
  sections_loop_same [] start data_vars rest cs b h e = record {
    cs' = cs;
    runs = refl;
    same = refl;
    same_inputs = refl;
  }
  sections_loop_same (s ∷ ss) start data_vars rest cs b h e =
      let e' = e ∙ append_assoc s (joined_sections ss) rest in
      let room : start + length s ≤ length data_vars = omega (
        arith,
        ap length e',
        length-drop start (map u8_value data_vars),
        length-map u8_value data_vars,
        length-append s (joined_sections ss ++ rest),
      ) in
      let region = take (start + length s - start) (drop start data_vars) in
      let read =
        map-u8_constant s b.0
        ∙ sym (region_values data_vars start s ∙ ap (take (length s)) e' ∙ take-append s _) in
      let one = enforce_equals_same (map u8_constant s) region cs read in
      let more = sections_loop_same ss (start + length s) data_vars rest one.cs' b.1 room (
        sym (drop-drop start (length s) (map u8_value data_vars))
        ∙ ap (drop (length s)) e'
        ∙ drop-append s _) in
      record {
        cs' = more.cs';
        runs =
            rw (slice-eq-some start (start + length s) data_vars (omega arith) room)
              (rw (one.runs) (more.runs));
        same = more.same ∙ one.same;
        same_inputs = more.same_inputs ∙ one.same_inputs;
      }

  sections_loop_holds :
      (ss : List Bytes) (start : ℕ) (data_vars : List U8) (cs cs' : Cs)
      → AllSections ss
      → start ≤ length data_vars
      → sections_loop g ss start data_vars cs ≡ ok cs'
      → satisfied cs' ≡ true
      → (rest : Bytes) × (drop start (map u8_value data_vars) ≡ joined_sections ss ++ rest)
        × (satisfied cs ≡ true)
        × (inputs cs' ≡ inputs cs)
  unfolding sections_loop
  sections_loop_holds [] start data_vars cs cs' b h e s =
      let same : cs ≡ cs' = cc in
      (drop start (map u8_value data_vars), refl, ap satisfied same ∙ s, ap inputs (sym same))
  sections_loop_holds (s ∷ ss) start data_vars cs cs' b h e t =
      let (region, sliced, later) =
        >>=-eq-ok (in_range (slice start (start + length s) data_vars))
          (λ region. enforce_equals g (map u8_constant s) region cs >>= λ cs1.
            sections_loop g ss (start + length s) data_vars cs1)
          e in
      let (cs1, first, rest_runs) =
        >>=-eq-ok (enforce_equals g (map u8_constant s) region cs)
          (λ cs1. sections_loop g ss (start + length s) data_vars cs1) later in
      let (room, is_region) =
        slice_inv start (start + length s) data_vars (in_range-eq-ok _ sliced) in
      let (rest, after, before, ins) =
        sections_loop_holds ss (start + length s) data_vars cs1 cs' b.1 room rest_runs t in
      let sized : length (map u8_constant s) ≡ length region = omega (
        arith,
        length-map u8_constant s,
        ap length is_region,
        length-take (start + length s - start) (drop start data_vars),
        length-drop start data_vars,
      ) in
      let (equal, before', ins') =
        enforce_equals_holds (map u8_constant s) region cs cs1 sized first before in
      let values = map u8_value data_vars in
      let read : take (length s) (drop start values) ≡ s =
        sym (region_values data_vars start s)
        ∙ ap (map u8_value) (sym is_region)
        ∙ sym equal
        ∙ map-u8_constant s b.0 in
      (
        rest,
        sym (take-append-drop (length s) (drop start values))
            ∙ ap₂ ◌++◌ read (drop-drop start (length s) values ∙ after)
            ∙ sym (append_assoc s (joined_sections ss) rest),
        before',
        ins ∙ ins',
      )

  -- If the configuration is text and the values begin with its header template, whatever follows,
  -- the constraints are generated, keep the system as satisfied as it was, and add no public input.
  pub generate_constraints_complete :
      (r : ReqVar g) (rest : Bytes) (cs : Cs)
      → IsText r.config
      → map u8_value r.data_vars ≡ template r.config ++ rest
      → Keeps (generate_constraints g r cs) cs
  unfolding generate_constraints
  generate_constraints_complete r rest cs h e =
      sections_loop_same (header_sections r.config) 0 r.data_vars rest cs
        (header_sections-AllSections r.config h) (omega arith) e

  -- If the configuration is text, the constraints are generated and the system is satisfied then,
  -- the values begin with the header template, the system was satisfied before, and no public input
  -- is added.
  pub generate_constraints_sound :
      (r : ReqVar g) (cs cs' : Cs)
      → IsText r.config
      → generate_constraints g r cs ≡ ok cs'
      → satisfied cs' ≡ true
      → (rest : Bytes) × (map u8_value r.data_vars ≡ template r.config ++ rest)
        × (satisfied cs ≡ true)
        × (inputs cs' ≡ inputs cs)
  unfolding generate_constraints
  generate_constraints_sound r cs cs' h e s =
      sections_loop_holds (header_sections r.config) 0 r.data_vars cs cs'
        (header_sections-AllSections r.config h) (omega arith) e s
