-- ===== src/Chacha20/Quarters.antt =====
-- One quarter round of the circuit computes the quarter round of the reference, at each of the
-- four columns; Diagonals has the other four places where `double_round` applies it.
pub mod Diagonals
use Prim.Native.Nat.{bit_xor}
use zk_prompt.Base.{ℕ, ◌<◌, ◌≡◌, refl, ap, ap₂, ◌∙◌, List, [], ◌∷◌, map, length, arith}
use zk_prompt.Base.Outcome.{ok}
use zk_prompt.Base.Xor.{bit_xor_comm}
use zk_prompt.Field.{PrimeField}
use zk_prompt.Gadgets.{Gadgets, rotate_left}
use zk_prompt.Chacha20.QuarterRound
use zk_prompt.Chacha20.QuarterRound.{QuarterRound}
use zk_prompt.Chacha20.Reference.{add32, quarter, quarter_at}

-- A list of sixteen elements, as the elements.
pub data Sixteen {ℓ} {A : Type ℓ} : List A → Type ℓ where
  sixteen :
      (v0 v1 v2 v3 v4 v5 v6 v7 v8 v9 v10 v11 v12 v13 v14 v15 : A)
      → Sixteen
          (v0 ∷ v1 ∷ v2 ∷ v3 ∷ v4 ∷ v5 ∷ v6 ∷ v7 ∷ v8 ∷ v9 ∷ v10 ∷ v11 ∷ v12 ∷ v13 ∷ v14 ∷ v15 ∷ [])

pub to_sixteen {ℓ} : {A : Type ℓ} (vs : List A) → length vs ≡ 16 → Sixteen vs
to_sixteen
      (v0 ∷ v1 ∷ v2 ∷ v3 ∷ v4 ∷ v5 ∷ v6 ∷ v7 ∷ v8 ∷ v9 ∷ v10 ∷ v11 ∷ v12 ∷ v13 ∷ v14 ∷ v15 ∷ []) h =
    sixteen v0 v1 v2 v3 v4 v5 v6 v7 v8 v9 v10 v11 v12 v13 v14 v15
to_sixteen _ h = absurd (omega arith)

pub length-Sixteen {ℓ} : {A : Type ℓ} (vs : List A) → Sixteen vs → length vs ≡ 16
length-Sixteen _ (sixteen v0 v1 v2 v3 v4 v5 v6 v7 v8 v9 v10 v11 v12 v13 v14 v15) = refl

module _ {f : PrimeField} (g : Gadgets f) where
  open g use {U32, u32_value, wrapping_add, u32_xor, u32_rotate_left}

  -- What one quarter round makes of its four variables.
  abbrev quarter_vars : U32 → U32 → U32 → U32 → U32 × U32 × U32 × U32
  quarter_vars a b c d =
      let a1 = wrapping_add a b in
      let d1 = u32_rotate_left (u32_xor d a1) 16 in
      let c1 = wrapping_add c d1 in
      let b1 = u32_rotate_left (u32_xor b c1) 12 in
      let a2 = wrapping_add a1 b1 in
      let d2 = u32_rotate_left (u32_xor a2 d1) 8 in
      let c2 = wrapping_add c1 d2 in (a2, u32_rotate_left (u32_xor c2 b1) 7, c2, d2)

  rotated :
      (x y : U32) (k : ℕ) {m n : ℕ}
      → k < 32
      → u32_value x ≡ m
      → u32_value y ≡ n
      → u32_value (u32_rotate_left (u32_xor x y) k) ≡ rotate_left (bit_xor m n) k
  rotated x y k h p q =
      g.u32_value-rotate_left (u32_xor x y) k h
      ∙ ap (λ (z : ℕ). rotate_left z k) (g.u32_value-xor x y ∙ ap₂ bit_xor p q)

  added :
      (x y : U32) {m n : ℕ}
      → u32_value x ≡ m
      → u32_value y ≡ n
      → u32_value (wrapping_add x y) ≡ add32 m n
  added x y p q = g.u32_value-add x y ∙ ap₂ add32 p q

  abbrev values4 : U32 × U32 × U32 × U32 → ℕ × ℕ × ℕ × ℕ
  values4 q = (u32_value q.0, u32_value q.1, u32_value q.2, u32_value q.3)

  values4-quarter_vars :
      (a b c d : U32)
      → values4 (quarter_vars a b c d)
        ≡ quarter (u32_value a) (u32_value b) (u32_value c) (u32_value d)
  unfolding quarter
  values4-quarter_vars a b c d =
      let a1 = wrapping_add a b in
      let d1 = u32_rotate_left (u32_xor d a1) 16 in
      let c1 = wrapping_add c d1 in
      let b1 = u32_rotate_left (u32_xor b c1) 12 in
      let a2 = wrapping_add a1 b1 in
      let d2 = u32_rotate_left (u32_xor a2 d1) 8 in
      let c2 = wrapping_add c1 d2 in
      let ea1 = added a b refl refl in
      let ed1 = rotated d a1 16 (omega arith) refl ea1 in
      let ec1 = added c d1 refl ed1 in
      let eb1 = rotated b c1 12 (omega arith) refl ec1 in
      let ea2 = added a1 b1 ea1 eb1 in
      let ed2 =
        rotated a2 d1 8 (omega arith) ea2 ed1
        ∙ ap (λ (z : ℕ). rotate_left z 8) (bit_xor_comm _ _) in
      let ec2 = added c1 d2 ec1 ed2 in
      let eb2 =
        rotated c2 b1 7 (omega arith) ec2 eb1
        ∙ ap (λ (z : ℕ). rotate_left z 7) (bit_xor_comm _ _) in
      λ i. (ea2 i, eb2 i, ec2 i, ed2 i)

  -- A quarter round at four places succeeds, keeps sixteen words, and computes the reference's.
  pub record IsQuarter (i j k l : ℕ) (q : QuarterRound g) : Type 0 where
    pub out : QuarterRound g
    pub runs : QuarterRound.generate_constraints g q i j k l ≡ ok out
    pub size : Sixteen out.state_vars
    pub computes : map u32_value out.state_vars ≡ quarter_at i j k l (map u32_value q.state_vars)

  pub IsQuarter-0_4 : (q : QuarterRound g) → Sixteen q.state_vars → IsQuarter 0 4 8 12 q
  unfolding QuarterRound.generate_constraints quarter_at
  IsQuarter-0_4 q s = go q.state_vars s
    where
      go : (vs : List U32) → Sixteen vs → IsQuarter 0 4 8 12 (record { state_vars = vs })
      go _ (sixteen v0 v1 v2 v3 v4 v5 v6 v7 v8 v9 v10 v11 v12 v13 v14 v15) =
          let out = quarter_vars v0 v4 v8 v12 in
          let values = values4-quarter_vars v0 v4 v8 v12 in
          record {
            out = record {
              state_vars =
                  out.0 ∷ v1 ∷ v2 ∷ v3 ∷ out.1 ∷ v5 ∷ v6 ∷ v7 ∷ out.2 ∷ v9 ∷ v10 ∷ v11 ∷ out.3 ∷ v13
                  ∷ v14 ∷ v15 ∷ [];
            };
            runs = refl;
            size = sixteen out.0 v1 v2 v3 out.1 v5 v6 v7 out.2 v9 v10 v11 out.3 v13 v14 v15;
            computes = λ i.
                (values i).0
                ∷ u32_value v1
                ∷ u32_value v2
                ∷ u32_value v3
                ∷ (values i).1
                ∷ u32_value v5
                ∷ u32_value v6
                ∷ u32_value v7
                ∷ (values i).2
                ∷ u32_value v9
                ∷ u32_value v10
                ∷ u32_value v11
                ∷ (values i).3
                ∷ u32_value v13
                ∷ u32_value v14
                ∷ u32_value v15
                ∷ [];
          }

  pub IsQuarter-1_5 : (q : QuarterRound g) → Sixteen q.state_vars → IsQuarter 1 5 9 13 q
  unfolding QuarterRound.generate_constraints quarter_at
  IsQuarter-1_5 q s = go q.state_vars s
    where
      go : (vs : List U32) → Sixteen vs → IsQuarter 1 5 9 13 (record { state_vars = vs })
      go _ (sixteen v0 v1 v2 v3 v4 v5 v6 v7 v8 v9 v10 v11 v12 v13 v14 v15) =
          let out = quarter_vars v1 v5 v9 v13 in
          let values = values4-quarter_vars v1 v5 v9 v13 in
          record {
            out = record {
              state_vars =
                  v0 ∷ out.0 ∷ v2 ∷ v3 ∷ v4 ∷ out.1 ∷ v6 ∷ v7 ∷ v8 ∷ out.2 ∷ v10 ∷ v11 ∷ v12 ∷ out.3
                  ∷ v14 ∷ v15 ∷ [];
            };
            runs = refl;
            size = sixteen v0 out.0 v2 v3 v4 out.1 v6 v7 v8 out.2 v10 v11 v12 out.3 v14 v15;
            computes = λ i.
                u32_value v0
                ∷ (values i).0
                ∷ u32_value v2
                ∷ u32_value v3
                ∷ u32_value v4
                ∷ (values i).1
                ∷ u32_value v6
                ∷ u32_value v7
                ∷ u32_value v8
                ∷ (values i).2
                ∷ u32_value v10
                ∷ u32_value v11
                ∷ u32_value v12
                ∷ (values i).3
                ∷ u32_value v14
                ∷ u32_value v15
                ∷ [];
          }

  pub IsQuarter-2_6 : (q : QuarterRound g) → Sixteen q.state_vars → IsQuarter 2 6 10 14 q
  unfolding QuarterRound.generate_constraints quarter_at
  IsQuarter-2_6 q s = go q.state_vars s
    where
      go : (vs : List U32) → Sixteen vs → IsQuarter 2 6 10 14 (record { state_vars = vs })
      go _ (sixteen v0 v1 v2 v3 v4 v5 v6 v7 v8 v9 v10 v11 v12 v13 v14 v15) =
          let out = quarter_vars v2 v6 v10 v14 in
          let values = values4-quarter_vars v2 v6 v10 v14 in
          record {
            out = record {
              state_vars =
                  v0 ∷ v1 ∷ out.0 ∷ v3 ∷ v4 ∷ v5 ∷ out.1 ∷ v7 ∷ v8 ∷ v9 ∷ out.2 ∷ v11 ∷ v12 ∷ v13
                  ∷ out.3 ∷ v15 ∷ [];
            };
            runs = refl;
            size = sixteen v0 v1 out.0 v3 v4 v5 out.1 v7 v8 v9 out.2 v11 v12 v13 out.3 v15;
            computes = λ i.
                u32_value v0
                ∷ u32_value v1
                ∷ (values i).0
                ∷ u32_value v3
                ∷ u32_value v4
                ∷ u32_value v5
                ∷ (values i).1
                ∷ u32_value v7
                ∷ u32_value v8
                ∷ u32_value v9
                ∷ (values i).2
                ∷ u32_value v11
                ∷ u32_value v12
                ∷ u32_value v13
                ∷ (values i).3
                ∷ u32_value v15
                ∷ [];
          }

  pub IsQuarter-3_7 : (q : QuarterRound g) → Sixteen q.state_vars → IsQuarter 3 7 11 15 q
  unfolding QuarterRound.generate_constraints quarter_at
  IsQuarter-3_7 q s = go q.state_vars s
    where
      go : (vs : List U32) → Sixteen vs → IsQuarter 3 7 11 15 (record { state_vars = vs })
      go _ (sixteen v0 v1 v2 v3 v4 v5 v6 v7 v8 v9 v10 v11 v12 v13 v14 v15) =
          let out = quarter_vars v3 v7 v11 v15 in
          let values = values4-quarter_vars v3 v7 v11 v15 in
          record {
            out = record {
              state_vars =
                  v0 ∷ v1 ∷ v2 ∷ out.0 ∷ v4 ∷ v5 ∷ v6 ∷ out.1 ∷ v8 ∷ v9 ∷ v10 ∷ out.2 ∷ v12 ∷ v13
                  ∷ v14 ∷ out.3 ∷ [];
            };
            runs = refl;
            size = sixteen v0 v1 v2 out.0 v4 v5 v6 out.1 v8 v9 v10 out.2 v12 v13 v14 out.3;
            computes = λ i.
                u32_value v0
                ∷ u32_value v1
                ∷ u32_value v2
                ∷ (values i).0
                ∷ u32_value v4
                ∷ u32_value v5
                ∷ u32_value v6
                ∷ (values i).1
                ∷ u32_value v8
                ∷ u32_value v9
                ∷ u32_value v10
                ∷ (values i).2
                ∷ u32_value v12
                ∷ u32_value v13
                ∷ u32_value v14
                ∷ (values i).3
                ∷ [];
          }
