-- ===== src/Chacha20/Quarters/Diagonals.antt =====
-- The four quarter rounds of `double_round` on the diagonals.
use zk_prompt.Base.{refl, List, [], ◌∷◌}
use zk_prompt.Field.{PrimeField}
use zk_prompt.Gadgets.{Gadgets}
use zk_prompt.Chacha20.QuarterRound
use zk_prompt.Chacha20.QuarterRound.{QuarterRound}
use zk_prompt.Chacha20.Reference.{quarter_at}
use zk_prompt.Chacha20.Quarters.{Sixteen, sixteen, quarter_vars, values4-quarter_vars, IsQuarter}

module _ {f : PrimeField} (g : Gadgets f) where
  open g use {U32, u32_value, wrapping_add, u32_xor, u32_rotate_left}

  pub IsQuarter-0_5 : (q : QuarterRound g) → Sixteen q.state_vars → IsQuarter g 0 5 10 15 q
  unfolding QuarterRound.generate_constraints quarter_at
  IsQuarter-0_5 q s = go q.state_vars s
    where
      go : (vs : List U32) → Sixteen vs → IsQuarter g 0 5 10 15 (record { state_vars = vs })
      go _ (sixteen v0 v1 v2 v3 v4 v5 v6 v7 v8 v9 v10 v11 v12 v13 v14 v15) =
          let out = quarter_vars g v0 v5 v10 v15 in
          let values = values4-quarter_vars g v0 v5 v10 v15 in
          record {
            out = record {
              state_vars =
                  out.0 ∷ v1 ∷ v2 ∷ v3 ∷ v4 ∷ out.1 ∷ v6 ∷ v7 ∷ v8 ∷ v9 ∷ out.2 ∷ v11 ∷ v12 ∷ v13
                  ∷ v14 ∷ out.3 ∷ [];
            };
            runs = refl;
            size = sixteen out.0 v1 v2 v3 v4 out.1 v6 v7 v8 v9 out.2 v11 v12 v13 v14 out.3;
            computes = λ i.
                (values i).0
                ∷ u32_value v1
                ∷ u32_value v2
                ∷ u32_value v3
                ∷ u32_value v4
                ∷ (values i).1
                ∷ u32_value v6
                ∷ u32_value v7
                ∷ u32_value v8
                ∷ u32_value v9
                ∷ (values i).2
                ∷ u32_value v11
                ∷ u32_value v12
                ∷ u32_value v13
                ∷ u32_value v14
                ∷ (values i).3
                ∷ [];
          }

  pub IsQuarter-1_6 : (q : QuarterRound g) → Sixteen q.state_vars → IsQuarter g 1 6 11 12 q
  unfolding QuarterRound.generate_constraints quarter_at
  IsQuarter-1_6 q s = go q.state_vars s
    where
      go : (vs : List U32) → Sixteen vs → IsQuarter g 1 6 11 12 (record { state_vars = vs })
      go _ (sixteen v0 v1 v2 v3 v4 v5 v6 v7 v8 v9 v10 v11 v12 v13 v14 v15) =
          let out = quarter_vars g v1 v6 v11 v12 in
          let values = values4-quarter_vars g v1 v6 v11 v12 in
          record {
            out = record {
              state_vars =
                  v0 ∷ out.0 ∷ v2 ∷ v3 ∷ v4 ∷ v5 ∷ out.1 ∷ v7 ∷ v8 ∷ v9 ∷ v10 ∷ out.2 ∷ out.3 ∷ v13
                  ∷ v14 ∷ v15 ∷ [];
            };
            runs = refl;
            size = sixteen v0 out.0 v2 v3 v4 v5 out.1 v7 v8 v9 v10 out.2 out.3 v13 v14 v15;
            computes = λ i.
                u32_value v0
                ∷ (values i).0
                ∷ u32_value v2
                ∷ u32_value v3
                ∷ u32_value v4
                ∷ u32_value v5
                ∷ (values i).1
                ∷ u32_value v7
                ∷ u32_value v8
                ∷ u32_value v9
                ∷ u32_value v10
                ∷ (values i).2
                ∷ (values i).3
                ∷ u32_value v13
                ∷ u32_value v14
                ∷ u32_value v15
                ∷ [];
          }

  pub IsQuarter-2_7 : (q : QuarterRound g) → Sixteen q.state_vars → IsQuarter g 2 7 8 13 q
  unfolding QuarterRound.generate_constraints quarter_at
  IsQuarter-2_7 q s = go q.state_vars s
    where
      go : (vs : List U32) → Sixteen vs → IsQuarter g 2 7 8 13 (record { state_vars = vs })
      go _ (sixteen v0 v1 v2 v3 v4 v5 v6 v7 v8 v9 v10 v11 v12 v13 v14 v15) =
          let out = quarter_vars g v2 v7 v8 v13 in
          let values = values4-quarter_vars g v2 v7 v8 v13 in
          record {
            out = record {
              state_vars =
                  v0 ∷ v1 ∷ out.0 ∷ v3 ∷ v4 ∷ v5 ∷ v6 ∷ out.1 ∷ out.2 ∷ v9 ∷ v10 ∷ v11 ∷ v12 ∷ out.3
                  ∷ v14 ∷ v15 ∷ [];
            };
            runs = refl;
            size = sixteen v0 v1 out.0 v3 v4 v5 v6 out.1 out.2 v9 v10 v11 v12 out.3 v14 v15;
            computes = λ i.
                u32_value v0
                ∷ u32_value v1
                ∷ (values i).0
                ∷ u32_value v3
                ∷ u32_value v4
                ∷ u32_value v5
                ∷ u32_value v6
                ∷ (values i).1
                ∷ (values i).2
                ∷ u32_value v9
                ∷ u32_value v10
                ∷ u32_value v11
                ∷ u32_value v12
                ∷ (values i).3
                ∷ u32_value v14
                ∷ u32_value v15
                ∷ [];
          }

  pub IsQuarter-3_4 : (q : QuarterRound g) → Sixteen q.state_vars → IsQuarter g 3 4 9 14 q
  unfolding QuarterRound.generate_constraints quarter_at
  IsQuarter-3_4 q s = go q.state_vars s
    where
      go : (vs : List U32) → Sixteen vs → IsQuarter g 3 4 9 14 (record { state_vars = vs })
      go _ (sixteen v0 v1 v2 v3 v4 v5 v6 v7 v8 v9 v10 v11 v12 v13 v14 v15) =
          let out = quarter_vars g v3 v4 v9 v14 in
          let values = values4-quarter_vars g v3 v4 v9 v14 in
          record {
            out = record {
              state_vars =
                  v0 ∷ v1 ∷ v2 ∷ out.0 ∷ out.1 ∷ v5 ∷ v6 ∷ v7 ∷ v8 ∷ out.2 ∷ v10 ∷ v11 ∷ v12 ∷ v13
                  ∷ out.3 ∷ v15 ∷ [];
            };
            runs = refl;
            size = sixteen v0 v1 v2 out.0 out.1 v5 v6 v7 v8 out.2 v10 v11 v12 v13 out.3 v15;
            computes = λ i.
                u32_value v0
                ∷ u32_value v1
                ∷ u32_value v2
                ∷ (values i).0
                ∷ (values i).1
                ∷ u32_value v5
                ∷ u32_value v6
                ∷ u32_value v7
                ∷ u32_value v8
                ∷ (values i).2
                ∷ u32_value v10
                ∷ u32_value v11
                ∷ u32_value v12
                ∷ u32_value v13
                ∷ (values i).3
                ∷ u32_value v15
                ∷ [];
          }
