-- ===== src/Chacha20/Rounds.antt =====
-- The rounds of the circuit against a block of the reference's key stream.
use mathlib.Core.List.{map-append}
use zk_prompt.Base.{
  ℕ, zero, suc, ◌≡◌, refl, ap, sym, ◌∙◌, List, [], ◌∷◌, ◌++◌, true, map, length, ◌==◌, arith,
  append-nil, append_assoc, Bytes,
}
use zk_prompt.Base.Outcome.{Outcome, ok}
use zk_prompt.Field.{PrimeField}
use zk_prompt.Gadgets.{Gadgets, le_bytes}
use zk_prompt.Chacha20.QuarterRound
use zk_prompt.Chacha20.QuarterRound.{QuarterRound}
use zk_prompt.Chacha20.Round
use zk_prompt.Chacha20.Round.{Round}
use zk_prompt.Chacha20.Reference
use zk_prompt.Chacha20.Reference.{
  add32, quarter_at, iterate_rounds, serialise, block, xor_bytes, initial, encrypt_blocks, chacha20,
}
use zk_prompt.Chacha20.Quarters.{
  Sixteen, to_sixteen, IsQuarter-0_4, IsQuarter-1_5, IsQuarter-2_6, IsQuarter-3_7,
}
use zk_prompt.Chacha20.Quarters.Diagonals.{
  IsQuarter-0_5, IsQuarter-1_6, IsQuarter-2_7, IsQuarter-3_4,
}

module _ {f : PrimeField} (g : Gadgets f) where
  open g use {U8, U32, u8_value, u32_value, wrapping_add, u32_constant, u8_xor}

  -- The circuit's state after some rounds, against the words of the reference.
  record IsState (run : Outcome (g.SynthesisError) (QuarterRound g)) (ws : List ℕ) : Type 0 where
    out : QuarterRound g
    runs : run ≡ ok out
    size : Sixteen out.state_vars
    computes : map u32_value out.state_vars ≡ ws

  double_round_lem :
      (q : QuarterRound g)
      → Sixteen q.state_vars
      → IsState (Round.double_round g q) (Reference.double_round (map u32_value q.state_vars))
  unfolding Round.double_round Reference.double_round
  double_round_lem q s =
      let a = IsQuarter-0_4 g q s in
      let b = IsQuarter-1_5 g a.out a.size in
      let c = IsQuarter-2_6 g b.out b.size in
      let d = IsQuarter-3_7 g c.out c.size in
      let e = IsQuarter-0_5 g d.out d.size in
      let h = IsQuarter-1_6 g e.out e.size in
      let k = IsQuarter-2_7 g h.out h.size in
      let l = IsQuarter-3_4 g k.out k.size in
      record {
        out = l.out;
        runs = rw (a.runs) (
            rw (b.runs)
              (rw (c.runs) (rw (d.runs) (rw (e.runs) (rw (h.runs) (rw (k.runs) l.runs))))));
        size = l.size;
        computes =
            l.computes
            ∙ ap (quarter_at 3 4 9 14) (
                k.computes
                ∙ ap (quarter_at 2 7 8 13) (
                    h.computes
                    ∙ ap (quarter_at 1 6 11 12) (
                        e.computes
                        ∙ ap (quarter_at 0 5 10 15) (
                            d.computes
                            ∙ ap (quarter_at 3 7 11 15) (
                                c.computes
                                ∙ ap (quarter_at 2 6 10 14)
                                    (b.computes ∙ ap (quarter_at 1 5 9 13) a.computes))))));
      }

  rounds_loop_lem :
      (n : ℕ) (q : QuarterRound g)
      → Sixteen q.state_vars
      → IsState (Round.rounds_loop g n q) (iterate_rounds n (map u32_value q.state_vars))
  unfolding Round.rounds_loop iterate_rounds
  rounds_loop_lem zero q s = record { out = q; runs = refl; size = s; computes = refl }
  rounds_loop_lem (suc n) q s =
      let one = double_round_lem q s in
      let more = rounds_loop_lem n one.out one.size in
      record {
        out = more.out;
        runs = rw (one.runs) more.runs;
        size = more.size;
        computes = more.computes ∙ ap (iterate_rounds n) one.computes;
      }

  key_stream_loop_lem :
      (xs ys : List U32) (out : List U8)
      → (ks : List U8) × (Round.key_stream_loop g xs ys out ≡ ok ks)
        × (map u8_value ks ≡ map u8_value out ++ serialise (map u32_value xs) (map u32_value ys))
  unfolding Round.key_stream_loop serialise
  key_stream_loop_lem [] ys out = (out, refl, sym (append-nil _))
  key_stream_loop_lem (x ∷ xs) [] out = (out, refl, sym (append-nil _))
  key_stream_loop_lem (x ∷ xs) (y ∷ ys) out =
      let (bs, runs, values) = g.to_bytes_le_lem (wrapping_add x y) in
      let (ks, runs', values') = key_stream_loop_lem xs ys (out ++ bs) in
      (
        ks,
        rw runs runs',
        values'
            ∙ ap (λ (l : Bytes). l ++ serialise (map u32_value xs) (map u32_value ys))
                (map-append u8_value out bs
                  ∙ ap (◌++◌ (map u8_value out)) (values ∙ ap le_bytes (g.u32_value-add x y)))
            ∙ append_assoc (map u8_value out) _ _,
      )

  pub round_lem :
      (vs : List U32)
      → length vs ≡ 16
      → (r : Round g) × (Round.new g vs ≡ ok (record { state_vars = vs; key_stream = [] }))
        × (Round.generate_constraints g (record { state_vars = vs; key_stream = [] }) ≡ ok r)
        × (map u8_value r.key_stream ≡ block (map u32_value vs))
  unfolding Round.new Round.generate_constraints QuarterRound.new block
  round_lem vs h =
      let st = rounds_loop_lem 10 (record { state_vars = vs }) (to_sixteen vs h) in
      let (ks, runs, values) = key_stream_loop_lem vs st.out.state_vars [] in
      let sized : (length vs == 16) ≡ true = ground arith in
      (
        record { state_vars = vs; key_stream = ks },
        rw sized,
        rw sized (rw (st.runs) (rw runs)),
        values ∙ ap (serialise (map u32_value vs)) st.computes,
      )
