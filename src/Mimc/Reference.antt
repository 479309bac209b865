-- ===== src/Mimc/Reference.antt =====
-- The sponge over the round constants as a list, as the MiMC Feistel permutation is described: the
-- view against which the loops over indices are read.
use zk_prompt.Base.{
  ℕ, zero, suc, ◌+◌, ◌-◌, ◌≤◌, ◌≡◌, refl, ap, sym, ◌∙◌, true, false, List, [], ◌∷◌, ◌++◌, get_or,
  length, ltb, ◌==◌, arith, length-append, append_assoc, drop, map,
}
use zk_prompt.Field.{PrimeField, add-zero}
use zk_prompt.Mimc.Bn254.{mimc_bn254}
use zk_prompt.Mimc.RoundKeys.{round_keys}
use zk_prompt.Mimc.{
  Mimc, pow_loop, feistel_round, feistel_loop, feistel, absorb_loop, squeeze_loop, permute_feistel,
}

module _ (f : PrimeField) where
  open f use {F, add, mul, one}

  abbrev pub fifth_power : F → F
  fifth_power t = mul (mul (mul (mul (mul one t) t) t) t) t

  -- One round for each constant: the fifth power of the left half, the key and the constant is added
  -- to the right half, and the halves change places but for the last round.
  abbrev pub feistel_network : F → List F → F × F → F × F
  feistel_network k [] (l, r) = (l, r)
  feistel_network k (c ∷ []) (l, r) = (l, add r (fifth_power (add (add k l) c)))
  feistel_network k (c ∷ d ∷ cs) (l, r) =
      feistel_network k (d ∷ cs) (add r (fifth_power (add (add k l) c)), l)

  -- Each element is added to the left half in front of one permutation.
  abbrev pub absorb_state : F → List F → List F → F × F → F × F
  absorb_state k cs [] x = x
  absorb_state k cs (s ∷ ss) (l, r) = absorb_state k cs ss (feistel_network k cs (add l s, r))

  -- The left half, and then that of each further permutation.
  abbrev pub squeeze_outputs : F → List F → ℕ → F × F → List F
  squeeze_outputs k cs zero (l, r) = l ∷ []
  squeeze_outputs k cs (suc more) (l, r) =
      l ∷ squeeze_outputs k cs more (feistel_network k cs (l, r))

  get_or-append :
      (pre : List F) (c : F) (cs : List F) (d : F) → get_or (pre ++ (c ∷ cs)) (length pre) d ≡ c
  get_or-append [] c cs d = refl
  get_or-append (p ∷ pre) c cs d = get_or-append pre c cs d

  module _ (m : Mimc f) (five : m.exponent ≡ 5) where
    -- The round of index `i`, not the first, is that of the constant at `i`.
    round-middle :
        (i : ℕ) (c : F) (x : F × F)
        → (i == 0) ≡ false
        → get_or m.keys i f.zero ≡ c
        → ltb i (m.rounds - 1) ≡ true
        → feistel_round f m i x ≡ (add x.1 (fifth_power (add (add m.k x.0) c)), x.0)
    unfolding feistel_round pow_loop
    round-middle i c x later key more = rw (later, key, more, five) refl

    round-last :
        (i : ℕ) (c : F) (x : F × F)
        → (i == 0) ≡ false
        → get_or m.keys i f.zero ≡ c
        → ltb i (m.rounds - 1) ≡ false
        → feistel_round f m i x ≡ (x.0, add x.1 (fifth_power (add (add m.k x.0) c)))
    unfolding feistel_round pow_loop
    round-last i c x later key last = rw (later, key, last, five) refl

    later_rounds :
        (pre cs : List F) (i : ℕ) (x : F × F)
        → m.keys ≡ pre ++ cs
        → m.rounds ≡ i + length cs
        → i ≡ length pre
        → 1 ≤ i
        → feistel_loop f m (length cs) i x ≡ feistel_network m.k cs x
    unfolding feistel_loop
    later_rounds pre [] i x keys size at some' = refl
    later_rounds pre (c ∷ []) i x keys size at some' =
        round-last i c x (ground (arith, some'))
          (ap (λ (ks : List F). get_or ks i f.zero) keys
            ∙ ap (λ (n : ℕ). get_or (pre ++ (c ∷ [])) n f.zero) at
            ∙ get_or-append pre c [] f.zero)
          (ground (arith, size))
    later_rounds pre (c ∷ d ∷ cs) i x keys size at some' =
        ap (feistel_loop f m (length (d ∷ cs)) (i + 1)) (
          round-middle i c x (ground (arith, some'))
            (ap (λ (ks : List F). get_or ks i f.zero) keys
              ∙ ap (λ (n : ℕ). get_or (pre ++ (c ∷ d ∷ cs)) n f.zero) at
              ∙ get_or-append pre c (d ∷ cs) f.zero)
            (ground (arith, size)))
        ∙ later_rounds (pre ++ c ∷ []) (d ∷ cs) (i + 1) _
            (keys ∙ sym (append_assoc pre (c ∷ []) (d ∷ cs))) (omega (arith, size))
            (omega (arith, at, length-append pre (c ∷ []))) (omega arith)

    -- The first round adds no constant.
    round-first :
        (x : F × F)
        → ltb 0 (m.rounds - 1) ≡ true
        → feistel_round f m 0 x ≡ (add x.1 (fifth_power (add (add m.k x.0) f.zero)), x.0)
    unfolding feistel_round pow_loop
    round-first x more =
        rw (more, five)
          (ap (λ (t : F). (add x.1 (fifth_power t), x.0)) (sym (add-zero f (add m.k x.0))))

    module _ (c d : F) (cs : List F) (keys : m.keys ≡ c ∷ d ∷ cs)
        (size : m.rounds ≡ length m.keys) where
      rounds_lem : m.rounds ≡ suc (length (d ∷ cs))
      rounds_lem = omega (arith, size, ap length keys)

      feistel-network : (x : F × F) → feistel f m x ≡ feistel_network m.k (f.zero ∷ d ∷ cs) x
      unfolding feistel feistel_loop
      feistel-network x =
          ap (λ (n : ℕ). feistel_loop f m n 0 x) rounds_lem
          ∙ ap (feistel_loop f m (length (d ∷ cs)) 1) (round-first x (ground (arith, rounds_lem)))
          ∙ later_rounds (c ∷ []) (d ∷ cs) 1 _ keys (omega (arith, rounds_lem)) refl (omega arith)

      absorb_loop-absorb_state :
          (ss : List F) (x : F × F) → absorb_loop f m ss x ≡ absorb_state m.k (f.zero ∷ d ∷ cs) ss x
      unfolding absorb_loop
      absorb_loop-absorb_state [] x = refl
      absorb_loop-absorb_state (s ∷ ss) x =
          ap (absorb_loop f m ss) (feistel-network (add x.0 s, x.1)) ∙ absorb_loop-absorb_state ss _

      squeeze_loop-squeeze_outputs :
          (more : ℕ) (x : F × F) (outputs : List F)
          → squeeze_loop f m more x (outputs ++ x.0 ∷ [])
            ≡ outputs ++ squeeze_outputs m.k (f.zero ∷ d ∷ cs) more x
      unfolding squeeze_loop
      squeeze_loop-squeeze_outputs zero x outputs = refl
      squeeze_loop-squeeze_outputs (suc more) x outputs =
          ap (λ (y : F × F). squeeze_loop f m more y ((outputs ++ x.0 ∷ []) ++ y.0 ∷ []))
            (feistel-network x)
          ∙ squeeze_loop-squeeze_outputs more (feistel_network m.k (f.zero ∷ d ∷ cs) x)
              (outputs ++ x.0 ∷ [])
          ∙ append_assoc outputs (x.0 ∷ []) _

      pub permute_feistel-squeeze_outputs :
          (state : List F) (n : ℕ)
          → permute_feistel f m state n
            ≡ squeeze_outputs m.k
                (f.zero ∷ d ∷ cs)
                (n - 1)
                (absorb_state m.k (f.zero ∷ d ∷ cs) state (f.zero, f.zero))
      unfolding permute_feistel
      permute_feistel-squeeze_outputs state zero =
          ap (λ (x : F × F). x.0 ∷ []) (absorb_loop-absorb_state state (f.zero, f.zero))
      permute_feistel-squeeze_outputs state (suc zero) =
          ap (λ (x : F × F). x.0 ∷ []) (absorb_loop-absorb_state state (f.zero, f.zero))
      permute_feistel-squeeze_outputs state (suc (suc n)) =
          let none' : (suc (suc n) == 0) ≡ false = ground arith in
          let one' : (suc (suc n) == 1) ≡ false = ground arith in
          let more : suc (suc n) - 1 ≡ suc n = omega arith in
          rw (none', one', more)
            (squeeze_loop-squeeze_outputs (suc n) _ []
              ∙ ap (squeeze_outputs m.k (f.zero ∷ d ∷ cs) (suc n))
                  (absorb_loop-absorb_state state (f.zero, f.zero)))

  -- The constants of `MimcBn254` as they are added: none in the first round.
  abbrev pub constants : List F
  constants = f.zero ∷ drop 1 (map f.of_nat round_keys)

  -- `permute_feistel` of `MimcBn254`, over any field and whatever the state and the number of
  -- outputs, is the sponge of the Feistel network with the fifth power and the listed round
  -- constants, none in the first round, where the halves do not change places in the last: it
  -- returns the left half after the state is absorbed, and that of one more permutation for each
  -- further output.
  pub permute_feistel-reference :
      (state : List F) (n : ℕ)
      → permute_feistel f (mimc_bn254 f) state n
        ≡ squeeze_outputs f.zero constants
            (n - 1)
            (absorb_state f.zero constants state (f.zero, f.zero))
  unfolding mimc_bn254
  permute_feistel-reference state n =
      permute_feistel-squeeze_outputs (mimc_bn254 f) refl _ _ _ refl refl state n
