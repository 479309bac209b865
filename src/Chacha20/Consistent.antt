-- ===== src/Chacha20/Consistent.antt =====
-- `consistency_check` of prover/src/chacha20/mod.rs against the reference cipher.
use zk_prompt.Base.{◌≡◌, ◌↔◌, refl, sym, ◌∙◌, Bool, true, false, List, Bytes, length, map}
use zk_prompt.Base.Text.{str_eq_iff}
use zk_prompt.Base.Outcome.{ok, assert}
use zk_prompt.Field.{PrimeField}
use zk_prompt.Gadgets.{Gadgets}
use zk_prompt.Chacha20
use zk_prompt.Chacha20.{consistency_check}
use zk_prompt.Chacha20.Reference.{chacha20}
use zk_prompt.Chacha20.Agree.{generate_constraints-chacha20}

assert_iff {ℓ} : {E : Type ℓ} (b : Bool) → (assert {E = E} b ≡ ok tt) ↔ (b ≡ true)
assert_iff true = (λ h. refl, λ h. refl)
assert_iff false = (λ h. cc (h), λ h. cc (h))

module _ {f : PrimeField} (g : Gadgets f) where
  open g use {U8, U32, u8_value, u32_value}

  -- With 4 constants, 8 key words and 3 nonce words of any values, the ChaCha20 circuit is generated
  -- for every input, and `consistency_check` on it passes for the reference's encryption of the
  -- values and for no other bytes.
  pub consistency_check_iff :
      (constants key nonce : List U32) (counter : U32) (input : List U8) (expect : Bytes)
      → length constants ≡ 4
      → length key ≡ 8
      → length nonce ≡ 3
      → (c c' : Chacha20.ChaCha20Var g) × (Chacha20.new g constants key nonce counter input ≡ ok c)
        × (Chacha20.generate_constraints g c ≡ ok c')
        × ((consistency_check g c' expect ≡ ok tt) ↔ (
            chacha20
              (map u32_value constants)
              (map u32_value key)
              (map u32_value nonce)
              (u32_value counter)
              (map u8_value input)
            ≡ expect))
  unfolding consistency_check
  consistency_check_iff constants key nonce counter input expect lc lk ln =
      let (c, c', made, runs, values) =
        generate_constraints-chacha20 g constants key nonce counter input lc lk ln in
      (
        c,
        c',
        made,
        runs,
        (
          λ h.
              sym values ∙ (str_eq_iff (map u8_value c'.output_vars) expect).0 ((assert_iff _).0 h),
          λ e. (assert_iff _).1 ((str_eq_iff (map u8_value c'.output_vars) expect).1 (values ∙ e)),
        ),
      )
