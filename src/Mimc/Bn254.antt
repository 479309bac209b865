-- ===== src/Mimc/Bn254.antt =====
-- prover/src/mimc/bn254/mod.rs: `impl MiMC<Fr, 220, 5> for MimcBn254`.
use zk_prompt.Base.{◌≡◌, refl, map, length}
use zk_prompt.Field.{PrimeField}
use zk_prompt.Mimc.{Mimc}
use zk_prompt.Mimc.RoundKeys.{round_keys}

unfoldable pub mimc_bn254 : (f : PrimeField) → Mimc f
mimc_bn254 f = record { rounds = 220; exponent = 5; k = f.zero; keys = map (f.of_nat) round_keys }

pub length-round_keys : length round_keys ≡ 220
length-round_keys = refl
