-- ===== src/Circuit.antt =====
-- prover/src/build_cs.rs: the circuit `ZkPrompt`. The helpers of prover/src/utils/mod.rs are in
-- Utils; Alloc, Commit, Decryption and Meaning prove what the parts and the whole compute.
pub mod Utils
pub mod Alloc
pub mod Commit
pub mod Decryption
pub mod Meaning
use zk_prompt.Base.{
  ℕ, ◌+◌, ◌*◌, Bool, List, [], ◌∷◌, ◌++◌, map, Bytes, length, get_elem?, replicate, ◌==◌,
  if◌then◌else◌,
}
use zk_prompt.Base.Chunks.{chunks}
use zk_prompt.Base.Partial.{slice}
use zk_prompt.Base.Outcome.{Outcome, ok, err, panic, ◌>>=◌, in_range, unwrap}
use zk_prompt.Field.{PrimeField}
use zk_prompt.Gadgets.{Gadgets}
use zk_prompt.Mimc.Bn254.{mimc_bn254}
use zk_prompt.Mimc.Constraint
use zk_prompt.Mimc.Constraint.{MimcBn254Var}
use zk_prompt.Chacha20
use zk_prompt.Openai.Config.{RequestConfig}
use zk_prompt.Openai.Req
use zk_prompt.Circuit.Utils.{compress_var}

pub record ZkPrompt : Type 0 where
  pub cipher_texts : Bytes
  pub key : Bytes
  pub nonce : Bytes
  pub count : ℕ
  pub config : RequestConfig

unfoldable pub new : Bytes → Bytes → Bytes → ℕ → RequestConfig → ZkPrompt
new cipher_texts key nonce count config = record {
  cipher_texts = cipher_texts;
  key = key;
  nonce = nonce;
  count = count;
  config = config;
}

unfoldable pub mock_ciucuit : RequestConfig → ZkPrompt
mock_ciucuit config = record {
  cipher_texts = replicate 2020 0;
  key = replicate 32 0;
  nonce = replicate 12 0;
  count = 1;
  config = config;
}

-- `u32::from_le_bytes(chunk.try_into().unwrap())`: a chunk of another length is a panic.
unfoldable pub u32_from_le_bytes {ℓ} : {E : Type ℓ} → Bytes → Outcome E ℕ
u32_from_le_bytes (a ∷ b ∷ c ∷ d ∷ []) = ok (a + 256 * b + 65536 * c + 16777216 * d)
u32_from_le_bytes _ = panic

-- The constants of the ChaCha20 state.
abbrev pub qr_constants : List ℕ
qr_constants = 0x61707865 ∷ 0x3320646e ∷ 0x79622d32 ∷ 0x6b206574 ∷ []

module _ {f : PrimeField} (g : Gadgets f) where
  open g use {SynthesisError, Cs, Bit, U8, U32, Fp, to_bits_be, fp_value, fp_zero, fp_constant}

  -- `for chunk in self.key.chunks(4)`, and the same for the nonce.
  unfoldable pub words_loop : List Bytes → List U32 → Cs → Outcome SynthesisError (List U32 × Cs)
  words_loop [] vars cs = ok (vars, cs)
  words_loop (chunk ∷ rest) vars cs = do
    val ← u32_from_le_bytes chunk
    (var, cs') ← g.u32_witness val cs
    words_loop rest (vars ++ var ∷ []) cs'

  unfoldable pub alloc_words : Bytes → Cs → Outcome SynthesisError (List U32 × Cs)
  alloc_words bytes cs = do parts ← in_range (chunks 4 bytes); words_loop parts [] cs

  -- The `map` over `cipher_texts`.
  unfoldable pub alloc_bytes : Bytes → Cs → Outcome SynthesisError (List U8 × Cs)
  alloc_bytes [] cs = ok ([], cs)
  alloc_bytes (x ∷ bytes) cs = do
    (var, cs') ← unwrap (g.u8_witness x cs)
    (vars, cs'') ← alloc_bytes bytes cs'
    ok (var ∷ vars, cs'')

  -- `for p in prompt { prompt_bits.extend(p.to_bits_be()?) }`, and the same for the ciphertext.
  unfoldable pub bits_loop : List U8 → List Bit → Outcome SynthesisError (List Bit)
  bits_loop [] bits = ok bits
  bits_loop (p ∷ rest) bits = do more ← to_bits_be p; bits_loop rest (bits ++ more)

  -- The commitment to some bytes: bits, `compress_var`, and the first output of the sponge.
  unfoldable pub commit_var : MimcBn254Var g → List U8 → Outcome SynthesisError Fp
  commit_var mimc_var bytes = do
    bits ← bits_loop bytes []
    compress ← compress_var g bits 250
    in_range (get_elem? (Constraint.generate_constraints g mimc_var compress) 0)

  -- `FpVar::new_input` of a commitment's value, and its `enforce_equal`.
  unfoldable pub publish : Fp → Cs → Outcome SynthesisError Cs
  publish commitment cs = do
    (pi, cs') ← g.fp_input (fp_value commitment) cs
    g.fp_enforce_equal pi commitment cs'

  unfoldable pub generate_constraints : ZkPrompt → Cs → Outcome SynthesisError Cs
  generate_constraints z cs = do
    (key_vars, cs) ← alloc_words z.key cs
    (nonce_vars, cs) ← alloc_words z.nonce cs
    let qr_constant_vars = map (g.u32_constant) qr_constants
    (count_var, cs) ← g.u32_witness z.count cs
    (cipher_vars, cs) ← alloc_bytes z.cipher_texts cs
    chacha20 ← Chacha20.new g qr_constant_vars key_vars nonce_vars count_var cipher_vars
    chacha20 ← Chacha20.generate_constraints g chacha20
    let req_var = Req.new g chacha20.output_vars z.config
    cs ← Req.generate_constraints g req_var cs
    let start = Req.prompt_start g req_var
    prompt ← in_range (slice start (start + z.config.content_length) chacha20.output_vars)
    let round_constant_vars = map fp_constant (mimc_bn254 f).keys
    mimc_var ← in_range (Constraint.new g 1 round_constant_vars fp_zero)
    prompt_commitment ← commit_var mimc_var prompt
    cipher_commitment ← commit_var mimc_var cipher_vars
    cs ← publish prompt_commitment cs
    publish cipher_commitment cs
