-- ===== src/Tests/Prompt.antt =====
-- prover/src/build_cs.rs: the module `test`. The configuration of `test` is an argument; the calls
-- of the proof system are those of the interface `Groth16`. An `unwrap` or an `assert!` that fails
-- is a panic.
pub mod Witness
pub mod Passes
use Prim.Native.Nat.{bit_xor}
use zk_prompt.Base.{
  ℕ, ◌+◌, ◌-◌, Bool, List, [], ◌∷◌, ◌++◌, map, Bytes, length, take, replicate, ◌==◌,
}
use zk_prompt.Base.Text.{codes}
use zk_prompt.Base.Partial.{slice}
use zk_prompt.Base.Outcome.{Outcome, ok, ◌>>=◌, ◌>>◌, assert, in_range, unwrap}
use zk_prompt.Field.{PrimeField}
use zk_prompt.Gadgets.{Gadgets}
use zk_prompt.Commitment.{cipher_commitment, prompt_commitment}
use zk_prompt.Openai.Config.{RequestConfig, header_sections}
use zk_prompt.Openai.Req
use zk_prompt.Chacha20
use zk_prompt.Circuit
use zk_prompt.Circuit.{ZkPrompt, qr_constants, alloc_words, alloc_bytes}
use zk_prompt.Session.Groth16.{Groth16}

abbrev pub test_config : RequestConfig
test_config = record {
  host = codes "dashscope.aliyuncs.com";
  basepath = codes "/compatible-mode/v1/chat/completions";
  api_key = codes "sk";
  content_length = 64;
}

-- `Vec::resize`
abbrev pub resize : Bytes → ℕ → ℕ → Bytes
resize xs n x = take n xs ++ replicate (n - length xs) x

-- `for section in config.header_sections() { plaintext.extend(section) }`
unfoldable pub extend_loop : List Bytes → Bytes → Bytes
extend_loop [] plaintext = plaintext
extend_loop (section ∷ sections) plaintext = extend_loop sections (plaintext ++ section)

-- `a.iter().zip(b.iter()).map(|(x, y)| x ^ y)`
unfoldable pub zip_xor : Bytes → Bytes → Bytes
zip_xor [] ys = []
zip_xor (x ∷ xs) [] = []
zip_xor (x ∷ xs) (y ∷ ys) = bit_xor x y ∷ zip_xor xs ys

module _ {f : PrimeField} (g : Gadgets f) (s : Groth16 g) where
  open g use {SynthesisError}

  -- `ReqVar::<Fr>::new(&[], config.clone()).prompt_start()`
  abbrev pub prompt_start : RequestConfig → ℕ
  prompt_start config = Req.prompt_start g (Req.new g [] config)

  unfoldable pub http_plaintext_from_config : RequestConfig → Bytes
  http_plaintext_from_config config =
      resize (extend_loop (header_sections config) [] ++ codes "\r\n")
        (prompt_start config + config.content_length) 0

  unfoldable pub chacha_keystream : Bytes → Bytes → ℕ → ℕ → Outcome SynthesisError Bytes
  chacha_keystream key nonce count len = do
    (key_vars, cs) ← unwrap (alloc_words g key s.new_ref)
    (nonce_vars, cs) ← unwrap (alloc_words g nonce cs)
    (count_var, cs) ← unwrap (g.u32_witness count cs)
    let qr_constant_vars = map (g.u32_constant) qr_constants
    (input_vars, cs) ← alloc_bytes g (replicate len 0) cs
    chacha20 ← Chacha20.new g qr_constant_vars key_vars nonce_vars count_var input_vars
    chacha20 ← unwrap (Chacha20.generate_constraints g chacha20)
    ok (map g.u8_value chacha20.output_vars)

  unfoldable pub witness_from_config : RequestConfig → Outcome SynthesisError ZkPrompt
  witness_from_config config = do
    let plaintext = http_plaintext_from_config config
    keystream ← chacha_keystream (replicate 32 1) (replicate 12 2) 1 (length plaintext)
    ok (record {
      cipher_texts = zip_xor plaintext keystream;
      key = replicate 32 1;
      nonce = replicate 12 2;
      count = 1;
      config = config;
    })

  unfoldable pub assert_circuit_satisfied : ZkPrompt → Outcome SynthesisError (Unit {0})
  assert_circuit_satisfied circuit = do
    cs ← unwrap (Circuit.generate_constraints g circuit s.new_ref)
    assert (g.satisfied cs)

  unfoldable pub public_inputs : ZkPrompt → Outcome SynthesisError (List f.F)
  public_inputs circuit = do
    keystream ←
        chacha_keystream circuit.key circuit.nonce circuit.count (length circuit.cipher_texts)
    let plaintext = zip_xor circuit.cipher_texts keystream
    let start = prompt_start circuit.config
    prompt ← in_range (slice start (start + circuit.config.content_length) plaintext)
    p ← in_range (prompt_commitment f prompt)
    c ← in_range (cipher_commitment f circuit.cipher_texts)
    ok (p ∷ c ∷ [])

  -- The body of `test` behind the configuration.
  unfoldable pub test_with : RequestConfig → Outcome SynthesisError (Unit {0})
  test_with config = do
    circuit ← witness_from_config config
    assert_circuit_satisfied circuit
    let synthesis = Circuit.generate_constraints g circuit
    (pk, vk, rng) ← in_range (s.setup synthesis s.rng)
    pvk ← in_range (s.process_vk vk)
    (proof, _) ← in_range (s.create_proof pk synthesis rng)
    inputs ← public_inputs circuit
    assert (length inputs == 2)
    valid ← in_range (s.verify_with_processed_vk pvk inputs proof)
    assert valid

  unfoldable pub test : Outcome SynthesisError (Unit {0})
  test = test_with test_config
