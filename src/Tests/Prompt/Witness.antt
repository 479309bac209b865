-- ===== src/Tests/Prompt/Witness.antt =====
-- What the helpers of the tests compute: the plaintext, the key stream, and the witness.
use zk_prompt.Base.{
  ℕ, zero, suc, ◌+◌, ◌-◌, ◌^◌, ◌<◌, ◌≡◌, refl, ap, ap₂, sym, ◌∙◌, List, [], ◌∷◌, ◌++◌, map, Bytes,
  length, replicate, AllBytes, AllBytes-append, arith, append_assoc, append-nil, length-append,
  length-map, length-replicate, take_all,
}
use zk_prompt.Base.Text.{codes}
use zk_prompt.Base.Xor.{bit_xor_comm}
use zk_prompt.Base.Outcome.{ok}
use zk_prompt.Field.{PrimeField}
use zk_prompt.Gadgets.{Gadgets}
use zk_prompt.Openai.Config.{
  RequestConfig, IsText, header_sections, header_sections-AllSections, joined_sections, template,
  body_start, body_start-template,
}
use zk_prompt.Openai.Req
use zk_prompt.Chacha20.Agree.{generate_constraints-chacha20}
use zk_prompt.Chacha20.Laws.{chacha20_twice, chacha20-AllBytes}
use zk_prompt.Chacha20.Laws.Keystream.{zeros, chacha20-zeros}
use zk_prompt.Chacha20.Reference.{xor_bytes, chacha20}
use zk_prompt.Client.Accepted.{joined_sections-AllBytes}
use zk_prompt.Circuit.{ZkPrompt, qr_constants}
use zk_prompt.Circuit.Alloc.{words, length-words, alloc_words_lem, alloc_bytes_lem}
use zk_prompt.Circuit.Decryption.{plaintext, IsWitness, u32_value-qr_constants}
use zk_prompt.Session.Groth16.{Groth16}
use zk_prompt.Tests.Prompt.{
  resize, extend_loop, zip_xor, prompt_start, http_plaintext_from_config, chacha_keystream,
  witness_from_config,
}

zip_xor-xor_bytes : (ms ks : Bytes) → zip_xor ms ks ≡ xor_bytes ms ks
unfolding zip_xor xor_bytes
zip_xor-xor_bytes [] ks = refl
zip_xor-xor_bytes (m ∷ ms) [] = refl
zip_xor-xor_bytes (m ∷ ms) (k ∷ ks) = ap₂ ◌∷◌ (bit_xor_comm m k) (zip_xor-xor_bytes ms ks)

extend_loop_lem :
    (ss : List Bytes) (bytes : Bytes) → extend_loop ss bytes ≡ bytes ++ joined_sections ss
unfolding extend_loop
extend_loop_lem [] bytes = sym (append-nil bytes)
extend_loop_lem (s ∷ ss) bytes =
    extend_loop_lem ss (bytes ++ s) ∙ append_assoc bytes s (joined_sections ss)

-- Growing keeps what is there.
resize_grows : (xs : Bytes) (n k : ℕ) → n ≡ length xs + k → resize xs n 0 ≡ xs ++ zeros k
resize_grows xs n k e =
    ap₂ ◌++◌ (take_all n xs (omega (arith, e)))
      (let left : n - length xs ≡ k = omega (arith, e) in ap zeros left)

zeros-AllBytes : (n : ℕ) → AllBytes (zeros n)
zeros-AllBytes zero = tt
zeros-AllBytes (suc n) = (omega arith, zeros-AllBytes n)

-- The header template, the blank line, and zeros for the body.
abbrev pub request_of : RequestConfig → Bytes
request_of c = template c ++ (codes "\r\n" ++ zeros c.content_length)

pub length-request_of :
    (c : RequestConfig) → length (request_of c) ≡ body_start c + c.content_length
length-request_of c = omega (
  arith,
  length-append (template c) (codes "\r\n" ++ zeros c.content_length),
  length-replicate {A = ℕ} c.content_length 0,
  body_start-template c,
)

request_of-AllBytes : (c : RequestConfig) → IsText c → AllBytes (request_of c)
request_of-AllBytes c t =
    AllBytes-append (template c) (codes "\r\n" ++ zeros c.content_length)
      (joined_sections-AllBytes (header_sections c) (header_sections-AllSections c t))
      (omega arith, (omega arith, zeros-AllBytes c.content_length))

-- The witness of the tests.
abbrev pub key : Bytes
key = replicate 32 1

abbrev pub nonce : Bytes
nonce = replicate 12 2

abbrev pub encrypted : Bytes → Bytes
encrypted = chacha20 qr_constants (words key) (words nonce) 1

abbrev pub witness_of : RequestConfig → ZkPrompt
witness_of c = record {
  cipher_texts = encrypted (request_of c);
  key = key;
  nonce = nonce;
  count = 1;
  config = c;
}

-- The cipher twice is the identity on the witness.
pub encrypted_twice :
    (bytes : Bytes)
    → (length (encrypted bytes) ≡ length bytes) × (encrypted (encrypted bytes) ≡ bytes)
encrypted_twice bytes =
    chacha20_twice qr_constants (words key) (words nonce) refl (length-words 8 key refl)
      (length-words 3 nonce refl) 1 bytes

pub encrypted-zeros :
    (bytes : Bytes) → encrypted bytes ≡ zip_xor bytes (encrypted (zeros (length bytes)))
encrypted-zeros bytes =
    chacha20-zeros qr_constants (words key) (words nonce) refl (length-words 8 key refl)
      (length-words 3 nonce refl) 1 bytes
    ∙ sym (zip_xor-xor_bytes bytes (encrypted (zeros (length bytes))))

pub witness_of-IsWitness : (c : RequestConfig) → IsText c → IsWitness (witness_of c)
witness_of-IsWitness c t = record {
  key_size = refl;
  key_bytes = omega arith;
  nonce_size = refl;
  nonce_bytes = omega arith;
  count_range = omega arith;
  cipher_bytes =
      chacha20-AllBytes qr_constants (words key) (words nonce) refl (length-words 8 key refl)
        (length-words 3 nonce refl) 1 (request_of c) (request_of-AllBytes c t);
  text = t;
  room = omega (arith, (encrypted_twice (request_of c)).0, length-request_of c);
}

pub plaintext-witness_of : (c : RequestConfig) → plaintext (witness_of c) ≡ request_of c
unfolding plaintext
plaintext-witness_of c = (encrypted_twice (request_of c)).1

module _ {f : PrimeField} (g : Gadgets f) (s : Groth16 g) where
  open g use {U32, u32_value}

  pub prompt_start_lem : (c : RequestConfig) → prompt_start g s c ≡ body_start c
  unfolding Req.prompt_start Req.new
  prompt_start_lem c = refl

  http_plaintext-request_of : (c : RequestConfig) → http_plaintext_from_config g s c ≡ request_of c
  unfolding http_plaintext_from_config
  http_plaintext-request_of c =
      let front : extend_loop (header_sections c) [] ++ codes "\r\n" ≡ template c ++ codes "\r\n" =
        ap (λ (l : Bytes). l ++ codes "\r\n") (extend_loop_lem (header_sections c) []) in
      let size : prompt_start g s c + c.content_length
          ≡ length (template c ++ codes "\r\n") + c.content_length =
        omega (
          arith,
          prompt_start_lem c,
          body_start-template c,
          length-append (template c) (codes "\r\n"),
        ) in
      ap (λ (l : Bytes). resize l (prompt_start g s c + c.content_length) 0) front
      ∙ resize_grows (template c ++ codes "\r\n") (prompt_start g s c + c.content_length)
          c.content_length size
      ∙ append_assoc (template c) (codes "\r\n") (zeros c.content_length)

  -- For a key of 32 bytes, a nonce of 12 bytes and a counter of 32 bits, `chacha_keystream` does
  -- not panic, and returns the key stream of the reference cipher.
  pub chacha_keystream_lem :
      (k n : Bytes) (count len : ℕ)
      → length k ≡ 32
      → AllBytes k
      → length n ≡ 12
      → AllBytes n
      → count < 2 ^ 32
      → chacha_keystream g s k n count len
        ≡ ok (chacha20 qr_constants (words k) (words n) count (zeros len))
  unfolding chacha_keystream
  chacha_keystream_lem k n count len lk bk ln bn small =
      let ks = alloc_words_lem g 8 k (s.new_ref) (omega (arith, lk)) bk in
      let ns = alloc_words_lem g 3 n ks.cs' (omega (arith, ln)) bn in
      let (count_var, cs3, counted, count_value, same3, ins3) =
        g.u32_witness_lem count ns.cs' small in
      let zs = alloc_bytes_lem g (zeros len) cs3 (zeros-AllBytes len) in
      let sized =
        λ (vs : List U32) (m : ℕ) (ws : List ℕ) (e : map u32_value vs ≡ ws) (l : length ws ≡ m).
          sym (length-map u32_value vs) ∙ ap length e ∙ l in
      let (chacha, chacha', made, ran, values) =
        generate_constraints-chacha20 g (map (g.u32_constant) qr_constants) ks.vars ns.vars
          count_var zs.vars refl (sized ks.vars 8 _ ks.holds (length-words 8 k (omega (arith, lk))))
          (sized ns.vars 3 _ ns.holds (length-words 3 n (omega (arith, ln)))) in
      rw (ks.runs) (
        rw (ns.runs) (
          rw counted (
            rw (zs.runs) (
              rw made (
                rw ran (
                  ap ok (
                    values ∙ (λ i.
                      chacha20 (u32_value-qr_constants g i) (ks.holds i) (ns.holds i)
                        (count_value i) (zs.holds i)))))))))

  pub witness_from_config_lem : (c : RequestConfig) → witness_from_config g s c ≡ ok (witness_of c)
  unfolding witness_from_config
  witness_from_config_lem c =
      let stream =
        chacha_keystream_lem key nonce 1 (length (request_of c)) refl (omega arith) refl
          (omega arith) (omega arith) in
      rw (http_plaintext-request_of c) (rw stream (rw (sym (encrypted-zeros (request_of c))) refl))
