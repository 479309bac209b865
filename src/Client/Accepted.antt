-- ===== src/Client/Accepted.antt =====
-- From the client's request to the circuit's public inputs.
use mathlib.Core.Path.{subst}
use zk_prompt.Base.{
  ℕ, ◌^◌, ◌<◌, ◌≡◌, refl, ap, sym, ◌∙◌, List, [], ◌∷◌, ◌++◌, Bytes, length, take, drop, arith, some,
  length-append, take_all, drop-drop, drop-append, AllBytes, AllBytes-append,
}
use zk_prompt.Base.Text.{codes}
use zk_prompt.Base.Outcome.{ok}
use zk_prompt.Field.{PrimeField}
use zk_prompt.Gadgets.{Gadgets, Honest}
use zk_prompt.Chacha20.Reference.{chacha20}
use zk_prompt.Chacha20.Laws.{chacha20_twice, chacha20-AllBytes}
use zk_prompt.Commitment.{cipher_commitment, prompt_commitment}
use zk_prompt.Openai.Config.{
  RequestConfig, IsText, AllSections, header_sections, joined_sections, header_sections-AllSections,
  template, body_start, body_start-template,
}
use zk_prompt.Circuit.{ZkPrompt, qr_constants, generate_constraints}
use zk_prompt.Circuit.Alloc.{words, length-words}
use zk_prompt.Circuit.Decryption.{plaintext, IsWitness}
use zk_prompt.Circuit.Meaning.{body, circuit_complete}
use zk_prompt.Client.{encode_request}
use zk_prompt.Client.Encoded.{chat_request, encode_request-template}

-- The witness for a request that was encrypted under a key, a nonce and a counter.
abbrev pub witness_of : RequestConfig → Bytes → Bytes → ℕ → Bytes → ZkPrompt
witness_of c key nonce count content = record {
  cipher_texts =
      chacha20 qr_constants (words key) (words nonce) count
        (encode_request (chat_request c content));
  key = key;
  nonce = nonce;
  count = count;
  config = c;
}

pub joined_sections-AllBytes : (ss : List Bytes) → AllSections ss → AllBytes (joined_sections ss)
joined_sections-AllBytes [] h = tt
joined_sections-AllBytes (s ∷ ss) h =
    AllBytes-append s (joined_sections ss) h.0 (joined_sections-AllBytes ss h.1)

module _ (c : RequestConfig) (key nonce content : Bytes) (count : ℕ) (key_size : length key ≡ 32)
    (nonce_size : length nonce ≡ 12) (size : length content ≡ c.content_length) where
  twice :
      (length (witness_of c key nonce count content).cipher_texts
        ≡ length (encode_request (chat_request c content)))
      × (plaintext (witness_of c key nonce count content) ≡ encode_request (chat_request c content))
  unfolding plaintext
  twice =
      chacha20_twice qr_constants (words key) (words nonce) refl
        (length-words 8 key (omega (arith, key_size)))
        (length-words 3 nonce (omega (arith, nonce_size))) count
        (encode_request (chat_request c content))

  decrypted :
      plaintext (witness_of c key nonce count content) ≡ template c ++ (codes "\r\n" ++ content)
  decrypted = twice.1 ∙ encode_request-template c content size

  body-content : body (witness_of c key nonce count content) ≡ content
  unfolding body
  body-content =
      ap (λ (l : Bytes). take c.content_length (drop (body_start c) l)) decrypted
      ∙ ap (λ (k : ℕ). take c.content_length (drop k (template c ++ (codes "\r\n" ++ content))))
          (body_start-template c)
      ∙ ap (take c.content_length) (
          sym (drop-drop (length (template c)) 2 (template c ++ (codes "\r\n" ++ content)))
          ∙ ap (drop 2) (drop-append (template c) (codes "\r\n" ++ content)))
      ∙ take_all c.content_length content (omega (arith, size))

  is_witness :
      AllBytes key
      → AllBytes nonce
      → count < 2 ^ 32
      → AllBytes content
      → IsText c
      → IsWitness (witness_of c key nonce count content)
  is_witness key_bytes nonce_bytes count_range content_bytes text =
      let request = template c ++ (codes "\r\n" ++ content) in
      let request_bytes : AllBytes request =
        AllBytes-append (template c) (codes "\r\n" ++ content)
          (joined_sections-AllBytes (header_sections c) (header_sections-AllSections c text))
          (omega arith, (omega arith, content_bytes)) in
      let same = encode_request-template c content size in
      record {
        key_size = key_size;
        key_bytes = key_bytes;
        nonce_size = nonce_size;
        nonce_bytes = nonce_bytes;
        count_range = count_range;
        cipher_bytes =
            chacha20-AllBytes qr_constants (words key) (words nonce) refl
              (length-words 8 key (omega (arith, key_size)))
              (length-words 3 nonce (omega (arith, nonce_size))) count _
              (subst AllBytes (sym same) request_bytes);
        text = text;
        room = omega (
          arith,
          twice.0,
          ap length same,
          body_start-template c,
          length-append (template c) (codes "\r\n" ++ content),
        );
      }

  -- The client writes a request with the configured headers and a body of the configured length,
  -- and it is encrypted under a key of 32 bytes, a nonce of 12 and a counter below 2 ^ 32; all are
  -- bytes, and the texts of the configuration chars. In a run in which the public inputs have the
  -- values that they are allocated with (`Honest`), for that witness the circuit is generated without
  -- an error or a panic and keeps the system as satisfied as it was, and its two new public inputs
  -- are the native commitments to the client's body and to the ciphertext.
  pub client_request_accepted :
      {f : PrimeField} (g : Gadgets f) (honest : Honest g) (cs : g.Cs)
      → AllBytes key
      → AllBytes nonce
      → count < 2 ^ 32
      → AllBytes content
      → IsText c
      → (cs' : g.Cs) × (p : f.F) × (k : f.F) × (generate_constraints g
            (witness_of c key nonce count content)
            cs
          ≡ ok cs')
        × (g.satisfied cs' ≡ g.satisfied cs)
        × (prompt_commitment f content ≡ some p)
        × (cipher_commitment f (witness_of c key nonce count content).cipher_texts ≡ some k)
        × (g.inputs cs' ≡ g.inputs cs ++ p ∷ k ∷ [])
  client_request_accepted {f} g honest cs kb nb cr cb text =
      let z = witness_of c key nonce count content in
      let (cs', runs, same, publics) =
        circuit_complete g honest z (codes "\r\n" ++ content) cs (is_witness kb nb cr cb text)
          decrypted in
      (
        cs',
        publics.prompt,
        publics.cipher,
        runs,
        same,
        ap (prompt_commitment f) (sym body-content) ∙ publics.is_prompt,
        publics.is_cipher,
        publics.added,
      )
