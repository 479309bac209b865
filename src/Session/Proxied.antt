-- ===== src/Session/Proxied.antt =====
-- The request on the wire, between the client and the proxy: what `drain_application_data` of the
-- proxy gathers of the TLS record that carries it, against what `encrypt_with_chacha20` of the
-- client returns.
pub mod Connection
use zk_prompt.Base.{
  ℕ, ◌+◌, ◌-◌, ◌%◌, ◌≤◌, ◌≡◌, refl, ap, sym, ◌∙◌, true, false, some, [], ◌∷◌, ◌++◌, Bytes, length,
  take, arith, length-append, take-append, append-nil, ◌==◌, leb,
}
use zk_prompt.Base.Outcome.{ok}
use zk_prompt.Chacha20.Reference.{chacha20}
use zk_prompt.Chacha20.Laws.{chacha20_twice}
use zk_prompt.Chacha20.Laws.Append.{chacha20-append}
use zk_prompt.Circuit.{qr_constants}
use zk_prompt.Circuit.Alloc.{words, length-words}
use zk_prompt.Proxy.Tls.{drain_application_data}
use zk_prompt.Proxy.Tls.Record.{TlsRecord, encode_record, record_data, is_53}
use zk_prompt.Proxy.Tls.Drain.{flight_data, drain_application_data-records}
use zk_prompt.Session.Rustls.{Rustls}
use zk_prompt.Session.Materials.{
  ProveMaterials, client_traffic_secret, encrypt_with_chacha20, encrypt_with_chacha20_lem,
}

singleton : (xs : Bytes) → length xs ≡ 1 → (b : ℕ) × (xs ≡ b ∷ [])
singleton [] h = absurd (omega arith)
singleton (b ∷ []) h = (b, refl)
singleton (b ∷ c ∷ xs) h = absurd (omega arith)

module _ (t : Rustls) (secret : Bytes) where
  abbrev pub encrypted : Bytes → Bytes
  encrypted message =
      chacha20 qr_constants (words (t.derive_traffic_key secret))
        (words (t.nonce_new (t.derive_traffic_iv secret) 0)) 1 message

  -- The record of application data of RFC 8446, 5.2: it encrypts the content and one byte, the type
  -- of the content, and a tag follows.
  abbrev pub sealed_record : Bytes → Bytes → TlsRecord
  sealed_record content tag = record {
    content_type = 0x17;
    version_hi = 3;
    version_lo = 3;
    payload = encrypted (content ++ 0x17 ∷ []) ++ tag;
  }

  key_words : length (words (t.derive_traffic_key secret)) ≡ 8
  key_words =
      length-words 8 (t.derive_traffic_key secret)
        (omega (arith, t.length-derive_traffic_key secret))

  nonce_words : length (words (t.nonce_new (t.derive_traffic_iv secret) 0)) ≡ 3
  nonce_words =
      length-words 3 (t.nonce_new (t.derive_traffic_iv secret) 0)
        (omega (arith, t.length-nonce_new (t.derive_traffic_iv secret) 0))

  length-encrypted : (message : Bytes) → length (encrypted message) ≡ length message
  length-encrypted message =
      (chacha20_twice qr_constants (words (t.derive_traffic_key secret))
        (words (t.nonce_new (t.derive_traffic_iv secret) 0)) refl key_words nonce_words 1 message).0

  encrypted-append_one :
      (content : Bytes) → (b : ℕ) × (encrypted (content ++ 0x17 ∷ []) ≡ encrypted content ++ b ∷ [])
  encrypted-append_one content =
      let (r, e) =
        chacha20-append qr_constants (words (t.derive_traffic_key secret))
          (words (t.nonce_new (t.derive_traffic_iv secret) 0)) refl key_words nonce_words 1 content
          (0x17 ∷ []) in
      let (b, one) = singleton r (
        omega (
          arith,
          ap length e,
          length-append (encrypted content) r,
          length-encrypted content,
          length-encrypted (content ++ 0x17 ∷ []),
          length-append content (0x17 ∷ []),
        )) in
      (b, e ∙ ap (◌++◌ (encrypted content)) one)

  pub length-payload :
      (content tag : Bytes)
      → length tag ≡ 16
      → length (sealed_record content tag).payload ≡ length content + 17
  length-payload content tag h = omega (
    arith,
    h,
    length-append (encrypted (content ++ 0x17 ∷ [])) tag,
    length-encrypted (content ++ 0x17 ∷ []),
    length-append content (0x17 ∷ []),
  )

  record_data-sealed :
      (content tag : Bytes)
      → length tag ≡ 16
      → record_data (sealed_record content tag) ≡ encrypted (content ++ 0x17 ∷ [])
  unfolding record_data
  record_data-sealed content tag h =
      let size = length-payload content tag h in
      let tagged : leb 16 (length (sealed_record content tag).payload) ≡ true =
        ground (arith, size) in
      let front : length (sealed_record content tag).payload - 16
          ≡ length (encrypted (content ++ 0x17 ∷ [])) =
        omega (
          arith,
          size,
          length-encrypted (content ++ 0x17 ∷ []),
          length-append content (0x17 ∷ []),
        ) in
      rw tagged (
        ap (λ (k : ℕ). take k (sealed_record content tag).payload) front
        ∙ take-append (encrypted (content ++ 0x17 ∷ [])) tag)

  -- The data of the record: the ciphertext of the content and one byte more.
  pub record_data-sealed_one :
      (content tag : Bytes)
      → length tag ≡ 16
      → (b : ℕ) × (record_data (sealed_record content tag) ≡ encrypted content ++ b ∷ [])
  record_data-sealed_one content tag h =
      let (b, e) = encrypted-append_one content in (b, record_data-sealed content tag h ∙ e)

  -- The client's request, of at most 2 ^ 14 bytes, is sent in one TLS record, with a tag of 16
  -- bytes and a length that does not end in the byte 53, and the key log has a secret. What the
  -- proxy gathers of the record is the ciphertext that the client commits to and one byte more.
  pub proxied_request :
      (m : ProveMaterials) (tag : Bytes)
      → client_traffic_secret m ≡ ok secret
      → length m.request ≤ 16384
      → length tag ≡ 16
      → ((length m.request + 17) % 256 == 53) ≡ false
      → (cipher : Bytes) × (key : Bytes) × (nonce : Bytes) × (b : ℕ) × (encrypt_with_chacha20 t m
          ≡ ok (cipher, key, nonce))
        × (drain_application_data (encode_record (sealed_record m.request tag))
            ≡ some (cipher ++ b ∷ [], []))
  proxied_request m tag logged small tag_size not_53 =
      let r = sealed_record m.request tag in
      let (b, e) = record_data-sealed_one m.request tag tag_size in
      let size = length-payload m.request tag tag_size in
      let not_53' : is_53 r ≡ false = ap (λ (k : ℕ). k % 256 == 53) size ∙ not_53 in
      let gathered : flight_data (r ∷ []) ≡ encrypted m.request ++ b ∷ [] =
        rw not_53' (append-nil (record_data r) ∙ e) in
      let drains = drain_application_data-records (r ∷ []) [] (omega (arith, size), tt) tt in
      (
        encrypted m.request,
        t.derive_traffic_key secret,
        t.nonce_new (t.derive_traffic_iv secret) 0,
        b,
        encrypt_with_chacha20_lem t m secret logged (omega (arith, small)),
        ap drain_application_data
              (sym (append-nil (encode_record r ++ []) ∙ append-nil (encode_record r)))
            ∙ drains
            ∙ ap (λ (l : Bytes). some (l, [])) gathered,
      )
