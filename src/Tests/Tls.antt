-- ===== src/Tests/Tls.antt =====
-- client/src/lib.rs: `test_chacha20_poly1305`, with its secret and its payload as arguments; the
-- result is what it prints.
use zk_prompt.Base.{ℕ, ◌≤◌, ◌≡◌, refl, replicate, ◌++◌, Bytes, length}
use zk_prompt.Base.Outcome.{Outcome, ok, ◌>>=◌, in_range}
use zk_prompt.Chacha20.Reference.{chacha20}
use zk_prompt.Circuit.{qr_constants}
use zk_prompt.Circuit.Alloc.{words}
use zk_prompt.Session.Rustls.{Rustls, max_plaintext}
use zk_prompt.Session.Materials.{
  ProveMaterials, client_traffic_secret, encrypt_with_chacha20, encrypt_with_chacha20_lem,
}

module _ (t : Rustls) where
  unfoldable pub test_chacha20_poly1305 {ℓ} :
      {E : Type ℓ} → Bytes → Bytes → Outcome E (Bytes × Bytes × Bytes × Bytes)
  test_chacha20_poly1305 secret paypload = do
    let key = t.derive_traffic_key secret
    let iv = t.derive_traffic_iv secret
    enc_key ← in_range (t.less_safe_key key)
    let aad = t.make_tls13_aad (t.payload_len paypload)
    let nonce = t.nonce_new iv 0
    (ct, tag) ← in_range (t.seal enc_key nonce aad (t.payload paypload))
    ok (key, nonce, ct, tag)

  -- On the secret of some materials and on their request behind five zero bytes, the test prints the
  -- key, the nonce and the ciphertext that `encrypt_with_chacha20` returns.
  pub test_chacha20_poly1305-encrypt {ℓ} :
      {E : Type ℓ} (m : ProveMaterials) (secret : Bytes)
      → client_traffic_secret m ≡ ok secret
      → length m.request ≤ max_plaintext
      → (key nonce ct tag : Bytes) × (test_chacha20_poly1305 {E = E} secret
            (replicate {A = ℕ} 5 0 ++ m.request)
          ≡ ok (key, nonce, ct, tag))
        × (encrypt_with_chacha20 t m ≡ ok (ct, key, nonce))
  unfolding test_chacha20_poly1305
  test_chacha20_poly1305-encrypt m secret found room =
      let key = t.derive_traffic_key secret in
      let nonce = t.nonce_new (t.derive_traffic_iv secret) 0 in
      let buf : Bytes = replicate {A = ℕ} 5 0 ++ m.request in
      let (k, tag, made, sealed) =
        t.seal_lem key nonce (t.make_tls13_aad (t.payload_len buf)) m.request
          (t.length-derive_traffic_key secret) (t.length-nonce_new (t.derive_traffic_iv secret) 0)
          room in
      (
        key,
        nonce,
        chacha20 qr_constants (words key) (words nonce) 1 m.request,
        tag,
        rw (made, t.payload-reserved (replicate {A = ℕ} 5 0) m.request refl, sealed) refl,
        encrypt_with_chacha20_lem t m secret found room,
      )
