-- ===== src/Session/Materials.antt =====
-- client/src/prove.rs: `ProveMaterials`, its traffic secret and its encryption.
use zk_prompt.Base.{
  ℕ, ◌≤◌, ◌≡◌, refl, Option, none, some, List, [], ◌∷◌, ◌++◌, Bytes, length, replicate, ◌==◌,
  if◌then◌else◌,
}
use zk_prompt.Base.Text.{Str, codes, str_eq}
use zk_prompt.Base.Outcome.{Outcome, ok, err, ◌>>=◌, ok_or, in_range}
use zk_prompt.Field.{PrimeField}
use zk_prompt.Commitment
use zk_prompt.Chacha20.Reference.{chacha20}
use zk_prompt.Circuit.{qr_constants}
use zk_prompt.Circuit.Alloc.{words}
use zk_prompt.Session.KeyLog.{KeyLogItem}
use zk_prompt.Session.Rustls.{Rustls, max_plaintext}

pub record ProveMaterials : Type 0 where
  pub request : Bytes
  pub body : Bytes
  pub response : Bytes
  pub keylog : List KeyLogItem

pub data ProveError : Type 0 where
  no_materials : ProveError
  no_secret : ProveError
  invalid_secret_length : ProveError
  synthesis_failed : ProveError
  not_satisfied : ProveError

abbrev pub client_traffic_secret_0 : Str
client_traffic_secret_0 = codes "CLIENT_TRAFFIC_SECRET_0"

abbrev pub prefixed_payload_header_len : ℕ
prefixed_payload_header_len = 5

-- `keylog.iter().find(|item| item.label == label)`
unfoldable pub find_item : Str → List KeyLogItem → Option KeyLogItem
find_item label [] = none
find_item label (item ∷ items) =
    let later = find_item label items in if str_eq item.label label then some item else later

unfoldable pub client_traffic_secret : ProveMaterials → Outcome ProveError Bytes
client_traffic_secret m = do
  item ← ok_or no_secret (find_item client_traffic_secret_0 m.keylog)
  (if length item.secret == 32 then ok item.secret else err invalid_secret_length)

-- `ProveMaterials::commitments`: the other commitment comes from the proxy.
unfoldable pub commitments :
    (f : PrimeField) → ProveMaterials → f.F → Outcome ProveError (f.F × f.F)
commitments f m proxy_cipher_commitment = do
  prompt ← in_range (Commitment.prompt_commitment f m.body)
  ok (prompt, proxy_cipher_commitment)

module _ (t : Rustls) where
  unfoldable pub encrypt_with_chacha20 : ProveMaterials → Outcome ProveError (Bytes × Bytes × Bytes)
  encrypt_with_chacha20 m = do
    secret ← client_traffic_secret m
    let key = t.derive_traffic_key secret
    let iv = t.derive_traffic_iv secret
    enc_key ← in_range (t.less_safe_key key)
    let buf = replicate {A = ℕ} prefixed_payload_header_len 0 ++ m.request
    let aad = t.make_tls13_aad (t.payload_len buf)
    let nonce = t.nonce_new iv 0
    (cipher, tag) ← in_range (t.seal enc_key nonce aad (t.payload buf))
    ok (cipher, key, nonce)

  -- With a secret, the request is encrypted with ChaCha20 under the key and the nonce returned.
  pub encrypt_with_chacha20_lem :
      (m : ProveMaterials) (secret : Bytes)
      → client_traffic_secret m ≡ ok secret
      → length m.request ≤ max_plaintext
      → let key = t.derive_traffic_key secret in
        let nonce = t.nonce_new (t.derive_traffic_iv secret) 0 in
        encrypt_with_chacha20 m
        ≡ ok (chacha20 qr_constants (words key) (words nonce) 1 m.request, key, nonce)
  unfolding encrypt_with_chacha20
  encrypt_with_chacha20_lem m secret found room =
      let key = t.derive_traffic_key secret in
      let nonce = t.nonce_new (t.derive_traffic_iv secret) 0 in
      let buf : Bytes = replicate {A = ℕ} prefixed_payload_header_len 0 ++ m.request in
      let (k, tag, made, sealed) =
        t.seal_lem key nonce (t.make_tls13_aad (t.payload_len buf)) m.request
          (t.length-derive_traffic_key secret) (t.length-nonce_new (t.derive_traffic_iv secret) 0)
          room in
      rw
        (
          found,
          made,
          t.payload-reserved (replicate {A = ℕ} prefixed_payload_header_len 0) m.request refl,
          sealed,
        )
        refl
