-- ===== src/Session/Rustls.antt =====
-- The TLS library (rustls with ring), which is not part of the repository: what
-- `encrypt_with_chacha20` of client/src/prove.rs calls of it, and what its documentation and RFC
-- 8439 say of the results.
use zk_prompt.Base.{ℕ, ◌≤◌, ◌≡◌, Option, some, ◌++◌, Bytes, length, AllBytes}
use zk_prompt.Chacha20.Reference.{chacha20}
use zk_prompt.Circuit.{qr_constants}
use zk_prompt.Circuit.Alloc.{words}

-- The longest message of ChaCha20-Poly1305.
abbrev pub max_plaintext : ℕ
max_plaintext = 274877906880

pub record Rustls : Type 1 where
  pub Key : Type 0
  pub Iv : Type 0
  -- `derive_traffic_key` and `derive_traffic_iv` on the expander of a secret
  pub derive_traffic_key : Bytes → Bytes
  pub derive_traffic_iv : Bytes → Iv
  -- `Nonce::new`
  pub nonce_new : Iv → ℕ → Bytes
  pub make_tls13_aad : ℕ → Bytes
  -- `PrefixedPayload`: `len`, and the bytes that `as_ref` and `as_mut` show of the buffer
  pub payload_len : Bytes → ℕ
  pub payload : Bytes → Bytes
  -- `LessSafeKey::new` of `UnboundKey::new`
  pub less_safe_key : Bytes → Option Key
  -- `seal_in_place_separate_tag`: the bytes in place and the tag
  pub seal : Key → Bytes → Bytes → Bytes → Option (Bytes × Bytes)
  pub length-derive_traffic_key : (secret : Bytes) → length (derive_traffic_key secret) ≡ 32
  pub derive_traffic_key-AllBytes : (secret : Bytes) → AllBytes (derive_traffic_key secret)
  pub length-nonce_new : (iv : Iv) (seq : ℕ) → length (nonce_new iv seq) ≡ 12
  pub nonce_new-AllBytes : (iv : Iv) (seq : ℕ) → AllBytes (nonce_new iv seq)
  -- Five bytes are reserved in front.
  pub payload-reserved :
      (slot message : Bytes) → length slot ≡ 5 → payload (slot ++ message) ≡ message
  -- The message is encrypted with ChaCha20 from the block counter 1 on.
  pub seal_lem :
      (key nonce aad message : Bytes)
      → length key ≡ 32
      → length nonce ≡ 12
      → length message ≤ max_plaintext
      → (k : Key) × (tag : Bytes) × (less_safe_key key ≡ some k)
        × (seal k nonce aad message
            ≡ some (chacha20 qr_constants (words key) (words nonce) 1 message, tag))
