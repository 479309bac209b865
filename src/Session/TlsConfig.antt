-- ===== src/Session/TlsConfig.antt =====
-- client/src/client/proxy.rs: `load_client_config`. A certificate of the platform is its bytes, and
-- whether the root store accepts it is an argument. What the configuration of the TLS library holds
-- beside the roots and the key log is constant: TLS 1.3 only, and no authentication of the client.
use zk_prompt.Base.{
  ◌≡◌, refl, ap, sym, ◌∙◌, Bool, true, Option, none, some, List, [], ◌∷◌, ◌++◌, Bytes, append-nil,
  append_assoc,
}
use zk_prompt.Base.Outcome.{Outcome, ok, ◌>>=◌, ◌>>◌, assert, in_range, >>=-eq-ok}
use zk_prompt.Session.KeyLog.{KeyLogVec}

pub record ClientConfig : Type 0 where
  pub roots : List Bytes
  pub key_log : KeyLogVec

-- `for cert in .. { roots.add(cert).unwrap() }`
unfoldable pub add_roots {ℓ} :
    {E : Type ℓ} → (Bytes → Bool) → List Bytes → List Bytes → Outcome E (List Bytes)
add_roots accepts [] roots = ok roots
add_roots accepts (cert ∷ certs) roots = do
  assert (accepts cert)
  add_roots accepts certs (roots ++ cert ∷ [])

-- `none` is an error of `load_native_certs`.
unfoldable pub load_client_config {ℓ} :
    {E : Type ℓ} → Option (List Bytes) → (Bytes → Bool) → KeyLogVec → Outcome E ClientConfig
load_client_config native_certs accepts key_log = do
  certs ← in_range native_certs
  roots ← add_roots accepts certs []
  ok (record { roots = roots; key_log = key_log })

abbrev pub AllAccepted : (Bytes → Bool) → List Bytes → Type 0
AllAccepted accepts [] = Unit {0}
AllAccepted accepts (cert ∷ certs) = (accepts cert ≡ true) × AllAccepted accepts certs

module _ {ℓ} {E : Type ℓ} (accepts : Bytes → Bool) where
  add_roots_lem :
      (certs roots : List Bytes)
      → AllAccepted accepts certs
      → add_roots {E = E} accepts certs roots ≡ ok (roots ++ certs)
  unfolding add_roots
  add_roots_lem [] roots h = ap ok (sym (append-nil roots))
  add_roots_lem (cert ∷ certs) roots h =
      rw (h.0) (
        add_roots_lem certs (roots ++ cert ∷ []) h.1 ∙ ap ok (append_assoc roots (cert ∷ []) certs))

  -- With certificates that are all accepted, the configuration is made of them and of the key log.
  pub load_client_config-AllAccepted :
      (certs : List Bytes) (key_log : KeyLogVec)
      → AllAccepted accepts certs
      → load_client_config {E = E} (some certs) accepts key_log
        ≡ ok (record { roots = certs; key_log = key_log })
  unfolding load_client_config
  load_client_config-AllAccepted certs key_log h = rw (add_roots_lem certs [] h) refl

  -- The key log of the configuration is the one given.
  pub load_client_config-key_log :
      (native_certs : Option (List Bytes)) (key_log : KeyLogVec) (config : ClientConfig)
      → load_client_config {E = E} native_certs accepts key_log ≡ ok config
      → config.key_log ≡ key_log
  unfolding load_client_config
  load_client_config-key_log none key_log config h = cc (h)
  load_client_config-key_log (some certs) key_log config h =
      let (roots, added, made) = >>=-eq-ok (add_roots {E = E} accepts certs []) _ h in cc (made)
