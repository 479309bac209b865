-- ===== src/Session/KeyLog.antt =====
-- client/src/key_log.rs: the secrets that the TLS library logs during a handshake. The `Mutex` is
-- the state that the operations take and return.
use zk_prompt.Base.{List, [], ◌∷◌, ◌++◌, Bytes}
use zk_prompt.Base.Text.{Str}

pub record KeyLogItem : Type 0 where
  pub label : Str
  pub client_random : Bytes
  pub secret : Bytes

pub record KeyLogVec : Type 0 where
  pub label : Str
  pub items : List KeyLogItem

unfoldable pub new : Str → KeyLogVec
new who = record { label = who; items = [] }

-- `std::mem::take`
unfoldable pub take_items : KeyLogVec → List KeyLogItem × KeyLogVec
take_items log = (log.items, record log { items = [] })

unfoldable pub log : Str → Bytes → Bytes → KeyLogVec → KeyLogVec
log label client secret key_log =
    let value : KeyLogItem = record { label = label; client_random = client; secret = secret } in
    record key_log { items = key_log.items ++ value ∷ [] }
