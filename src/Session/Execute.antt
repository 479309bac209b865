-- ===== src/Session/Execute.antt =====
-- client/src/client/mod.rs: `ZKClient` and its `execute`. What the network answers during one call
-- is an argument. The session is the shared cell of the client and its clones, taken and returned;
-- the handle of the plain HTTP client, which only passes calls on, is left out.
pub mod Stored
use zk_prompt.Base.{ℕ, Bool, true, false, Option, none, some, List, [], ◌∷◌, ◌++◌, Bytes}
use zk_prompt.Base.Text.{Str, codes}
use zk_prompt.Base.Outcome.{Outcome, ok, err, panic, ◌>>=◌, ◌>>◌, assert, guard, unwrap}
use zk_prompt.Openai.Config.{RequestConfig}
use zk_prompt.Openai.Env.{EnvError, from_env}
use zk_prompt.Openai.Wire.{WireError}
use zk_prompt.Openai.Check.{ChatRequest, PaddedRequest, check_and_pad}
use zk_prompt.Session.KeyLog
use zk_prompt.Session.KeyLog.{KeyLogItem, KeyLogVec}
use zk_prompt.Session.TlsConfig.{load_client_config}
use zk_prompt.Session.Materials.{ProveMaterials}
use zk_prompt.Session.Prove.{ProveSession, new_prove_session}

pub record ZkClient : Type 0 where
  pub proxy_url : Str
  pub server_name : Str
  pub request_config : RequestConfig

-- A new client and its session.
unfoldable pub new : Str → RequestConfig → ZkClient × ProveSession
new proxy_url request_config = (
  record {
    proxy_url = proxy_url;
    server_name = request_config.host;
    request_config = request_config;
  },
  new_prove_session,
)

-- `Default`: the configuration comes from the environment, and without one there is no client.
unfoldable pub default : (Str → Option Str) → Outcome EnvError (ZkClient × ProveSession)
default var = do
  request_config ← unwrap (from_env var)
  ok (new (codes "127.0.0.1:9100") request_config)

pub data ExecuteError : Type 0 where
  rejected : WireError → ExecuteError
  connect_failed : ExecuteError
  handshake_failed : ExecuteError
  write_failed : ExecuteError
  read_failed : ExecuteError

-- The reads of one response: at least one byte each, until the end or an error. A response that
-- never ends is not among them.
pub data Reads : Type 0 where
  end_of_stream : Reads
  failure : Reads
  read : ℕ → Bytes → Reads → Reads

-- What happens outside of the program during one call.
pub record Network : Type 0 where
  pub connects : Bool
  -- what `load_native_certs` finds, and what the root store accepts
  pub certificates : Option (List Bytes)
  pub accepts : Bytes → Bool
  -- whether `ServerName::try_from` accepts the server's name
  pub name_valid : Bool
  -- what the TLS library logs
  pub logged : List KeyLogItem
  pub handshakes : Bool
  pub writes : Bool
  pub reads : Reads

unfoldable pub read_loop : Reads → Bytes → Outcome ExecuteError Bytes
read_loop end_of_stream raw_response = ok raw_response
read_loop failure raw_response = err read_failed
read_loop (read b bytes reads) raw_response = read_loop reads (raw_response ++ (b ∷ bytes))

unfoldable pub log_all : List KeyLogItem → KeyLogVec → KeyLogVec
log_all [] key_log = key_log
log_all (item ∷ items) key_log =
    log_all items (KeyLog.log item.label item.client_random item.secret key_log)

-- The part of `execute` behind `check_and_pad`, up to the materials.
unfoldable pub exchange : Network → PaddedRequest → Outcome ExecuteError ProveMaterials
exchange network padded = do
  guard network.connects connect_failed
  let new_log = KeyLog.new (codes "client_keylog")
  config ← load_client_config network.certificates network.accepts new_log
  assert network.name_valid
  let key_log = log_all network.logged config.key_log
  guard network.handshakes handshake_failed
  guard network.writes write_failed
  raw_response ← read_loop network.reads []
  let (items, _) = KeyLog.take_items key_log
  ok (record {
    request = padded.request;
    body = padded.body;
    response = raw_response;
    keylog = items;
  })

-- `?` on an error of `check_and_pad`
abbrev pub as_rejected {ℓ} : {A : Type ℓ} → Outcome WireError A → Outcome ExecuteError A
as_rejected (ok a) = ok a
as_rejected (err e) = err (rejected e)
as_rejected panic = panic

-- The session changes when the whole exchange has succeeded.
abbrev pub store :
    ProveSession → Outcome ExecuteError ProveMaterials → Outcome ExecuteError Bytes × ProveSession
store session (ok materials) = (ok materials.response, some materials)
store session (err e) = (err e, session)
store session panic = (panic, session)

unfoldable pub execute :
    (Bytes → Option ChatRequest)
    → RequestConfig
    → ProveSession
    → Network
    → Bytes
    → Outcome ExecuteError Bytes × ProveSession
execute parse_chat config session network data' =
    store session (as_rejected (check_and_pad parse_chat config data') >>= exchange network)
