-- ===== src/Proxy/Service.antt =====
-- proxy/src/main.rs: `main`, and `handle_client` as a task for each connection. What the network and
-- the clock of the runtime do is a sequence of events: an accepted connection, or a turn of one
-- connection's tasks. `tokio::io::copy`, which copies what the target answers, is an interface.
pub mod Isolation
pub mod Streams
use zk_prompt.Base.{
  ℕ, ◌+◌, Bool, true, false, Option, none, some, List, [], ◌∷◌, ◌++◌, Bytes, get_elem?, set,
}
use zk_prompt.Base.Text.{Str}
use zk_prompt.Base.Outcome.{Outcome, ok, err, panic, ◌>>=◌, ◌>>◌, assert, in_range}
use zk_prompt.Field.{PrimeField}
use zk_prompt.Proxy.Forward.{Event, Exit, waiting, ended, failed, panicked, fresh, forward}

-- The arguments of the command line, as the parser (clap) gives them.
pub record Command : Type 0 where
  pub port : ℕ
  pub forward : Str

-- `res.iter().next()`
abbrev pub first_of {ℓ} : {A : Type ℓ} → List A → Option A
first_of [] = none
first_of (x ∷ xs) = some x

-- `main` up to the loop: whether the listener binds, the resolver if there is one, and what it
-- answers. The result is the address of the target; the errors of this part are all unwrapped.
unfoldable pub startup {ℓ} :
    {E : Type 0} {Ip : Type ℓ}
    → (ℕ → Bool)
    → Option (Str → Option (List Ip))
    → Command
    → Outcome E (Ip × ℕ)
startup bind resolver args = do
  assert (bind args.port)
  lookup_ip ← in_range resolver
  res ← in_range (lookup_ip args.forward)
  server_ip ← in_range (first_of res)
  ok (server_ip, 443)

-- `tokio::io::copy`: a task with a state.
pub record Copy : Type 1 where
  pub State : Type 0
  pub CopyEvent : Type 0
  pub begin : State
  pub poll : CopyEvent → State → State

module _ (f : PrimeField) (copy : Copy) where
  -- A connection: `handle_client` waits for the target, or has returned an error, or has spawned
  -- `forward` and copies the other direction.
  pub data Connection : Type 0 where
    connecting : Connection
    refused : Connection
    connected : Exit f → copy.State → Connection

  pub data Turn : Type 0 where
    connect_result : Bool → Turn
    from_client : Event → Turn
    from_target : copy.CopyEvent → Turn

  -- A turn of the spawned task: one that has returned has no further turn.
  unfoldable pub poll_forward : Event → Exit f → Exit f
  poll_forward e (waiting t) = forward f (e ∷ []) t
  poll_forward e (ended t) = ended t
  poll_forward e (failed t) = failed t
  poll_forward e panicked = panicked

  unfoldable pub handle_client : Turn → Connection → Connection
  handle_client (connect_result true) connecting = connected (waiting (fresh f)) copy.begin
  handle_client (connect_result false) connecting = refused
  handle_client (from_client e) (connected task back) = connected (poll_forward e task) back
  handle_client (from_target e) (connected task back) = connected task (copy.poll e back)
  handle_client (connect_result _) refused = refused
  handle_client (connect_result _) (connected task back) = connected task back
  handle_client (from_client _) connecting = connecting
  handle_client (from_client _) refused = refused
  handle_client (from_target _) connecting = connecting
  handle_client (from_target _) refused = refused

  pub data ServiceEvent : Type 0 where
    accepted : ServiceEvent
    accept_failed : ServiceEvent
    turn : ℕ → Turn → ServiceEvent

  pub data Service : Type 0 where
    serving : List Connection → Service
    stopped : Service

  abbrev pub turn_of : Option Connection → ℕ → Turn → List Connection → List Connection
  turn_of none i e connections = connections
  turn_of (some c) i e connections = set connections i (handle_client e c)

  -- The loop of `main`: a connection's result is ignored, an error of `accept` ends the program.
  unfoldable pub serve : List ServiceEvent → List Connection → Service
  serve [] connections = serving connections
  serve (accepted ∷ events) connections = serve events (connections ++ connecting ∷ [])
  serve (accept_failed ∷ events) connections = stopped
  serve (turn i e ∷ events) connections =
      serve events (turn_of (get_elem? connections i) i e connections)
