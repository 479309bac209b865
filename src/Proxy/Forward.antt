-- ===== src/Proxy/Forward.antt =====
-- proxy/src/main.rs: the task `forward`, which copies one direction of a connection and prints the
-- commitment to the application data seen so far. Reading and writing are events; `none` in
-- `receive` is a panic.
pub mod Rounds
pub mod Chunks
pub mod Cut
pub mod Flights
pub mod Safe
use zk_prompt.Base.{
  ℕ, ◌+◌, Bool, true, false, Option, none, some, List, [], ◌∷◌, ◌++◌, Bytes, length, ◌==◌,
  if◌then◌else◌,
}
use zk_prompt.Base.Partial.{◌>>=◌, ◌>>◌}
use zk_prompt.Field.{PrimeField}
use zk_prompt.Commitment.{cipher_commitment}
use zk_prompt.Proxy.Tls.{drain_application_data}

-- What `from.read` gives, and whether the `to.write_all` behind it succeeds. A read of no bytes is
-- the end of the stream.
pub data Event : Type 0 where
  read_error : Event
  read_chunk : Bytes → Bool → Event

module _ (f : PrimeField) where
  -- The task's variables, the lines it has printed, and the chunks it has written whole.
  pub record Task : Type 0 where
    pub pending : Bytes
    pub cipher_stream : Bytes
    pub printed : List (f.F × ℕ)
    pub sent : Bytes

  abbrev pub fresh : Task
  fresh = record { pending = []; cipher_stream = []; printed = []; sent = [] }

  pub data Exit : Type 0 where
    waiting : Task → Exit
    ended : Task → Exit
    failed : Task → Exit
    panicked : Exit

  -- `if !app_data.is_empty() { ... }`
  unfoldable pub commit_stream : Bytes → Task → Option Task
  commit_stream [] t = some t
  commit_stream (b ∷ app_data) t = do
    let cipher_stream = t.cipher_stream ++ b ∷ app_data
    commitment ← cipher_commitment f cipher_stream
    some (record t {
      cipher_stream = cipher_stream;
      printed = t.printed ++ (commitment, length cipher_stream) ∷ [];
    })

  -- The loop's body from `pending.extend_from_slice(chunk)` to the write.
  unfoldable pub receive : Bytes → Task → Option Task
  unfolding commit_stream
  receive chunk t = do
    (app_data, pending) ← drain_application_data (t.pending ++ chunk)
    commit_stream app_data (record t { pending = pending })

  -- What follows the body: the write, and `next`, the loop's next round.
  unfoldable pub write_chunk : (Task → Exit) → Bytes → Bool → Option Task → Exit
  write_chunk next chunk written none = panicked
  write_chunk next chunk written (some t) = elim written [
    | true ↦ next (record t { sent = t.sent ++ chunk })
    | false ↦ failed t
  ]

  -- The loop over the events; `waiting` is a task that has not yet returned.
  unfoldable pub forward : List Event → Task → Exit
  forward [] t = waiting t
  forward (read_error ∷ events) t = failed t
  forward (read_chunk chunk written ∷ events) t = elim (length chunk == 0) [
    | true ↦ ended t
    | false ↦ write_chunk (forward events) chunk written (receive chunk t)
  ]
