-- ===== src/Examples/Wire/Service.antt =====
-- Two connections of the proxy, whose turns alternate.
use zk_prompt.Base.{ℕ, ◌+◌, ◌≡◌, refl, true, false, List, [], ◌∷◌, arith}
use zk_prompt.Field.Modular.{bn254}
use zk_prompt.Proxy.Forward.{Event, Exit, waiting, fresh, read_chunk}
use zk_prompt.Proxy.Forward.Chunks.{Copied, joined_chunks}
use zk_prompt.Proxy.Tls.Record.{records_data}
use zk_prompt.Proxy.Service.{
  Copy, Connection, refused, connected, connect_result, from_client, from_target, poll_forward,
  handle_client, ServiceEvent, accepted, turn, serving, serve,
}
use zk_prompt.Proxy.Service.Isolation.{own}
use zk_prompt.Proxy.Service.Streams.{client_events, connection_copies}
use zk_prompt.Examples.Wire.{stream, started, reads, handshake, application}
use zk_prompt.Base.{take, drop}

-- The other direction, as a count of the bytes that came.
abbrev counting : Copy
counting = record { State = ℕ; CopyEvent = ℕ; begin = 0; poll = λ n s. s + n }

abbrev first_read : Event
first_read = read_chunk (take 4 stream) true

abbrev second_read : Event
second_read = read_chunk (drop 4 stream) true

-- The target refuses the first client; the second one sends its bytes in two reads.
abbrev events : List (ServiceEvent bn254 counting)
events =
    accepted
    ∷ accepted
    ∷ turn 1 (connect_result true)
    ∷ turn 0 (connect_result false)
    ∷ turn 1 (from_client first_read)
    ∷ turn 1 (from_target 5)
    ∷ turn 0 (from_target 2)
    ∷ turn 1 (from_client second_read)
    ∷ []

abbrev task : Exit bn254
task =
    poll_forward bn254 counting second_read
      (poll_forward bn254 counting first_read (waiting (fresh bn254)))

abbrev connections : List (Connection bn254 counting)
connections = refused ∷ connected task 5 ∷ []

served : serve bn254 counting events [] ≡ serving connections
unfolding serve handle_client
served = refl

turns_kept :
    own bn254 counting 1 0 events
    ≡ connect_result true ∷ from_client first_read ∷ from_target 5 ∷ from_client second_read ∷ []
unfolding own
turns_kept = refl

connection_copies_example :
    (exit : Exit bn254) × (back : ℕ) × (◌≡◌ {A = Connection bn254 counting}
      (connected task 5)
      (connected exit back))
    × Copied bn254
        (fresh bn254)
        exit
        (records_data (handshake ∷ application ∷ []))
        started
        (joined_chunks reads)
unfolding client_events
connection_copies_example =
    connection_copies bn254 counting events connections 1 (connected task 5)
      (from_client first_read ∷ from_target 5 ∷ from_client second_read ∷ []) reads
      (handshake ∷ application ∷ []) started served refl turns_kept refl
      (omega arith, (omega arith, tt)) (omega arith) refl (omega arith, (omega arith, tt))
      (refl, (refl, tt)) tt
