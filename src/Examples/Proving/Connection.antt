-- ===== src/Examples/Proving/Connection.antt =====
-- The request on a connection of the proxy, behind a handshake.
use zk_prompt.Base.{
  ℕ, ◌+◌, ◌%◌, ◌≡◌, refl, ap, true, false, List, [], ◌∷◌, ◌++◌, Bytes, arith, ◌==◌,
}
use zk_prompt.Base.Outcome.{ok}
use zk_prompt.Field.Modular.{bn254}
use zk_prompt.Proxy.Forward.{Event, Exit, waiting, fresh, read_chunk}
use zk_prompt.Proxy.Forward.Chunks.{Copied, joined_chunks}
use zk_prompt.Proxy.Tls.Record.{TlsRecord, encode_records, record_data}
use zk_prompt.Proxy.Forward.Flights.{flight_chunks}
use zk_prompt.Proxy.Service.{
  Copy, Connection, refused, connected, Turn, connect_result, from_client, poll_forward,
  handle_client, ServiceEvent, accepted, turn, serving, serve,
}
use zk_prompt.Proxy.Service.Isolation.{own}
use zk_prompt.Proxy.Service.Streams.{client_events}
use zk_prompt.Session.Materials.{encrypt_with_chacha20}
use zk_prompt.Session.Proxied.{sealed_record}
use zk_prompt.Session.Proxied.Connection.{proxied_connection}
use zk_prompt.Examples.Parts.{tls, zeros}
use zk_prompt.Examples.Proving.{materials, logged, request_size}

abbrev silent : Copy
silent = record { State = Unit {0}; CopyEvent = Unit {0}; begin = tt; poll = λ e s. s }

-- A client's handshake: ClientHello, ChangeCipherSpec, and its Finished, encrypted, of 53 bytes.
abbrev client_hello : TlsRecord
client_hello = record {
  content_type = 0x16;
  version_hi = 3;
  version_lo = 1;
  payload = 1 ∷ 0 ∷ 0 ∷ 2 ∷ 3 ∷ 3 ∷ [];
}

abbrev change_cipher_spec : TlsRecord
change_cipher_spec = record {
  content_type = 0x14;
  version_hi = 3;
  version_lo = 3;
  payload = 1 ∷ [];
}

abbrev finished : TlsRecord
finished = record { content_type = 0x17; version_hi = 3; version_lo = 3; payload = zeros 53 }

abbrev flights : List (List TlsRecord)
flights = (client_hello ∷ []) ∷ (change_cipher_spec ∷ []) ∷ (finished ∷ []) ∷ []

abbrev request_record : TlsRecord
request_record = sealed_record tls (zeros 32) materials.request (zeros 16)

abbrev chunks : List Bytes
chunks = flight_chunks (flights ++ (request_record ∷ []) ∷ [])

abbrev read_flight : List TlsRecord → Event
read_flight rs = read_chunk (encode_records rs) true

abbrev turns : List (Turn bn254 silent)
turns =
    from_client (read_flight (client_hello ∷ []))
    ∷ from_client (read_flight (change_cipher_spec ∷ []))
    ∷ from_client (read_flight (finished ∷ []))
    ∷ from_client (read_flight (request_record ∷ []))
    ∷ []

abbrev events : List (ServiceEvent bn254 silent)
events =
    accepted
    ∷ turn 0 (connect_result true)
    ∷ accepted
    ∷ turn 0 (from_client (read_flight (client_hello ∷ [])))
    ∷ turn 1 (connect_result false)
    ∷ turn 0 (from_client (read_flight (change_cipher_spec ∷ [])))
    ∷ turn 0 (from_client (read_flight (finished ∷ [])))
    ∷ turn 0 (from_client (read_flight (request_record ∷ [])))
    ∷ []

abbrev task : Exit bn254
task = poll_forward bn254 silent (read_flight (request_record ∷ [])) (
    poll_forward bn254 silent (read_flight (finished ∷ [])) (
      poll_forward bn254 silent (read_flight (change_cipher_spec ∷ []))
        (poll_forward bn254 silent (read_flight (client_hello ∷ [])) (waiting (fresh bn254)))))

abbrev connections : List (Connection bn254 silent)
connections = connected task tt ∷ refused ∷ []

served : serve bn254 silent events [] ≡ serving connections
unfolding serve handle_client
served = refl

turns_kept : own bn254 silent 0 0 events ≡ connect_result true ∷ turns
unfolding own
turns_kept = refl

proxied_connection_example :
    (cipher : Bytes) × (key : Bytes) × (nonce : Bytes) × (b : ℕ) × (exit : Exit bn254)
    × (back : Unit {0}) × (encrypt_with_chacha20 tls materials ≡ ok (cipher, key, nonce))
    × (◌≡◌ {A = Connection bn254 silent} (connected task tt) (connected exit back))
    × Copied bn254 (fresh bn254) exit ([] ++ (cipher ++ b ∷ [])) [] (joined_chunks chunks)
unfolding client_events record_data
proxied_connection_example =
    proxied_connection tls bn254 silent (zeros 32) materials (zeros 16) events connections 0
      (connected task tt) turns flights chunks logged (omega (arith, request_size)) refl
      (ap (λ (k : ℕ). (k + 17) % 256 == 53) request_size) served refl turns_kept refl refl
      (omega arith)
