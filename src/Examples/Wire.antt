-- ===== src/Examples/Wire.antt =====
-- TLS records on concrete bytes.
pub mod Service
use zk_prompt.Base.{
  ℕ, ◌≡◌, refl, true, false, some, List, [], ◌∷◌, ◌++◌, Bytes, arith, replicate, take, drop,
}
use zk_prompt.Proxy.Tls.{drain_application_data}
use zk_prompt.Field.Modular.{bn254}
use zk_prompt.Proxy.Forward.{read_chunk, fresh, forward}
use zk_prompt.Proxy.Forward.Safe.{ExitIsTyped, fresh-IsTyped, forward-IsTyped}
use zk_prompt.Proxy.Forward.Chunks.{Copied, chunk_events, joined_chunks, forward_any_chunks}
use zk_prompt.Proxy.Forward.Cut.{forward_depends_on_cut}
use zk_prompt.Proxy.Tls.Record.{TlsRecord, records_data, encode_record, encode_records}
use zk_prompt.Proxy.Tls.Drain.{flight_data, drain_application_data-records}
use zk_prompt.Proxy.Tls.Stream.{Split, drain_application_data_total}

abbrev tag : Bytes
tag = replicate {A = ℕ} 16 9

abbrev handshake : TlsRecord
handshake = record { content_type = 0x16; version_hi = 3; version_lo = 3; payload = 1 ∷ 2 ∷ [] }

abbrev application : TlsRecord
application = record { content_type = 0x17; version_hi = 3; version_lo = 3; payload = 7 ∷ 8 ∷ tag }

-- The first three bytes of another record.
abbrev started : Bytes
started = 0x17 ∷ 3 ∷ 3 ∷ []

drained :
    drain_application_data (encode_records (handshake ∷ application ∷ []) ++ started)
    ≡ some (7 ∷ 8 ∷ [], started)
unfolding drain_application_data
drained = refl

drain_application_data-records_example :
    drain_application_data (encode_records (handshake ∷ application ∷ []) ++ started)
    ≡ some (flight_data (handshake ∷ application ∷ []), started)
drain_application_data-records_example =
    drain_application_data-records (handshake ∷ application ∷ []) started
      (omega arith, (omega arith, tt)) tt

drain_application_data_total_example :
    (s : Split (0x16 ∷ 3 ∷ 3 ∷ 0 ∷ 1 ∷ 5 ∷ started)) × (drain_application_data
        (0x16 ∷ 3 ∷ 3 ∷ 0 ∷ 1 ∷ 5 ∷ started)
      ≡ some (flight_data s.records, s.tail))
drain_application_data_total_example =
    drain_application_data_total (0x16 ∷ 3 ∷ 3 ∷ 0 ∷ 1 ∷ 5 ∷ started) (omega arith)

-- The same bytes in two reads.
abbrev stream : Bytes
stream = encode_records (handshake ∷ application ∷ []) ++ started

abbrev reads : List Bytes
reads = take 4 stream ∷ drop 4 stream ∷ []

forward_any_chunks_example :
    Copied bn254
      (fresh bn254)
      (forward bn254 (chunk_events reads) (fresh bn254))
      (records_data (handshake ∷ application ∷ []))
      started
      (joined_chunks reads)
forward_any_chunks_example =
    forward_any_chunks bn254 reads (handshake ∷ application ∷ []) started
      (omega arith, (omega arith, tt)) (omega arith) refl (omega arith, (omega arith, tt))
      (refl, (refl, tt)) tt

-- A record of 53 bytes.
abbrev record_53 : TlsRecord
record_53 = record {
  content_type = 0x17;
  version_hi = 3;
  version_lo = 3;
  payload = replicate {A = ℕ} 53 1;
}

forward_depends_on_cut_example :
    Copied bn254
      (fresh bn254)
      (forward bn254
        (chunk_events (encode_records (record_53 ∷ application ∷ []) ∷ []))
        (fresh bn254))
      []
      []
      (encode_records (record_53 ∷ application ∷ []))
    × Copied bn254
        (fresh bn254)
        (forward bn254
          (chunk_events (encode_record record_53 ∷ encode_records (application ∷ []) ∷ []))
          (fresh bn254))
        (records_data (application ∷ []))
        []
        (encode_record record_53 ++ encode_records (application ∷ []))
forward_depends_on_cut_example =
    forward_depends_on_cut bn254 record_53 (application ∷ []) (omega arith) (omega arith, tt) refl
      (refl, tt) (omega arith)

-- Bytes that are no records, and a write that fails.
forward-IsTyped_example :
    ExitIsTyped bn254 (
      forward bn254
        (read_chunk (23 ∷ 53 ∷ []) true ∷ read_chunk (53 ∷ []) false ∷ [])
        (fresh bn254))
forward-IsTyped_example =
    forward-IsTyped bn254 (read_chunk (23 ∷ 53 ∷ []) true ∷ read_chunk (53 ∷ []) false ∷ [])
      (fresh bn254) (omega arith, (omega arith, tt)) (fresh-IsTyped bn254)
