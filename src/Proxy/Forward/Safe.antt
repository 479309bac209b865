-- ===== src/Proxy/Forward/Safe.antt =====
-- The task on any bytes, whole records or not, with reads and writes that may fail.
use mathlib.Core.Path.{subst}
use zk_prompt.Base.{
  ◌-◌, ◌≡◌, refl, sym, Bool, true, false, Bool-cases, inl, inr, some, List, [], ◌∷◌, Bytes, length,
  leb, ◌==◌, AllBytes, AllBytes-append, AllBytes-append_left, AllBytes-take, AllBytes-append_right,
  if◌then◌else◌,
}
use zk_prompt.Field.{PrimeField}
use zk_prompt.Proxy.Tls.Record.{TlsRecord, encode_record, encode_records, record_data, records_data}
use zk_prompt.Proxy.Tls.Drain.{flight_data}
use zk_prompt.Proxy.Forward.{
  Event, read_error, read_chunk, Task, fresh, Exit, waiting, ended, failed, panicked, receive,
  write_chunk, forward,
}
use zk_prompt.Proxy.Forward.Rounds.{Printed, receive_lem}

record_data-AllBytes : (r : TlsRecord) → AllBytes r.payload → AllBytes (record_data r)
unfolding record_data
record_data-AllBytes r h = elim (Bool-cases (r.content_type == 0x17)) [
  | inl data' ↦ elim (Bool-cases (leb 16 (length r.payload))) [
    | inl long ↦ rw (data', long) (AllBytes-take (length r.payload - 16) r.payload h)
    | inr short ↦ rw (data', short) tt
  ]
  | inr other ↦ rw other tt
]

records_data-AllBytes :
    (rs : List TlsRecord) → AllBytes (encode_records rs) → AllBytes (records_data rs)
records_data-AllBytes [] h = tt
records_data-AllBytes (r ∷ rs) h =
    AllBytes-append (record_data r) (records_data rs)
      (record_data-AllBytes r
        (AllBytes-append_left (encode_record r) (encode_records rs) h).1.1.1.1.1)
      (records_data-AllBytes rs (AllBytes-append_right (encode_record r) (encode_records rs) h))

if_AllBytes : (b : Bool) (xs : Bytes) → AllBytes xs → AllBytes (if b then [] else xs)
if_AllBytes true xs h = tt
if_AllBytes false xs h = h

flight_data-AllBytes :
    (rs : List TlsRecord) → AllBytes (encode_records rs) → AllBytes (flight_data rs)
flight_data-AllBytes [] h = tt
flight_data-AllBytes (r ∷ rs) h =
    if_AllBytes _ (records_data (r ∷ rs)) (records_data-AllBytes (r ∷ rs) h)

abbrev pub AllByteChunks : List Event → Type 0
AllByteChunks [] = Unit {0}
AllByteChunks (read_error ∷ events) = AllByteChunks events
AllByteChunks (read_chunk c written ∷ events) = AllBytes c × AllByteChunks events

module _ (f : PrimeField) where
  -- The task's byte strings hold bytes, and its last line is about its stream.
  pub record IsTyped (t : Task f) : Type 0 where
    pub pending_bytes : AllBytes t.pending
    pub stream_bytes : AllBytes t.cipher_stream
    pub sent_bytes : AllBytes t.sent
    pub last_line : Printed f t

  -- A task that has not panicked.
  abbrev pub ExitIsTyped : Exit f → Type 0
  ExitIsTyped (waiting t) = IsTyped t
  ExitIsTyped (ended t) = IsTyped t
  ExitIsTyped (failed t) = IsTyped t
  ExitIsTyped panicked = ⊥

  pub fresh-IsTyped : IsTyped (fresh f)
  fresh-IsTyped = record {
    pending_bytes = tt;
    stream_bytes = tt;
    sent_bytes = tt;
    last_line = inl refl;
  }

  receive-IsTyped :
      (c : Bytes) (t : Task f)
      → AllBytes c
      → IsTyped t
      → (out : Task f) × (receive f c t ≡ some out) × IsTyped out
  receive-IsTyped c t b h =
      let both = AllBytes-append t.pending c (h.pending_bytes) b in
      let (s, r) = receive_lem f c t both (h.last_line) in
      let joined = subst AllBytes (sym s.joins) both in
      (
        r.out,
        r.runs,
        record {
          pending_bytes =
              subst AllBytes (sym r.left)
                (AllBytes-append_right (encode_records s.records) s.tail joined);
          stream_bytes = subst AllBytes (sym r.stream) (
              AllBytes-append t.cipher_stream (flight_data s.records) (h.stream_bytes) (
                flight_data-AllBytes s.records
                  (AllBytes-append_left (encode_records s.records) s.tail joined)));
          sent_bytes = subst AllBytes (sym r.sent) (h.sent_bytes);
          last_line = r.printed;
        },
      )

  -- On any reads of bytes, whatever the bytes are, and whether reads and writes fail or not, a task
  -- whose buffers hold bytes does not panic; its buffers hold bytes afterwards, and if it has
  -- gathered application data, its last line is the commitment to all of it, with its length,
  -- provided that this was so before.
  pub forward-IsTyped :
      (events : List Event) (t : Task f)
      → AllByteChunks events
      → IsTyped t
      → ExitIsTyped (forward f events t)
  unfolding forward write_chunk
  forward-IsTyped [] t b h = h
  forward-IsTyped (read_error ∷ events) t b h = h
  forward-IsTyped (read_chunk c written ∷ events) t b h = elim (Bool-cases (length c == 0)) [
    | inl empty ↦ rw (empty, forward) h
    | inr filled ↦
        let (out, runs, typed) = receive-IsTyped c t b.0 h in
        elim (Bool-cases written) [
          | inl whole ↦
              rw (filled, forward)
                (rw (runs, write_chunk)
                  (rw whole (
                    forward-IsTyped events _ b.1 (record {
                      pending_bytes = typed.pending_bytes;
                      stream_bytes = typed.stream_bytes;
                      sent_bytes = AllBytes-append out.sent c (typed.sent_bytes) b.0;
                      last_line = typed.last_line;
                    }))))
          | inr broken ↦ rw (filled, forward) (rw (runs, write_chunk) (rw broken typed))
        ]
  ]
