-- ===== src/Proxy/Forward/Flights.antt =====
-- The task on flights of records, each read in one chunk.
use zk_prompt.Base.{
  ◌<◌, ◌≡◌, refl, ap, sym, ◌∙◌, List, [], ◌∷◌, ◌++◌, map, Bytes, length, arith, append_assoc,
  append-nil,
}
use zk_prompt.Field.{PrimeField}
use zk_prompt.Proxy.Tls.Record.{TlsRecord, AllFit, encode_records, records_le}
use zk_prompt.Proxy.Tls.Drain.{flight_data}
use zk_prompt.Proxy.Forward.{Task, forward}
use zk_prompt.Proxy.Forward.Rounds.{Printed}
use zk_prompt.Proxy.Forward.Chunks.{joined_chunks, chunk_events, Copied, forward-round}
use zk_prompt.Proxy.Forward.Cut.{receive-records}

-- Flights: lists of one record or more, whose lengths fit in two bytes.
abbrev pub AreFlights : List (List TlsRecord) → Type 0
AreFlights [] = Unit {0}
AreFlights (rs ∷ flights) = (0 < length rs) × AllFit rs × AreFlights flights

-- What is gathered of flights that are read one by one.
abbrev pub flights_data : List (List TlsRecord) → Bytes
flights_data [] = []
flights_data (rs ∷ flights) = flight_data rs ++ flights_data flights

abbrev pub flight_chunks : List (List TlsRecord) → List Bytes
flight_chunks flights = map encode_records flights

pub flights_data-append :
    (fs gs : List (List TlsRecord)) → flights_data (fs ++ gs) ≡ flights_data fs ++ flights_data gs
flights_data-append [] gs = refl
flights_data-append (rs ∷ fs) gs =
    ap (◌++◌ (flight_data rs)) (flights_data-append fs gs)
    ∙ sym (append_assoc (flight_data rs) (flights_data fs) (flights_data gs))

pub AreFlights-append :
    (fs gs : List (List TlsRecord)) → AreFlights fs → AreFlights gs → AreFlights (fs ++ gs)
AreFlights-append [] gs h k = k
AreFlights-append (rs ∷ fs) gs h k = (h.0, h.1, AreFlights-append fs gs h.2 k)

module _ (f : PrimeField) where
  -- The task copies the flights, keeps nothing back, and gathers what it gathers of each.
  pub forward_flights :
      (flights : List (List TlsRecord)) (t : Task f)
      → AreFlights flights
      → t.pending ≡ []
      → Printed f t
      → Copied f t
          (forward f (chunk_events (flight_chunks flights)) t)
          (flights_data flights)
          []
          (joined_chunks (flight_chunks flights))
  unfolding forward
  forward_flights [] t are empty h = record {
    out = t;
    waits = refl;
    stream = sym (append-nil t.cipher_stream);
    left = empty;
    sent = sym (append-nil t.sent);
    printed = h;
  }
  forward_flights (rs ∷ flights) t (some', fits, are) empty h =
      let c : Bytes = encode_records rs in
      let r = receive-records f rs t fits empty h in
      let next : Task f = record r.out { sent = r.out.sent ++ c } in
      let rec = forward_flights flights next are r.left r.printed in
      record {
        out = rec.out;
        waits =
            forward-round f c (chunk_events (flight_chunks flights)) t r.out
              (omega (arith, records_le rs, some')) r.runs
            ∙ rec.waits;
        stream =
            rec.stream
            ∙ ap (λ (l : Bytes). l ++ flights_data flights) r.stream
            ∙ append_assoc t.cipher_stream (flight_data rs) (flights_data flights);
        left = rec.left;
        sent =
            rec.sent
            ∙ ap (λ (l : Bytes). (l ++ c) ++ joined_chunks (flight_chunks flights)) r.sent
            ∙ append_assoc t.sent c (joined_chunks (flight_chunks flights));
        printed = rec.printed;
      }
