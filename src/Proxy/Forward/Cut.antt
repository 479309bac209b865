-- ===== src/Proxy/Forward/Cut.antt =====
-- The task on a stream in which a record's length ends in the byte 53.
use zk_prompt.Base.{
  ◌<◌, ◌≡◌, refl, ap, sym, ◌∙◌, true, some, List, [], ◌∷◌, ◌++◌, Bytes, length, arith, append-nil,
  inl,
}
use zk_prompt.Field.{PrimeField}
use zk_prompt.Proxy.Tls.{drain_application_data}
use zk_prompt.Proxy.Tls.Record.{
  TlsRecord, Fits, AllFit, encode_record, encode_records, records_data, is_53, records_le,
}
use zk_prompt.Proxy.Tls.Drain.{flight_data, drain_application_data-records}
use zk_prompt.Proxy.Forward.{Task, fresh, receive, forward}
use zk_prompt.Proxy.Forward.Rounds.{Printed, Received, commit_stream_lem}
use zk_prompt.Proxy.Forward.Chunks.{No53, flight_data-No53, Copied, chunk_events, forward-round}

module _ (f : PrimeField) where
  -- A chunk of whole records, when nothing is pending.
  pub receive-records :
      (rs : List TlsRecord) (t : Task f)
      → AllFit rs
      → t.pending ≡ []
      → Printed f t
      → Received f (receive f (encode_records rs) t) t (flight_data rs) []
  unfolding receive
  receive-records rs t fits empty h =
      let e : drain_application_data (t.pending ++ encode_records rs) ≡ some (flight_data rs, []) =
        ap (λ (l : Bytes). drain_application_data (l ++ encode_records rs)) empty
        ∙ ap drain_application_data (sym (append-nil (encode_records rs)))
        ∙ drain_application_data-records rs [] fits tt in
      let r = commit_stream_lem f (flight_data rs) (record t { pending = [] }) h in
      record {
        out = r.out;
        runs = rw e r.runs;
        stream = r.stream;
        left = r.left;
        sent = r.sent;
        printed = r.printed;
      }

  one_chunk :
      (rs : List TlsRecord) (t : Task f)
      → AllFit rs
      → 0 < length (encode_records rs)
      → t.pending ≡ []
      → Printed f t
      → Copied f t
          (forward f (chunk_events (encode_records rs ∷ [])) t)
          (flight_data rs)
          []
          (encode_records rs)
  unfolding forward
  one_chunk rs t fits filled empty h =
      let r = receive-records rs t fits empty h in
      record {
        out = record r.out { sent = r.out.sent ++ encode_records rs };
        waits = forward-round f (encode_records rs) [] t r.out filled r.runs;
        stream = r.stream;
        left = r.left;
        sent = ap (λ (l : Bytes). l ++ encode_records rs) r.sent;
        printed = r.printed;
      }

  -- After a record whose length ends in the byte 53 come records of which none does. Read in one
  -- chunk, nothing is gathered of any of them. With the first record read by itself, the ciphertext
  -- of the later ones is gathered whole. Both ways all bytes are copied.
  pub forward_depends_on_cut :
      (r : TlsRecord) (rs : List TlsRecord)
      → Fits r
      → AllFit rs
      → is_53 r ≡ true
      → No53 rs
      → 0 < length rs
      → Copied f
          (fresh f)
          (forward f (chunk_events (encode_records (r ∷ rs) ∷ [])) (fresh f))
          []
          []
          (encode_records (r ∷ rs))
        × Copied f
            (fresh f)
            (forward f (chunk_events (encode_record r ∷ encode_records rs ∷ [])) (fresh f))
            (records_data rs)
            []
            (encode_record r ++ encode_records rs)
  forward_depends_on_cut r rs fits all_fit ends no53 some_left =
      let skipped : (qs : List TlsRecord) → flight_data (r ∷ qs) ≡ [] = λ qs. rw ends in
      let together = one_chunk (r ∷ rs) (fresh f) (fits, all_fit) (omega arith) refl (inl refl) in
      let r1 = receive-records (r ∷ []) (fresh f) (fits, tt) refl (inl refl) in
      let one : encode_record r ≡ encode_records (r ∷ []) = sym (append-nil (encode_record r)) in
      let next : Task f = record r1.out { sent = r1.out.sent ++ encode_record r } in
      let later = one_chunk rs next all_fit (omega (arith, records_le rs)) r1.left r1.printed in
      (
        record {
          out = together.out;
          waits = together.waits;
          stream = together.stream ∙ skipped rs;
          left = together.left;
          sent = together.sent;
          printed = together.printed;
        },
        record {
          out = later.out;
          waits =
              forward-round f (encode_record r) (chunk_events (encode_records rs ∷ [])) (fresh f)
                r1.out (omega arith) (ap (λ (l : Bytes). receive f l (fresh f)) one ∙ r1.runs)
              ∙ later.waits;
          stream =
              later.stream
              ∙ ap (λ (l : Bytes). l ++ flight_data rs) (r1.stream ∙ skipped [])
              ∙ flight_data-No53 rs no53;
          left = later.left;
          sent =
              later.sent ∙ ap (λ (l : Bytes). (l ++ encode_record r) ++ encode_records rs) r1.sent;
          printed = later.printed;
        },
      )
