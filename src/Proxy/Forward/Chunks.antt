-- ===== src/Proxy/Forward/Chunks.antt =====
-- The task on a stream that is cut into chunks, while no record's length ends in the byte 53.
use mathlib.Core.Path.{subst}
use zk_prompt.Base.{
  ◌<◌, ◌≡◌, inl, refl, ap, sym, ◌∙◌, true, false, some, List, [], ◌∷◌, ◌++◌, map, Bytes, length,
  arith, ◌==◌, AllBytes, AllBytes-append, AllBytes-append_left, AllBytes-append_right, append_assoc,
  append-nil,
}
use zk_prompt.Field.{PrimeField}
use zk_prompt.Proxy.Tls.Record.{
  TlsRecord, AllFit, encode_records, record_data, records_data, is_53, IsIncomplete,
}
use zk_prompt.Proxy.Tls.Drain.{flight_data}
use zk_prompt.Proxy.Tls.Stream.{encode_records-prefix}
use zk_prompt.Proxy.Forward.Rounds.{Printed, receive_lem}
use zk_prompt.Proxy.Forward.{
  Event, read_chunk, Task, fresh, Exit, waiting, receive, write_chunk, forward,
}

-- No record's length ends in the byte 53.
abbrev pub No53 : List TlsRecord → Type 0
No53 [] = Unit {0}
No53 (r ∷ rs) = (is_53 r ≡ false) × No53 rs

-- Chunks as they are read: none is empty, and together they are these bytes.
abbrev pub joined_chunks : List Bytes → Bytes
joined_chunks [] = []
joined_chunks (c ∷ cs) = c ++ joined_chunks cs

abbrev pub AllFilled : List Bytes → Type 0
AllFilled [] = Unit {0}
AllFilled (c ∷ cs) = (0 < length c) × AllFilled cs

abbrev pub chunk_events : List Bytes → List Event
chunk_events cs = map (λ c. read_chunk c true) cs

No53-append_left : (rs ps : List TlsRecord) → No53 (rs ++ ps) → No53 rs
No53-append_left [] ps h = tt
No53-append_left (r ∷ rs) ps h = (h.0, No53-append_left rs ps h.1)

No53-append_right : (rs ps : List TlsRecord) → No53 (rs ++ ps) → No53 ps
No53-append_right [] ps h = h
No53-append_right (r ∷ rs) ps h = No53-append_right rs ps h.1

pub flight_data-No53 : (rs : List TlsRecord) → No53 rs → flight_data rs ≡ records_data rs
flight_data-No53 [] h = refl
flight_data-No53 (r ∷ rs) h = rw h.0

pub records_data-append :
    (rs ps : List TlsRecord) → records_data (rs ++ ps) ≡ records_data rs ++ records_data ps
records_data-append [] ps = refl
records_data-append (r ∷ rs) ps =
    ap (◌++◌ (record_data r)) (records_data-append rs ps)
    ∙ sym (append_assoc (record_data r) (records_data rs) (records_data ps))

module _ (f : PrimeField) where
  -- A task that still waits, after some events.
  pub record Copied (t : Task f) (exit : Exit f) (app_data tail bytes : Bytes) : Type 0 where
    pub out : Task f
    pub waits : exit ≡ waiting out
    pub stream : out.cipher_stream ≡ t.cipher_stream ++ app_data
    pub left : out.pending ≡ tail
    pub sent : out.sent ≡ t.sent ++ bytes
    pub printed : Printed f out

  no_records_left :
      (rs : List TlsRecord) (pending tail : Bytes)
      → AllFit rs
      → IsIncomplete pending
      → pending ≡ encode_records rs ++ tail
      → (records_data rs ≡ []) × (pending ≡ tail)
  no_records_left [] pending tail fits short e = (refl, e)
  no_records_left (r ∷ rs) pending tail fits short e =
      let split = (encode_records-prefix (r ∷ rs) [] tail pending fits tt short (sym e)).1 in
      cc (split)

  pub forward-round :
      (c : Bytes) (events : List Event) (t out : Task f)
      → 0 < length c
      → receive f c t ≡ some out
      → forward f (read_chunk c true ∷ events) t
        ≡ forward f events (record out { sent = out.sent ++ c })
  unfolding forward
  forward-round c events t out filled e =
      let filled' : (length c == 0) ≡ false = ground (arith, filled) in
      rw (filled', forward) (unfold write_chunk in rw e refl)

  forward_from :
      (chunks : List Bytes) (t : Task f) (rs : List TlsRecord) (tail : Bytes)
      → AllFilled chunks
      → AllBytes (t.pending ++ joined_chunks chunks)
      → t.pending ++ joined_chunks chunks ≡ encode_records rs ++ tail
      → AllFit rs
      → No53 rs
      → IsIncomplete t.pending
      → IsIncomplete tail
      → Printed f t
      → Copied t (forward f (chunk_events chunks) t) (records_data rs) tail (joined_chunks chunks)
  unfolding forward
  forward_from [] t rs tail filled b e fits no53 waits short h =
      let (no_data, left) =
        no_records_left rs t.pending tail fits waits (sym (append-nil t.pending) ∙ e) in
      record {
        out = t;
        waits = refl;
        stream = sym (append-nil t.cipher_stream) ∙ ap (◌++◌ t.cipher_stream) (sym no_data);
        left = left;
        sent = sym (append-nil t.sent);
        printed = h;
      }
  forward_from (c ∷ cs) t rs tail filled b e fits no53 waits short h =
      let later = joined_chunks cs in
      let all : AllBytes ((t.pending ++ c) ++ later) =
        subst AllBytes (sym (append_assoc t.pending c later)) b in
      let here = AllBytes-append_left (t.pending ++ c) later all in
      let (s, r) = receive_lem f c t here h in
      let (ps, parts, rest, fits') =
        encode_records-prefix s.records rs (s.tail ++ later) tail s.fits fits short (
          sym (append_assoc (encode_records s.records) s.tail later)
          ∙ ap (λ (l : Bytes). l ++ later) s.joins
          ∙ append_assoc t.pending c later
          ∙ e) in
      let no53' : No53 (s.records ++ ps) = subst No53 parts no53 in
      let kept : AllBytes (s.tail ++ later) =
        AllBytes-append s.tail later
          (AllBytes-append_right (encode_records s.records) s.tail
            (subst AllBytes (sym s.joins) here))
          (AllBytes-append_right (t.pending ++ c) later all) in
      let next : Task f = record r.out { sent = r.out.sent ++ c } in
      let moved : next.pending ++ later ≡ s.tail ++ later = ap (λ (l : Bytes). l ++ later) r.left in
      let rec =
        forward_from cs next ps tail filled.1 (subst AllBytes (sym moved) kept) (moved ∙ rest) fits'
          (No53-append_right s.records ps no53') (subst IsIncomplete (sym r.left) s.short) short
          r.printed in
      record {
        out = rec.out;
        waits = forward-round c (chunk_events cs) t r.out filled.0 r.runs ∙ rec.waits;
        stream =
            rec.stream
            ∙ ap (λ (l : Bytes). l ++ records_data ps)
                (r.stream
                  ∙ ap (◌++◌ t.cipher_stream)
                      (flight_data-No53 s.records (No53-append_left s.records ps no53')))
            ∙ append_assoc t.cipher_stream (records_data s.records) (records_data ps)
            ∙ ap (◌++◌ t.cipher_stream)
                (sym (records_data-append s.records ps) ∙ ap records_data (sym parts));
        left = rec.left;
        sent =
            rec.sent ∙ ap (λ (l : Bytes). (l ++ c) ++ later) r.sent ∙ append_assoc t.sent c later;
        printed = rec.printed;
      }

  -- However the bytes of a stream of whole records and an incomplete one are cut into chunks, if no
  -- record's length ends in the byte 53 the task copies all of them, keeps the incomplete bytes, and
  -- has gathered the tagless ciphertext of all application data records; the last line that it
  -- printed is the commitment to that ciphertext and its length.
  pub forward_any_chunks :
      (chunks : List Bytes) (rs : List TlsRecord) (tail : Bytes)
      → AllFilled chunks
      → AllBytes (joined_chunks chunks)
      → joined_chunks chunks ≡ encode_records rs ++ tail
      → AllFit rs
      → No53 rs
      → IsIncomplete tail
      → Copied
          (fresh f)
          (forward f (chunk_events chunks) (fresh f))
          (records_data rs)
          tail
          (joined_chunks chunks)
  forward_any_chunks chunks rs tail filled b e fits no53 short =
      forward_from chunks (fresh f) rs tail filled b e fits no53 tt short (inl refl)
