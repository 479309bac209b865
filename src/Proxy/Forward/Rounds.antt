-- ===== src/Proxy/Forward/Rounds.antt =====
-- One round of the task's loop.
use zk_prompt.Base.{
  ℕ, ◌≡◌, ◌⊎◌, inr, refl, sym, Option, some, List, [], ◌∷◌, ◌++◌, Bytes, length, AllBytes,
  append-nil,
}
use zk_prompt.Field.{PrimeField}
use zk_prompt.Commitment.{cipher_commitment}
use zk_prompt.Commitment.Pack.{mimc_commit-some}
use zk_prompt.Proxy.Tls.Drain.{flight_data}
use zk_prompt.Proxy.Tls.Stream.{Split, drain_application_data_total}
use zk_prompt.Proxy.Forward.{Task, commit_stream, receive}

module _ (f : PrimeField) where
  -- The last line printed is about the whole stream so far; nothing is printed before any data.
  abbrev pub Printed : Task f → Type 0
  Printed t =
      (t.cipher_stream ≡ [])
      ⊎ ((lines : List (f.F × ℕ)) × (c : f.F) × (cipher_commitment f t.cipher_stream ≡ some c)
          × (t.printed ≡ lines ++ (c, length t.cipher_stream) ∷ []))

  -- A round of the loop that succeeds.
  pub record Received (run : Option (Task f)) (t : Task f) (app_data pending : Bytes) : Type 0 where
    pub out : Task f
    pub runs : run ≡ some out
    pub stream : out.cipher_stream ≡ t.cipher_stream ++ app_data
    pub left : out.pending ≡ pending
    pub sent : out.sent ≡ t.sent
    pub printed : Printed out

  pub commit_stream_lem :
      (app_data : Bytes) (t : Task f)
      → Printed t
      → Received (commit_stream f app_data t) t app_data t.pending
  unfolding commit_stream cipher_commitment
  commit_stream_lem [] t h = record {
    out = t;
    runs = refl;
    stream = sym (append-nil t.cipher_stream);
    left = refl;
    sent = refl;
    printed = h;
  }
  commit_stream_lem (b ∷ app_data) t h =
      let (c, e) = mimc_commit-some f (t.cipher_stream ++ b ∷ app_data) in
      record {
        out = record t {
          cipher_stream = t.cipher_stream ++ b ∷ app_data;
          printed = t.printed ++ (c, length (t.cipher_stream ++ b ∷ app_data)) ∷ [];
        };
        runs = rw e;
        stream = refl;
        left = refl;
        sent = refl;
        printed = inr (t.printed, c, e, refl);
      }

  -- One round takes the whole records off the bytes that have come.
  pub receive_lem :
      (chunk : Bytes) (t : Task f)
      → AllBytes (t.pending ++ chunk)
      → Printed t
      → (s : Split (t.pending ++ chunk)) × Received
          (receive f chunk t)
          t
          (flight_data s.records)
          s.tail
  unfolding receive
  receive_lem chunk t b h =
      let (s, e) = drain_application_data_total (t.pending ++ chunk) b in
      let r = commit_stream_lem (flight_data s.records) (record t { pending = s.tail }) h in
      (
        s,
        record {
          out = r.out;
          runs = rw e r.runs;
          stream = r.stream;
          left = r.left;
          sent = r.sent;
          printed = r.printed;
        },
      )
