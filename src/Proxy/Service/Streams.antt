-- ===== src/Proxy/Service/Streams.antt =====
-- The streams of the proxy's connections.
use zk_prompt.Base.{
  ℕ, ◌≡◌, refl, ap, sym, ◌∙◌, Bool, true, false, Option, none, some, List, [], ◌∷◌, ◌++◌, Bytes,
  length, get_elem?, AllBytes, ◌==◌, Bool-cases, inl, inr,
}
use mathlib.Core.Path.{subst}
use zk_prompt.Field.{PrimeField}
use zk_prompt.Proxy.Tls.Record.{TlsRecord, AllFit, encode_records, records_data, IsIncomplete}
use zk_prompt.Proxy.Forward.{
  Event, read_error, read_chunk, Task, fresh, Exit, waiting, ended, failed, panicked, receive,
  write_chunk, forward,
}
use zk_prompt.Proxy.Forward.Chunks.{
  No53, joined_chunks, AllFilled, chunk_events, Copied, forward_any_chunks,
}
use zk_prompt.Proxy.Service.{
  Copy, Connection, connecting, connected, Turn, connect_result, from_client, from_target,
  poll_forward, handle_client, ServiceEvent, serving, serve,
}
use zk_prompt.Proxy.Service.Isolation.{alone, own, serve-alone}

module _ (f : PrimeField) where
  -- The task goes on where it stands.
  abbrev continue : List Event → Exit f → Exit f
  continue events (waiting t) = forward f events t
  continue events (ended t) = ended t
  continue events (failed t) = failed t
  continue events panicked = panicked

  write_chunk-continue :
      (c : Bytes) (events : List Event) (written : Bool) (o : Option (Task f))
      → write_chunk f (forward f events) c written o
        ≡ continue events (write_chunk f (forward f []) c written o)
  unfolding write_chunk forward
  write_chunk-continue c events written none = refl
  write_chunk-continue c events true (some t) = refl
  write_chunk-continue c events false (some t) = refl

  -- One turn, and then the others.
  forward-cons :
      (e : Event) (events : List Event) (t : Task f)
      → forward f (e ∷ events) t ≡ continue events (forward f (e ∷ []) t)
  unfolding forward
  forward-cons read_error events t = refl
  forward-cons (read_chunk c written) events t = elim (Bool-cases (length c == 0)) [
    | inl empty ↦ rw (empty, forward) refl
    | inr filled ↦ rw (filled, forward) (write_chunk-continue c events written (receive f c t))
  ]

module _ (f : PrimeField) (copy : Copy) where
  -- What the client's side of a connection meets.
  unfoldable pub client_events : List (Turn f copy) → List Event
  client_events [] = []
  client_events (connect_result b ∷ ts) = client_events ts
  client_events (from_client e ∷ ts) = e ∷ client_events ts
  client_events (from_target e ∷ ts) = client_events ts

  continue-poll :
      (e : Event) (events : List Event) (exit : Exit f)
      → continue f events (poll_forward f copy e exit) ≡ continue f (e ∷ events) exit
  unfolding poll_forward
  continue-poll e events (waiting t) = sym (forward-cons f e events t)
  continue-poll e events (ended t) = refl
  continue-poll e events (failed t) = refl
  continue-poll e events panicked = refl

  continue-nil : (exit : Exit f) → continue f [] exit ≡ exit
  unfolding forward
  continue-nil (waiting t) = refl
  continue-nil (ended t) = refl
  continue-nil (failed t) = refl
  continue-nil panicked = refl

  -- Behind the connection, the two directions do not meet.
  alone-connected :
      (ts : List (Turn f copy)) (exit : Exit f) (back : copy.State)
      → (back' : copy.State) × (alone f copy ts (connected exit back)
          ≡ connected (continue f (client_events ts) exit) back')
  unfolding client_events handle_client
  alone-connected [] exit back =
      (back, ap (λ (x : Exit f). connected x back) (sym (continue-nil exit)))
  alone-connected (connect_result b ∷ ts) exit back = alone-connected ts exit back
  alone-connected (from_client e ∷ ts) exit back =
      let (back', h) = alone-connected ts (poll_forward f copy e exit) back in
      (back', h ∙ ap (λ (x : Exit f). connected x back') (continue-poll e (client_events ts) exit))
  alone-connected (from_target e ∷ ts) exit back = alone-connected ts exit (copy.poll e back)

  -- A connection whose target has answered runs the task on what its client's side meets.
  pub connected-forward :
      (events : List (ServiceEvent f copy)) (cs : List (Connection f copy)) (i : ℕ)
      (c : Connection f copy) (ts : List (Turn f copy))
      → serve f copy events [] ≡ serving cs
      → get_elem? cs i ≡ some c
      → own f copy i 0 events ≡ connect_result true ∷ ts
      → (back : copy.State) × (c ≡ connected (forward f (client_events ts) (fresh f)) back)
  unfolding handle_client
  connected-forward events cs i c ts ends here turns =
      let (back, e) = alone-connected ts (waiting (fresh f)) copy.begin in
      (
        back,
        serve-alone f copy events cs i c ends here
            ∙ ap (λ (l : List (Turn f copy)). alone f copy l connecting) turns
            ∙ e,
      )

  -- While the proxy serves, whatever the other connections do: a connection whose target has
  -- answered, and whose client sent whole records and an incomplete one, none with a length that
  -- ends in the byte 53, in chunks that are not empty and were all written, has a task that still
  -- waits, has copied all the bytes, keeps the incomplete ones, and has gathered the tagless
  -- ciphertext of the application data of this client and of no other; if there is any, its last
  -- line is the commitment to that.
  pub connection_copies :
      (events : List (ServiceEvent f copy)) (cs : List (Connection f copy)) (i : ℕ)
      (c : Connection f copy) (ts : List (Turn f copy)) (chunks : List Bytes) (rs : List TlsRecord)
      (tail : Bytes)
      → serve f copy events [] ≡ serving cs
      → get_elem? cs i ≡ some c
      → own f copy i 0 events ≡ connect_result true ∷ ts
      → client_events ts ≡ chunk_events chunks
      → AllFilled chunks
      → AllBytes (joined_chunks chunks)
      → joined_chunks chunks ≡ encode_records rs ++ tail
      → AllFit rs
      → No53 rs
      → IsIncomplete tail
      → (exit : Exit f) × (back : copy.State) × (c ≡ connected exit back)
        × Copied f (fresh f) exit (records_data rs) tail (joined_chunks chunks)
  connection_copies events cs i c ts chunks rs tail ends here turns sent filled b joins fits no53
        short =
      let (back, whole) = connected-forward events cs i c ts ends here turns in
      (
        forward f (client_events ts) (fresh f),
        back,
        whole,
        subst
            (λ (l : List Event).
              Copied f (fresh f) (forward f l (fresh f)) (records_data rs) tail
                (joined_chunks chunks))
            (sym sent) (forward_any_chunks f chunks rs tail filled b joins fits no53 short),
      )
