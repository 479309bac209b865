-- ===== src/Session/Proxied/Connection.antt =====
-- The request of a client on one of the proxy's connections, behind its handshake.
use mathlib.Core.Path.{subst}
use zk_prompt.Base.{
  ℕ, ◌+◌, ◌%◌, ◌≤◌, ◌≡◌, ap, sym, ◌∙◌, true, false, some, List, [], ◌∷◌, ◌++◌, Bytes, length,
  get_elem?, arith, append-nil, ◌==◌, inl, refl,
}
use zk_prompt.Base.Outcome.{ok}
use zk_prompt.Field.{PrimeField}
use zk_prompt.Proxy.Tls.Record.{TlsRecord, record_data, is_53}
use zk_prompt.Proxy.Tls.Drain.{flight_data}
use zk_prompt.Proxy.Forward.{Event, Exit, fresh, forward}
use zk_prompt.Proxy.Forward.Chunks.{joined_chunks, chunk_events, Copied}
use zk_prompt.Proxy.Forward.Flights.{
  AreFlights, flights_data, flight_chunks, flights_data-append, AreFlights-append, forward_flights,
}
use zk_prompt.Proxy.Service.{
  Copy, Connection, connected, Turn, connect_result, ServiceEvent, serving, serve,
}
use zk_prompt.Proxy.Service.Isolation.{own}
use zk_prompt.Proxy.Service.Streams.{client_events, connected-forward}
use zk_prompt.Session.Rustls.{Rustls}
use zk_prompt.Session.Materials.{
  ProveMaterials, client_traffic_secret, encrypt_with_chacha20, encrypt_with_chacha20_lem,
}
use zk_prompt.Session.Proxied.{sealed_record, encrypted, length-payload, record_data-sealed_one}

module _ (t : Rustls) (f : PrimeField) (copy : Copy) where
  -- While the proxy serves, whatever the other connections do: the target of a connection has
  -- answered, and its client sent flights, the handshake, each of one record or more whose lengths
  -- fit in two bytes, and then its request of at most 2 ^ 14 bytes, in one record with a tag of 16
  -- bytes and a length that does not end in the byte 53; every flight, and the last record, was
  -- read in one chunk and written; the key log has the secret. Then the connection's task still
  -- waits, has copied all the bytes, and has gathered the application data of the flights, none of
  -- a flight whose first record has a length that ends in the byte 53, then the ciphertext that
  -- the client commits to, and one byte more; its last line is the commitment to that.
  pub proxied_connection :
      (secret : Bytes) (m : ProveMaterials) (tag : Bytes) (events : List (ServiceEvent f copy))
      (cs : List (Connection f copy)) (i : ℕ) (c : Connection f copy) (ts : List (Turn f copy))
      (flights : List (List TlsRecord)) (chunks : List Bytes)
      → client_traffic_secret m ≡ ok secret
      → length m.request ≤ 16384
      → length tag ≡ 16
      → ((length m.request + 17) % 256 == 53) ≡ false
      → serve f copy events [] ≡ serving cs
      → get_elem? cs i ≡ some c
      → own f copy i 0 events ≡ connect_result true ∷ ts
      → client_events f copy ts ≡ chunk_events chunks
      → chunks ≡ flight_chunks (flights ++ (sealed_record t secret m.request tag ∷ []) ∷ [])
      → AreFlights flights
      → (cipher : Bytes) × (key : Bytes) × (nonce : Bytes) × (b : ℕ) × (exit : Exit f)
        × (back : copy.State) × (encrypt_with_chacha20 t m ≡ ok (cipher, key, nonce))
        × (c ≡ connected exit back)
        × Copied f
            (fresh f)
            exit
            (flights_data flights ++ (cipher ++ b ∷ []))
            []
            (joined_chunks chunks)
  proxied_connection secret m tag events cs i c ts flights chunks logged small tag_size not_53
        serves here turns sent cut are =
      let r = sealed_record t secret m.request tag in
      let all = flights ++ (r ∷ []) ∷ [] in
      let size = length-payload t secret m.request tag tag_size in
      let (b, e) = record_data-sealed_one t secret m.request tag tag_size in
      let not_53' : is_53 r ≡ false = ap (λ (k : ℕ). k % 256 == 53) size ∙ not_53 in
      let last : flights_data ((r ∷ []) ∷ []) ≡ encrypted t secret m.request ++ b ∷ [] =
        append-nil (flight_data (r ∷ [])) ∙ rw not_53' (append-nil (record_data r) ∙ e) in
      let data' : flights_data all
          ≡ flights_data flights ++ (encrypted t secret m.request ++ b ∷ []) =
        flights_data-append flights ((r ∷ []) ∷ []) ∙ ap (◌++◌ (flights_data flights)) last in
      let (back, is_connected) = connected-forward f copy events cs i c ts serves here turns in
      let are' : AreFlights all =
        AreFlights-append flights ((r ∷ []) ∷ []) are
          (omega arith, (omega (arith, size), tt), tt) in
      let copied = forward_flights f all (fresh f) are' refl (inl refl) in
      let read_as : client_events f copy ts ≡ chunk_events (flight_chunks all) =
        sent ∙ ap chunk_events cut in
      (
        encrypted t secret m.request,
        t.derive_traffic_key secret,
        t.nonce_new (t.derive_traffic_iv secret) 0,
        b,
        forward f (client_events f copy ts) (fresh f),
        back,
        encrypt_with_chacha20_lem t m secret logged (omega (arith, small)),
        is_connected,
        subst
            (λ (q : List Event × (Bytes × Bytes)).
              Copied f (fresh f) (forward f q.0 (fresh f)) q.1.0 [] q.1.1)
            (λ i. (sym read_as i, (data' i, joined_chunks (sym cut i)))) copied,
      )
