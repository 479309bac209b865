-- ===== src/Session/Execute/Stored.antt =====
-- The materials that a call of `execute` stores.
use zk_prompt.Base.{
  ℕ, ◌≡◌, refl, ap, sym, ◌∙◌, Option, some, List, [], ◌∷◌, ◌++◌, Bytes, append_assoc, append-nil,
  ◌⊎◌, inl, inr, ◌≢◌,
}
use zk_prompt.Base.Text.{codes}
use zk_prompt.Base.Outcome.{Outcome, ok, err, panic, ◌>>=◌, assert, guard, >>=-eq-ok}
use zk_prompt.Openai.Config.{RequestConfig}
use zk_prompt.Openai.Wire.{WireError}
use zk_prompt.Openai.Check.{ChatRequest, PaddedRequest, check_and_pad}
use zk_prompt.Session.KeyLog
use zk_prompt.Session.KeyLog.{KeyLogItem, KeyLogVec}
use zk_prompt.Session.TlsConfig.{load_client_config, load_client_config-key_log}
use zk_prompt.Session.Materials.{ProveMaterials}
use zk_prompt.Session.Prove.{ProveSession}
use zk_prompt.Session.Execute.{
  Network, ExecuteError, connect_failed, handshake_failed, write_failed, read_loop, log_all,
  exchange, as_rejected, store, execute,
}

log_all-items :
    (items : List KeyLogItem) (v : KeyLogVec) → (log_all items v).items ≡ v.items ++ items
unfolding log_all KeyLog.log
log_all-items [] v = sym (append-nil (v.items))
log_all-items (item ∷ items) v =
    log_all-items items (KeyLog.log item.label item.client_random item.secret v)
    ∙ append_assoc v.items (item ∷ []) items

-- Every log of a new vector is what `take` returns.
pub take_items-log_all :
    (who : List ℕ) (items : List KeyLogItem)
    → (KeyLog.take_items (log_all items (KeyLog.new who))).0 ≡ items
unfolding KeyLog.take_items KeyLog.new
take_items-log_all who items = log_all-items items (KeyLog.new who)

-- The materials are those of this request on this network.
pub record IsExchanged (network : Network) (padded : PaddedRequest) (m : ProveMaterials)
    : Type 0 where
  pub same_request : m.request ≡ padded.request
  pub same_body : m.body ≡ padded.body
  pub received : read_loop network.reads [] ≡ ok m.response
  pub same_log : m.keylog ≡ network.logged

exchange-IsExchanged :
    (network : Network) (padded : PaddedRequest) (m : ProveMaterials)
    → exchange network padded ≡ ok m
    → IsExchanged network padded m
unfolding exchange
exchange-IsExchanged network padded m h =
    let (_, connected, h1) = >>=-eq-ok (guard network.connects connect_failed) _ h in
    let new_log = KeyLog.new (codes "client_keylog") in
    let (tls, loaded, h1') =
      >>=-eq-ok (load_client_config network.certificates network.accepts new_log) _ h1 in
    let same_vec =
      load_client_config-key_log network.accepts network.certificates new_log tls loaded in
    let (_, named, h2) = >>=-eq-ok (assert network.name_valid) _ h1' in
    let (_, shaken, h3) = >>=-eq-ok (guard network.handshakes handshake_failed) _ h2 in
    let (_, written, h4) = >>=-eq-ok (guard network.writes write_failed) _ h3 in
    let (raw, received, h5) = >>=-eq-ok (read_loop network.reads []) _ h4 in
    let same_raw : raw ≡ m.response = cc (h5) in
    let same_items : (KeyLog.take_items (log_all network.logged tls.key_log)).0 ≡ m.keylog =
      cc (h5) in
    record {
      same_request = cc (h5);
      same_body = cc (h5);
      received = received ∙ ap ok same_raw;
      same_log =
          sym same_items
          ∙ ap (λ (v : KeyLogVec). (KeyLog.take_items (log_all network.logged v)).0) same_vec
          ∙ take_items-log_all (codes "client_keylog") network.logged;
    }

as_rejected-eq-ok {ℓ} :
    {A : Type ℓ} (r : Outcome WireError A) {a : A} → as_rejected r ≡ ok a → r ≡ ok a
as_rejected-eq-ok (ok b) h = cc (h)
as_rejected-eq-ok (err e) h = cc (h)
as_rejected-eq-ok panic h = cc (h)

-- What the session is after a call, by its outcome.
store-cases :
    (session : ProveSession) (run : Outcome ExecuteError ProveMaterials)
    → ((m : ProveMaterials) × (run ≡ ok m) × (store session run ≡ (ok m.response, some m)))
      ⊎ (((store session run).1 ≡ session)
          × ((response : Bytes) → (store session run).0 ≢ ok response))
store-cases session (ok m) = inl (m, refl, refl)
store-cases session (err e) = inr (refl, λ response h. cc (h))
store-cases session panic = inr (refl, λ response h. cc (h))

pub execute_outcome :
    (parse_chat : Bytes → Option ChatRequest) (config : RequestConfig) (session : ProveSession)
    (network : Network) (data' : Bytes)
    → ((m : ProveMaterials) × (padded : PaddedRequest) × (execute parse_chat config session network
            data'
          ≡ (ok m.response, some m))
        × (check_and_pad parse_chat config data' ≡ ok padded)
        × IsExchanged network padded m)
      ⊎ (((execute parse_chat config session network data').1 ≡ session)
          × ((response : Bytes)
              → (execute parse_chat config session network data').0 ≢ ok response))
unfolding execute
execute_outcome parse_chat config session network data' =
    elim (store-cases session
      (as_rejected (check_and_pad parse_chat config data') >>= exchange network)) [
        | inl stored ↦
            let (m, run, stores) = stored in
            let (padded, checked, done) =
              >>=-eq-ok (as_rejected (check_and_pad parse_chat config data')) (exchange network)
                run in
            inl (
              m,
              padded,
              stores,
              as_rejected-eq-ok (check_and_pad parse_chat config data') checked,
              exchange-IsExchanged network padded m done,
            )
        | inr kept ↦ inr (kept.0, kept.1)
      ]
