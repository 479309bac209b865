-- ===== src/Session/Chat.antt =====
-- A chat from the client's request to the verified proof.
use mathlib.Core.Path.{subst}
use zk_prompt.Base.{
  ℕ, ◌+◌, ◌-◌, ◌≤◌, ◌≡◌, refl, ap, sym, ◌∙◌, true, Option, none, some, List, [], ◌∷◌, ◌++◌, Bytes,
  length, take, drop, replicate, arith, AllBytes, AllBytes-append, AllBytes-take, AllBytes-drop,
  length-append, drop-drop, drop-append, take_all, ==_iff, zero, suc,
}
use zk_prompt.Base.Text.{Str, codes, AllChars}
use zk_prompt.Base.Utf8.{AllScalar}
use zk_prompt.Base.Outcome.{ok}
use zk_prompt.Field.{PrimeField}
use zk_prompt.Gadgets.{Gadgets}
use zk_prompt.Openai.Config.{
  RequestConfig, IsText, header_sections, header_sections-AllSections, template, body_start,
  body_start-template,
}
use zk_prompt.Openai.Wire.{pad_body}
use zk_prompt.Openai.Wire.Padding.{Padded}
use zk_prompt.Openai.Check.{ChatRequest, PaddedRequest, validate_chat_body, check_and_pad}
use zk_prompt.Openai.Check.Lines.{IsTidy}
use zk_prompt.Openai.Check.Rebuilt.{sized}
use zk_prompt.Openai.Check.Checked.{pad_body-length}
use zk_prompt.Openai.Check.Accepted.{check_and_pad_complete}
use zk_prompt.Client.{encode_request}
use zk_prompt.Client.Encoded.{chat_request, encode_request-template}
use zk_prompt.Client.Accepted.{joined_sections-AllBytes}
use zk_prompt.Session.KeyLog
use zk_prompt.Session.KeyLog.{KeyLogItem}
use zk_prompt.Session.TlsConfig.{AllAccepted, load_client_config-AllAccepted}
use zk_prompt.Session.Rustls.{Rustls, max_plaintext}
use zk_prompt.Session.Groth16.{Groth16}
use zk_prompt.Session.Materials.{
  ProveMaterials, client_traffic_secret_0, find_item, client_traffic_secret,
}
use zk_prompt.Session.Prove.{ProveSession, prove}
use zk_prompt.Session.Prove.Accepts.{IsProvable, prove_iff}
use zk_prompt.Session.Execute.{Network, read_loop, exchange, execute}
use zk_prompt.Session.Execute.Stored.{take_items-log_all}

-- A network on which the exchange succeeds, with this response; the TLS library logs the client's
-- traffic secret, of 32 bytes.
pub record IsWorking (network : Network) (response : Bytes) : Type 0 where
  pub connected : network.connects ≡ true
  pub certs : List Bytes
  pub found : network.certificates ≡ some certs
  pub certified : AllAccepted network.accepts certs
  pub named : network.name_valid ≡ true
  pub shaken : network.handshakes ≡ true
  pub written : network.writes ≡ true
  pub received : read_loop network.reads [] ≡ ok response
  pub item : KeyLogItem
  pub logs : find_item client_traffic_secret_0 network.logged ≡ some item
  pub secret_size : length item.secret ≡ 32

-- The materials of a request on such a network.
abbrev pub materials_of : Network → Bytes → PaddedRequest → ProveMaterials
materials_of network response padded = record {
  request = padded.request;
  body = padded.body;
  response = response;
  keylog = network.logged;
}

exchange-IsWorking :
    (network : Network) (response : Bytes) (padded : PaddedRequest)
    → IsWorking network response
    → exchange network padded ≡ ok (materials_of network response padded)
unfolding exchange
exchange-IsWorking network response padded w =
    rw
      (
        w.connected,
        w.found,
        load_client_config-AllAccepted network.accepts w.certs (KeyLog.new (codes "client_keylog"))
            (w.certified),
        w.named,
        w.shaken,
        w.written,
        w.received,
        take_items-log_all (codes "client_keylog") network.logged,
      )
      refl

client_traffic_secret-IsWorking :
    (network : Network) (response : Bytes) (padded : PaddedRequest) (w : IsWorking network response)
    → client_traffic_secret (materials_of network response padded) ≡ ok (w.item.secret)
unfolding client_traffic_secret
client_traffic_secret-IsWorking network response padded w =
    let right = (==_iff (length (w.item.secret)) 32).1 (w.secret_size) in rw (w.logs, right) refl

scalar-AllChars : (s : Str) → AllScalar s → AllChars s
scalar-AllChars [] h = tt
scalar-AllChars (c ∷ s) h = (ground (arith, h.0), scalar-AllChars s h.1)

pub tidy-IsText : (c : RequestConfig) → IsTidy c → IsText c
tidy-IsText c t = record {
  host_chars = scalar-AllChars c.host (t.host_scalar);
  basepath_chars = scalar-AllChars c.basepath (t.path_scalar);
  api_key_chars = scalar-AllChars c.api_key (t.key_scalar);
}

spaces-AllBytes : (n : ℕ) → AllBytes (replicate n b' ')
spaces-AllBytes zero = tt
spaces-AllBytes (suc n) = (omega arith, spaces-AllBytes n)

Padded-AllBytes :
    (body : Bytes) (n : ℕ) (new_body : Bytes)
    → AllBytes body
    → Padded body n new_body
    → AllBytes new_body
Padded-AllBytes body n new_body h (pos, inside, e) = subst AllBytes (sym e) (
    AllBytes-append (take pos body ++ replicate (n - length body) b' ') (drop pos body)
      (AllBytes-append (take pos body) (replicate (n - length body) b' ') (AllBytes-take pos body h)
        (spaces-AllBytes (n - length body)))
      (AllBytes-drop pos body h))

-- The request that the server gets.
abbrev pub sent : RequestConfig → Bytes → Bytes
sent c new_body = template c ++ (codes "\r\n" ++ new_body)

module _ (c : RequestConfig) (t : IsTidy c) (new_body : Bytes)
    (size : length new_body ≡ c.content_length) where
  length-sent : length (sent c new_body) ≡ body_start c + c.content_length
  length-sent =
      omega
        (arith, size, body_start-template c, length-append (template c) (codes "\r\n" ++ new_body))

  sent-body : new_body ≡ take c.content_length (drop (body_start c) (sent c new_body))
  sent-body = sym (
      ap (λ (k : ℕ). take c.content_length (drop k (sent c new_body))) (body_start-template c)
      ∙ ap (take c.content_length) (
          sym (drop-drop (length (template c)) 2 (sent c new_body))
          ∙ ap (drop 2) (drop-append (template c) (codes "\r\n" ++ new_body)))
      ∙ take_all c.content_length new_body (omega (arith, size)))

  sent-AllBytes : AllBytes new_body → AllBytes (sent c new_body)
  sent-AllBytes h =
      AllBytes-append (template c) (codes "\r\n" ++ new_body)
        (joined_sections-AllBytes (header_sections c)
          (header_sections-AllSections c (tidy-IsText c t)))
        (omega arith, (omega arith, h))

  -- With a body of the configured length, sent on a network that works, a request can be proved.
  pub sent-IsProvable :
      (network : Network) (response : Bytes)
      → IsWorking network response
      → AllBytes new_body
      → body_start c + c.content_length ≤ max_plaintext
      → IsProvable c
          (materials_of network response (record { request = sent c new_body; body = new_body }))
  sent-IsProvable network response w bytes room = record {
    text = tidy-IsText c t;
    request_bytes = sent-AllBytes bytes;
    request_size = omega (arith, room, length-sent);
    secret = w.item.secret;
    logged =
        client_traffic_secret-IsWorking network response
          (record { request = sent c new_body; body = new_body }) w;
    room = omega (arith, length-sent);
    body_part = sent-body;
  }

-- `execute` on the bytes that the client writes for a chat that can be padded, on a network that
-- works, returns the response and stores the request with the padded body.
pub execute-chat_request :
    (parse_chat : Bytes → Option ChatRequest) (c : RequestConfig) (session : ProveSession)
    (network : Network) (response content new_body : Bytes)
    → IsTidy c
    → IsWorking network response
    → validate_chat_body parse_chat content ≡ ok tt
    → pad_body content c.content_length ≡ ok new_body
    → execute parse_chat c session network (encode_request (chat_request c content)) ≡ (
      ok response,
      some (materials_of network response (record { request = sent c new_body; body = new_body })),
    )
unfolding execute
execute-chat_request parse_chat c session network response content new_body tidy w chat pads =
    let padded : PaddedRequest = record { request = sent c new_body; body = new_body } in
    let accepted : check_and_pad parse_chat c (encode_request (chat_request c content))
        ≡ ok padded =
      ap (check_and_pad parse_chat c)
        (encode_request-template (sized c (length content)) content refl)
      ∙ check_and_pad_complete parse_chat c tidy content new_body chat pads in
    rw (accepted, exchange-IsWorking network response padded w) refl

module _ (parse_chat : Bytes → Option ChatRequest) (t : Rustls) {f : PrimeField} (g : Gadgets f)
    (s : Groth16 g) where
  -- A chat whose body can be padded to the configured length is sent on a network that works, under
  -- a configuration whose texts fit the syntax of headers, with a request no longer than the cipher
  -- takes. Then `execute` on the bytes that the client writes returns the response, the session
  -- holds the request with the padded body, and `prove` succeeds and leaves the session empty.
  pub chat_proved :
      (c : RequestConfig) (session : ProveSession) (network : Network)
      (response content new_body : Bytes)
      → IsTidy c
      → IsWorking network response
      → AllBytes content
      → validate_chat_body parse_chat content ≡ ok tt
      → pad_body content c.content_length ≡ ok new_body
      → body_start c + c.content_length ≤ max_plaintext
      → (m : ProveMaterials) × (execute parse_chat c session network
            (encode_request (chat_request c content))
          ≡ (ok response, some m))
        × (m.body ≡ new_body)
        × (m.response ≡ response)
        × (prove t g s c (some m) ≡ (ok tt, none))
  chat_proved c session network response content new_body tidy w bytes chat pads room =
      let (size, pad) = pad_body-length content c.content_length pads in
      let padded : PaddedRequest = record { request = sent c new_body; body = new_body } in
      let m = materials_of network response padded in
      let provable =
        sent-IsProvable c tidy new_body size network response w
          (Padded-AllBytes content c.content_length new_body bytes pad) room in
      (
        m,
        execute-chat_request parse_chat c session network response content new_body tidy w chat
            pads,
        refl,
        refl,
        (prove_iff t g s c m provable).1 (codes "\r\n" ++ new_body, refl),
      )
