-- ===== src/Examples/Proving.antt =====
-- A chat on the concrete parts: it is sent and proved.
pub mod Calculator
pub mod Connection
use mathlib.Core.Path.{subst}
use zk_prompt.Base.{
  ℕ, ◌+◌, ◌%◌, ◌==◌, ap, ◌≤◌, ◌≡◌, ◌↔◌, refl, some, none, [], ◌∷◌, ◌++◌, Bytes, length, arith, List,
}
use zk_prompt.Base.Text.{codes, str_eq, encode_char, into_bytes, decimal, digits_loop}
use zk_prompt.Base.Words.{split_once, trim, trim_start, trim_end, keep_front, is_whitespace}
use zk_prompt.Base.Outcome.{ok, err}
use zk_prompt.Openai.Config.{
  RequestConfig, template, body_start, sum_lengths, header_sections, req_line, host_header,
  authorization_header, content_type_header, content_length_header, connection_header,
}
use zk_prompt.Client.{encode_request}
use zk_prompt.Client.Encoded.{chat_request}
use zk_prompt.Session.Materials.{
  ProveMaterials, find_item, client_traffic_secret, encrypt_with_chacha20,
}
use zk_prompt.Session.Rustls.{max_plaintext}
use zk_prompt.Session.Prove.{ProveSession, new_prove_session, prove}
use zk_prompt.Session.Prove.Accepts.{IsProvable, prove_iff}
use zk_prompt.Session.Execute.{rejected, Network, Reads, end_of_stream, read, read_loop, execute}
use zk_prompt.Session.History.{
  Call, executed, proved, execute_step, start, later, Reachable, IsFromRequest,
  reachable-HoldsRequest,
}
use zk_prompt.Session.History.Slot.{SlotRun, slot_of, all_seen, after_all, calls-SlotRun}
use zk_prompt.Session.History.Bounds.{proofs, responses, proofs-le-responses}
use zk_prompt.Proxy.Tls.{drain_application_data}
use zk_prompt.Proxy.Tls.Record.{encode_record}
use zk_prompt.Session.Refused.{chat_refused}
use zk_prompt.Openai.Check.Accepted.{sized-IsTidy}
use zk_prompt.Openai.Wire.{body_too_long}
use zk_prompt.Session.Proxied.{sealed_record, proxied_request}
use zk_prompt.Session.Send.{send, send_proved}
use zk_prompt.Client.Response.{builder_loop}
use zk_prompt.Session.Chat.{
  IsWorking, materials_of, sent-IsProvable, execute-chat_request, chat_proved,
}
use zk_prompt.Examples.Parts.{
  circuit, tls, groth16, parse_chat, config, tidy, content, padded_content, network, zeros, http,
  content_type_line, answer,
}
use zk_prompt.Examples.Parts.{is_chat, is_padded, padded}

works : IsWorking network (codes "ok")
unfolding read_loop find_item str_eq
works = record {
  connected = refl;
  certs = (1 ∷ 2 ∷ []) ∷ [];
  found = refl;
  certified = (refl, tt);
  named = refl;
  shaken = refl;
  written = refl;
  received = refl;
  item = record { label = codes "CLIENT_TRAFFIC_SECRET_0"; client_random = []; secret = zeros 32 };
  logs = refl;
  secret_size = refl;
}

room : body_start config + config.content_length ≤ max_plaintext
unfolding body_start sum_lengths header_sections req_line host_header authorization_header
    content_type_header content_length_header connection_header into_bytes encode_char decimal
room = omega arith

chat_proved_example :
    (m : ProveMaterials) × (execute parse_chat config new_prove_session network
        (encode_request (chat_request config content))
      ≡ (ok (codes "ok"), some m))
    × (m.body ≡ padded_content)
    × (m.response ≡ codes "ok")
    × (prove tls circuit groth16 config (some m) ≡ (ok tt, none))
chat_proved_example =
    chat_proved parse_chat tls circuit groth16 config new_prove_session network (codes "ok") content
      padded_content tidy works (omega arith) is_chat is_padded room

abbrev calls : List Call
calls = executed network content ∷ proved ∷ proved ∷ []

proofs-le-responses_example :
    proofs parse_chat tls circuit groth16 config calls new_prove_session
    ≤ responses parse_chat tls circuit groth16 config calls new_prove_session
proofs-le-responses_example = proofs-le-responses parse_chat tls circuit groth16 config calls

abbrev materials : ProveMaterials
materials = materials_of network (codes "ok") padded

provable : IsProvable config materials
provable =
    sent-IsProvable config tidy padded_content refl network (codes "ok") works (omega arith) room

prove_iff_example :
    (prove tls circuit groth16 config (some materials) ≡ (ok tt, none))
    ↔ ((rest : Bytes) × (materials.request ≡ template config ++ rest))
prove_iff_example = prove_iff tls circuit groth16 config materials provable

-- The client's chat, and what `execute` stores of it.
abbrev written : Bytes
written = encode_request (chat_request config content)

stored :
    execute parse_chat config new_prove_session network written ≡ (ok (codes "ok"), some materials)
stored =
    execute-chat_request parse_chat config new_prove_session network (codes "ok") content
      padded_content tidy works is_chat is_padded

stored_reachable : Reachable parse_chat tls circuit groth16 config (some materials)
stored_reachable =
    subst (Reachable parse_chat tls circuit groth16 config) (λ i. (stored i).1)
      (later start (execute_step new_prove_session network written))

reachable-HoldsRequest_example : IsFromRequest parse_chat tls circuit groth16 config materials
reachable-HoldsRequest_example =
    reachable-HoldsRequest parse_chat tls circuit groth16 config stored_reachable

-- The chat is sent, and proved; the second proof fails.
abbrev chat_calls : List Call
chat_calls = executed network written ∷ proved ∷ proved ∷ []

calls-SlotRun_example :
    SlotRun parse_chat config none
      (all_seen parse_chat tls circuit groth16 config chat_calls new_prove_session)
      (slot_of (after_all parse_chat tls circuit groth16 config chat_calls new_prove_session))
calls-SlotRun_example = calls-SlotRun parse_chat tls circuit groth16 config chat_calls

-- One read.
abbrev chunk : Bytes → Reads
chunk [] = end_of_stream
chunk (b ∷ bytes) = read b bytes end_of_stream

abbrev answering : Network
answering = record network { reads = chunk answer }

answers : IsWorking answering answer
unfolding read_loop find_item str_eq into_bytes encode_char decimal digits_loop
answers = record {
  connected = refl;
  certs = (1 ∷ 2 ∷ []) ∷ [];
  found = refl;
  certified = (refl, tt);
  named = refl;
  shaken = refl;
  written = refl;
  received = refl;
  item = works.item;
  logs = works.logs;
  secret_size = works.secret_size;
}

built :
    http.body (codes "hello") (builder_loop http (content_type_line ∷ []) (200, []))
    ≡ some ((200, (codes "content-type", codes "text/plain") ∷ []), codes "hello")
unfolding builder_loop split_once trim trim_start trim_end keep_front is_whitespace
built = refl

send_proved_example :
    (session : ProveSession) × (send http parse_chat config new_prove_session answering
        (chat_request config content)
      ≡ (ok ((200, (codes "content-type", codes "text/plain") ∷ []), codes "hello"), session))
    × (prove tls circuit groth16 config session ≡ (ok tt, none))
send_proved_example =
    send_proved http parse_chat tls circuit groth16 config new_prove_session answering content
      padded_content 200 (codes "OK") (content_type_line ∷ []) (codes "hello")
      ((200, (codes "content-type", codes "text/plain") ∷ []), codes "hello") tidy answers
      (omega arith) is_chat is_padded room (omega arith) (ground arith) (ground arith)
      (omega arith, ground arith, tt) (ground arith, tt) built

logged : client_traffic_secret materials ≡ ok (zeros 32)
unfolding client_traffic_secret find_item str_eq
logged = refl

request_size : length materials.request ≡ 159
unfolding header_sections req_line host_header authorization_header content_type_header
    content_length_header connection_header into_bytes encode_char decimal digits_loop
request_size = refl

proxied_request_example :
    (cipher : Bytes) × (key : Bytes) × (nonce : Bytes) × (b : ℕ) × (encrypt_with_chacha20 tls
        materials
      ≡ ok (cipher, key, nonce))
    × (drain_application_data
          (encode_record (sealed_record tls (zeros 32) materials.request (zeros 16)))
        ≡ some (cipher ++ b ∷ [], []))
proxied_request_example =
    proxied_request tls (zeros 32) materials (zeros 16) logged (omega (arith, request_size)) refl
      (ap (λ (k : ℕ). (k + 17) % 256 == 53) request_size)

abbrev tight : RequestConfig
tight = record config { content_length = 20 }

chat_refused_example :
    execute parse_chat tight none network (encode_request (chat_request tight content))
    ≡ (err (rejected body_too_long), none)
chat_refused_example =
    chat_refused parse_chat tight none network content (sized-IsTidy config 20 tidy) is_chat
      (omega arith)
