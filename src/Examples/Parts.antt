-- ===== src/Examples/Parts.antt =====
-- Concrete libraries, a configuration and a chat for the examples of the client.
use zk_prompt.Base.{
  ℕ, ◌≡◌, refl, ap, sym, ◌∙◌, Bool, true, false, Option, none, some, List, [], ◌∷◌, ◌++◌, Bytes,
  length, drop, replicate, arith, drop-append, if◌then◌else◌, leb, ◌&&◌,
}
use zk_prompt.Base.Text.{Str, codes, into_bytes, str_eq}
use zk_prompt.Openai.Check.Lines.{join_lines}
use zk_prompt.Client.Response.{Http}
use zk_prompt.Client.Response.Decoded.{status_text}
use zk_prompt.Base.Words.{trim, trim_start, trim_end, keep_front, is_whitespace}
use zk_prompt.Base.Outcome.{Outcome, ok, err, panic}
use zk_prompt.Field.Modular.{bn254}
use zk_prompt.Gadgets.{Gadgets}
use zk_prompt.Gadgets.Plain.{System, plain, plain-Honest}
use zk_prompt.Chacha20.Reference.{chacha20}
use zk_prompt.Circuit.{qr_constants}
use zk_prompt.Circuit.Alloc.{words}
use zk_prompt.Openai.Config.{RequestConfig}
use zk_prompt.Openai.Wire.{http_body_sep, starts_with}
use zk_prompt.Openai.Check.{ChatRequest}
use zk_prompt.Openai.Check.Lines.{IsTidy}
use zk_prompt.Session.Rustls.{Rustls}
use zk_prompt.Session.Groth16.{Groth16}
use zk_prompt.Session.Execute.{Network, end_of_stream, read}
use zk_prompt.Openai.Check.{PaddedRequest, has_role, validate_chat_body}
use zk_prompt.Openai.Config.{template}
use zk_prompt.Openai.Wire.{position, pad_loop, user_content_pad_position, insert_padding, pad_body}

abbrev pub zeros : ℕ → Bytes
zeros n = replicate {A = ℕ} n 0

abbrev pub circuit : Gadgets bn254
circuit = plain bn254

pub drop_slot : (slot message : Bytes) → length slot ≡ 5 → drop 5 (slot ++ message) ≡ message
drop_slot slot message h =
    ap (λ (n : ℕ). drop n (slot ++ message)) (sym h) ∙ drop-append slot message

-- A TLS library with one key and one nonce.
abbrev pub tls : Rustls
tls = record {
  Key = Bytes;
  Iv = Unit {0};
  derive_traffic_key = λ secret. zeros 32;
  derive_traffic_iv = λ secret. tt;
  nonce_new = λ iv seq. zeros 12;
  make_tls13_aad = λ n. [];
  payload_len = λ buf. length (drop 5 buf);
  payload = λ buf. drop 5 buf;
  less_safe_key = λ key. some key;
  seal = λ key nonce aad message.
      some (chacha20 qr_constants (words key) (words nonce) 1 message, zeros 16);
  length-derive_traffic_key = λ secret. refl;
  derive_traffic_key-AllBytes = λ secret. omega arith;
  length-nonce_new = λ iv seq. refl;
  nonce_new-AllBytes = λ iv seq. omega arith;
  payload-reserved = drop_slot;
  seal_lem = λ key nonce aad message key_size nonce_size size. (key, zeros 16, refl, refl);
}

abbrev pub start : System bn254
start = record { satisfied = true; inputs = [] }

-- Whether a synthesis succeeds and satisfies the constraints.
abbrev pub is_provable : Outcome (circuit.SynthesisError) (System bn254) → Bool
is_provable (ok cs) = cs.satisfied
is_provable (err e) = false
is_provable panic = false

-- A proof system whose proof is that bit.
abbrev pub groth16 : Groth16 circuit
groth16 = record {
  Rng = Unit {0};
  ProvingKey = Unit {0};
  VerifyingKey = Unit {0};
  PreparedKey = Unit {0};
  Proof = Bool;
  new_ref = start;
  rng = tt;
  setup = λ c r. some (tt, tt, r);
  process_vk = λ vk. some tt;
  create_proof = λ pk c r. some (is_provable (c start), r);
  verify_with_processed_vk = λ pvk inputs proof. some proof;
  honest = plain-Honest bn254;
  new_ref-satisfied = refl;
  new_ref-inputs = refl;
  completeness = λ c cs r runs sat. (
    tt,
    tt,
    tt,
    tt,
    is_provable (c start),
    tt,
    refl,
    refl,
    refl,
    ap (λ (o : Outcome (circuit.SynthesisError) (System bn254)). some (is_provable o)) runs
        ∙ ap some sat,
  );
}

-- A reader that takes every text that begins with a brace for the same chat.
abbrev pub parse_chat : Bytes → Option ChatRequest
parse_chat body =
    if starts_with (codes "{") body
    then some (record {
      model = codes "gpt";
      messages = record { role = codes "system" } ∷ record { role = codes "user" } ∷ [];
    })
    else none

abbrev pub config : RequestConfig
config = record {
  host = codes "api";
  basepath = codes "/v1";
  api_key = codes "sk";
  content_length = 30;
}

pub tidy : IsTidy config
unfolding trim trim_start trim_end keep_front is_whitespace
tidy = record {
  host_scalar = ground arith;
  path_scalar = ground arith;
  key_scalar = ground arith;
  host_line = ground arith;
  host_trimmed = refl;
  path_word = ground arith;
  path_some = omega arith;
  key_line = ground arith;
  key_trimmed = refl;
  key_some = omega arith;
}

-- 28 bytes, and two more.
abbrev pub content : Bytes
content = codes "{\"role\":\"user\",\"content\":\"\"}"

abbrev pub padded_content : Bytes
padded_content = codes "{\"role\":\"user\",\"content\":\"  \"}"

abbrev pub network : Network
network = record {
  connects = true;
  certificates = some ((1 ∷ 2 ∷ []) ∷ []);
  accepts = λ cert. true;
  name_valid = true;
  logged =
      record { label = codes "CLIENT_TRAFFIC_SECRET_0"; client_random = []; secret = zeros 32 }
      ∷ [];
  handshakes = true;
  writes = true;
  reads = read b'o' [] (read b'k' [] end_of_stream);
}

-- A builder of responses that keeps what it is given and wants a status of three digits.
abbrev pub http : Http
http = record {
  Builder = ℕ × List (Str × Str);
  Response = (ℕ × List (Str × Str)) × Bytes;
  builder = (200, []);
  status = λ n builder. (n, builder.1);
  header = λ name value builder. (builder.0, builder.1 ++ (name, value) ∷ []);
  body = λ bytes builder.
      if leb 100 builder.0 && leb builder.0 999 then some (builder, bytes) else none;
}

abbrev pub content_type_line : Str
content_type_line = codes "content-type: text/plain"

abbrev pub answer : Bytes
answer =
    into_bytes (join_lines (status_text 200 (codes "OK")) (content_type_line ∷ []))
    ++ (http_body_sep ++ codes "hello")

pub is_chat : validate_chat_body parse_chat content ≡ ok tt
unfolding validate_chat_body has_role starts_with str_eq
is_chat = refl

pub is_padded : pad_body content config.content_length ≡ ok padded_content
unfolding pad_body insert_padding user_content_pad_position pad_loop position starts_with
is_padded = refl

abbrev pub padded : PaddedRequest
padded = record {
  request = template config ++ (codes "\r\n" ++ padded_content);
  body = padded_content;
}
