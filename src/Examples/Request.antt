-- ===== src/Examples/Request.antt =====
-- A request encrypted under a concrete key, and the circuit on it.
use zk_prompt.Base.{
  ℕ, ◌^◌, ◌<◌, ◌≤◌, ◌≡◌, ◌⊎◌, refl, Bool, true, ◌&&◌, [], ◌∷◌, ◌++◌, map, Bytes, length, ltb,
  replicate, ltb→lt, AllBytes, arith, &&-true, length-append,
}
use zk_prompt.Base.Text.{codes}
use zk_prompt.Base.Outcome.{ok, err, panic}
use zk_prompt.Openai.Wire.{
  http_body_sep, body_too_long, no_user_content, starts_with, position, split_http, pad_loop,
  user_content_pad_position, insert_padding, pad_body,
}
use zk_prompt.Openai.Wire.Padding.{Padded, pad_body_outcome}
use zk_prompt.Openai.Wire.Split.{NoBlankLine, split_http-joined}
use zk_prompt.Witness.{commitments_from_wire_and_tls}
use zk_prompt.Witness.Publics.{publics_from_wire}
use zk_prompt.Field.Modular.{bn254, Residue}
use zk_prompt.Gadgets.{Gadgets}
use zk_prompt.Gadgets.Plain.{System, plain, plain-Honest, u8}
use zk_prompt.Openai.Req
use zk_prompt.Openai.Req.{ReqVar}
use zk_prompt.Openai.Req.Accepts.{Keeps, generate_constraints_complete}
use zk_prompt.Chacha20.Reference.{chacha20}
use zk_prompt.Chacha20.Laws.{chacha20_twice, chacha20-AllBytes}
use zk_prompt.Openai.Config.{RequestConfig, IsText, template, header_sections, body_start-template}
use zk_prompt.Circuit.{ZkPrompt, qr_constants, generate_constraints}
use zk_prompt.Circuit.Alloc.{words}
use zk_prompt.Circuit.Decryption.{plaintext, IsWitness}
use zk_prompt.Circuit.Meaning.{Publics, circuit_complete, circuit_sound}

abbrev all_bytes : Bytes → Bool
all_bytes [] = true
all_bytes (b ∷ bs) = ltb b 256 && all_bytes bs

all_bytes-AllBytes : (bs : Bytes) → all_bytes bs ≡ true → AllBytes bs
all_bytes-AllBytes [] h = tt
all_bytes-AllBytes (b ∷ bs) h =
    let both = (&&-true (ltb b 256) (all_bytes bs)).0 h in
    (ltb→lt b 256 both.0, all_bytes-AllBytes bs both.1)

abbrev pub config : RequestConfig
config = record { host = codes "h"; basepath = codes "/"; api_key = codes "k"; content_length = 2 }

abbrev pub key : Bytes
key =
    0 ∷ 1 ∷ 2 ∷ 3 ∷ 4 ∷ 5 ∷ 6 ∷ 7 ∷ 8 ∷ 9 ∷ 10 ∷ 11 ∷ 12 ∷ 13 ∷ 14 ∷ 15 ∷ 16 ∷ 17 ∷ 18 ∷ 19 ∷ 20
    ∷ 21 ∷ 22 ∷ 23 ∷ 24 ∷ 25 ∷ 26 ∷ 27 ∷ 28 ∷ 29 ∷ 30 ∷ 31 ∷ []

abbrev nonce : Bytes
nonce = replicate {A = ℕ} 12 0

abbrev after_template : Bytes
after_template = codes "\r\n{}"

-- The template, the empty line and the body, encrypted.
abbrev cipher_texts : Bytes
cipher_texts = chacha20 qr_constants (words key) (words nonce) 1 (template config ++ after_template)

abbrev pub request : ZkPrompt
request = record {
  cipher_texts = cipher_texts;
  key = key;
  nonce = nonce;
  count = 1;
  config = config;
}

twice :
    (length cipher_texts ≡ length (template config ++ after_template))
    × (plaintext request ≡ template config ++ after_template)
unfolding plaintext words
twice =
    chacha20_twice qr_constants (words key) (words nonce) refl refl refl 1
      (template config ++ after_template)

request-IsText : IsText config
request-IsText = record {
  host_chars = omega arith;
  basepath_chars = omega arith;
  api_key_chars = omega arith;
}

template-AllBytes : all_bytes (template config ++ after_template) ≡ true
unfolding header_sections
template-AllBytes = refl

pub request_witness : IsWitness request
unfolding words
request_witness = record {
  key_size = refl;
  key_bytes = all_bytes-AllBytes key refl;
  nonce_size = refl;
  nonce_bytes = all_bytes-AllBytes nonce refl;
  count_range = omega arith;
  cipher_bytes =
      chacha20-AllBytes qr_constants (words key) (words nonce) refl refl refl 1 _
        (all_bytes-AllBytes (template config ++ after_template) template-AllBytes);
  text = request-IsText;
  room =
      omega (
        arith,
        twice.0,
        body_start-template config,
        length-append (template config) after_template,
      );
}

abbrev circuit : Gadgets bn254
circuit = plain bn254

abbrev start : System bn254
start = record { satisfied = true; inputs = [] }

run :
    (cs' : System bn254) × (generate_constraints circuit request start ≡ ok cs')
    × (cs'.satisfied ≡ true)
    × Publics circuit request start cs'
run =
    circuit_complete circuit (plain-Honest bn254) request after_template start request_witness
      twice.1

circuit_complete_example :
    (cs' : System bn254) × (generate_constraints circuit request start ≡ ok cs')
    × (cs'.satisfied ≡ true)
    × Publics circuit request start cs'
circuit_complete_example =
    circuit_complete circuit (plain-Honest bn254) request after_template start request_witness
      twice.1

circuit_sound_example :
    (rest : Bytes) × (plaintext request ≡ template config ++ rest)
    × Publics circuit request start run.0
circuit_sound_example = circuit_sound circuit request start run.0 request_witness run.1 run.2

abbrev header_vars : ReqVar circuit
header_vars = record { data_vars = map u8 (template config ++ after_template); config = config }

header_values : map (circuit.u8_value) header_vars.data_vars ≡ template config ++ after_template
unfolding u8 header_sections
header_values = refl

generate_constraints_complete_example :
    Keeps circuit (Req.generate_constraints circuit header_vars start) start
generate_constraints_complete_example =
    generate_constraints_complete circuit header_vars after_template start request-IsText
      header_values

publics_from_wire_example :
    (cs' : System bn254) × (p : Residue) × (c : Residue) × (commitments_from_wire_and_tls bn254
        (plaintext request)
        cipher_texts
        config
      ≡ ok (p, c))
    × (generate_constraints circuit request start ≡ ok cs')
    × (cs'.satisfied ≡ true)
    × (cs'.inputs ≡ p ∷ c ∷ [])
publics_from_wire_example =
    publics_from_wire circuit (plain-Honest bn254) request after_template start request_witness
      twice.1

-- The padding, and the split of a request.
abbrev chat : Bytes
chat = codes "{\"role\":\"user\",\"content\":\"a\\\"b\"}"

padded_chat : pad_body chat 34 ≡ ok (codes "{\"role\":\"user\",\"content\":\"a\\\"b  \"}")
unfolding pad_body insert_padding user_content_pad_position position starts_with pad_loop
padded_chat = refl

pad_body_outcome_example :
    ((new_body : Bytes) × (pad_body chat 40 ≡ ok new_body)
      × (length new_body ≡ 40)
      × Padded chat 40 new_body)
    ⊎ (((pad_body chat 40 ≡ err body_too_long) × (40 < length chat))
        ⊎ (((pad_body chat 40 ≡ err no_user_content)
              × (length chat < 40)
              × (user_content_pad_position chat ≡ err no_user_content))
            ⊎ ((pad_body chat 40 ≡ panic)
                × (length chat < 40)
                × (2 ^ 63 ≤ 40)
                × ((pos : ℕ) × (user_content_pad_position chat ≡ ok pos)))))
pad_body_outcome_example = pad_body_outcome chat 40

abbrev small : Bytes
small = codes "GET /\r\n\r\nbody"

small_split : split_http small ≡ ok (codes "GET /", codes "body")
unfolding split_http position starts_with
small_split = refl

-- A body that has a blank line itself.
abbrev lines : Bytes
lines = codes "a\r\n\r\nb"

no_blank_line : NoBlankLine (codes "GET /")
unfolding position starts_with
no_blank_line = refl

split_http-joined_example :
    split_http (codes "GET /" ++ (http_body_sep ++ lines)) ≡ ok (codes "GET /", lines)
split_http-joined_example = split_http-joined (codes "GET /") lines no_blank_line
