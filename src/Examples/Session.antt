-- ===== src/Examples/Session.antt =====
-- A request of the client, from its bytes to the public inputs.
use zk_prompt.Base.{ℕ, ◌≡◌, refl, true, some, [], ◌∷◌, ◌++◌, Bytes, replicate, arith}
use zk_prompt.Base.Text.{codes, encode_char, into_bytes, decimal}
use zk_prompt.Base.Outcome.{ok}
use zk_prompt.Field.Modular.{bn254, Residue}
use zk_prompt.Gadgets.Plain.{System, plain, plain-Honest}
use zk_prompt.Commitment.{cipher_commitment, prompt_commitment}
use zk_prompt.Openai.Config.{RequestConfig, template}
use zk_prompt.Circuit.{generate_constraints}
use zk_prompt.Client.{host_line, headers_loop, finish_headers, encode_request}
use zk_prompt.Base.Words.{eq_ignore_ascii_case}
use zk_prompt.Client.Encoded.{chat_request, encode_request-template}
use zk_prompt.Client.Accepted.{witness_of, client_request_accepted}

abbrev config : RequestConfig
config = record {
  host = codes "api";
  basepath = codes "/v1";
  api_key = codes "sk";
  content_length = 4;
}

abbrev content : Bytes
content = codes "{  }"

abbrev zeros : ℕ → Bytes
zeros n = replicate {A = ℕ} n 0

-- A host header of the caller is dropped, and the missing headers are added.
plain_request :
    encode_request (record {
      method = codes "GET";
      path_and_query = some (codes "/");
      authority = some (codes "a");
      headers = (codes "Host", codes "b") ∷ (codes "CONNECTION", codes "x") ∷ [];
      body = [];
    })
    ≡ codes "GET / HTTP/1.1\r\nHost: a\r\nCONNECTION: x\r\nContent-Length: 0\r\n\r\n"
unfolding encode_request headers_loop finish_headers host_line eq_ignore_ascii_case into_bytes
    encode_char decimal
plain_request = refl

encode_request-template_example :
    encode_request (chat_request config content) ≡ template config ++ (codes "\r\n" ++ content)
encode_request-template_example = encode_request-template config content refl

abbrev start : System bn254
start = record { satisfied = true; inputs = [] }

client_request_accepted_example :
    (cs' : System bn254) × (p : Residue) × (k : Residue) × (generate_constraints
        (plain bn254)
        (witness_of config (zeros 32) (zeros 12) 1 content)
        start
      ≡ ok cs')
    × (cs'.satisfied ≡ true)
    × (prompt_commitment bn254 content ≡ some p)
    × (cipher_commitment bn254 (witness_of config (zeros 32) (zeros 12) 1 content).cipher_texts
        ≡ some k)
    × (cs'.inputs ≡ p ∷ k ∷ [])
client_request_accepted_example =
    client_request_accepted config (zeros 32) (zeros 12) content 1 refl refl refl (plain bn254)
      (plain-Honest bn254) start (omega arith) (omega arith) (omega arith) (omega arith)
      (record {
        host_chars = omega arith;
        basepath_chars = omega arith;
        api_key_chars = omega arith;
      })
