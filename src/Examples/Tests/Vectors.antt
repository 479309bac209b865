-- ===== src/Examples/Tests/Vectors.antt =====
-- The vectors of the repository's tests, computed.
use zk_prompt.Base.{ℕ, ◌↔◌, ◌≡◌, refl, ap, true, [], ◌∷◌, ◌++◌, Bytes, arith}
use zk_prompt.Base.Chunks.{chunks_loop}
use zk_prompt.Base.Outcome.{ok}
use zk_prompt.Base.Text.{codes, into_bytes, encode_char, decimal, digits_loop}
use zk_prompt.Openai.Config.{
  RequestConfig, template, header_sections, req_line, host_header, authorization_header,
  content_type_header, content_length_header, connection_header,
}
use zk_prompt.Tests.Mimc.{test_mimc}
use zk_prompt.Tests.Header.{test_req_constraint, test_req_constraint_passes}
use zk_prompt.Field.Modular.{bn254, Residue, residue, number, add_mod, mul_mod}
use zk_prompt.Gadgets.Plain.{System, plain}
use zk_prompt.Mimc.{
  pow_loop, feistel_round, feistel_loop, feistel, absorb_loop, squeeze_loop, permute_feistel,
}
use zk_prompt.Mimc.Bn254.{mimc_bn254}
use zk_prompt.Chacha20.Reference.{
  quarter, quarter_at, double_round, iterate_rounds, serialise, block, xor_bytes, encrypt_blocks,
  chacha20,
}
use zk_prompt.Circuit.{qr_constants}
use zk_prompt.Circuit.Alloc.{words}
use zk_prompt.Tests.Cipher.{constraint_case0, constraint_case1}
use zk_prompt.Tests.Cipher.Vectors.{constraint_case_iff, constraint_case1_iff}
use zk_prompt.Examples.Tests.{start, no_words, residue_tests}

abbrev key : Bytes
key =
    45 ∷ 29 ∷ 211 ∷ 254 ∷ 148 ∷ 21 ∷ 111 ∷ 0 ∷ 99 ∷ 55 ∷ 45 ∷ 21 ∷ 35 ∷ 161 ∷ 11 ∷ 84 ∷ 35 ∷ 72
    ∷ 243 ∷ 173 ∷ 116 ∷ 145 ∷ 254 ∷ 196 ∷ 67 ∷ 144 ∷ 173 ∷ 36 ∷ 162 ∷ 243 ∷ 237 ∷ 199 ∷ []

abbrev nonce : Bytes
nonce = 74 ∷ 31 ∷ 80 ∷ 61 ∷ 168 ∷ 139 ∷ 170 ∷ 110 ∷ 88 ∷ 42 ∷ 47 ∷ 225 ∷ []

abbrev input : Bytes
input =
    84 ∷ 111 ∷ 109 ∷ 111 ∷ 114 ∷ 114 ∷ 111 ∷ 119 ∷ 32 ∷ 119 ∷ 105 ∷ 108 ∷ 108 ∷ 32 ∷ 98 ∷ 101 ∷ 32
    ∷ 98 ∷ 101 ∷ 116 ∷ 116 ∷ 101 ∷ 114 ∷ 33 ∷ 33 ∷ 33 ∷ 33 ∷ 33 ∷ 33 ∷ 33 ∷ 33 ∷ 33 ∷ 84 ∷ 111 ∷ 109
    ∷ 111 ∷ 114 ∷ 114 ∷ 111 ∷ 119 ∷ 32 ∷ 119 ∷ 105 ∷ 108 ∷ 108 ∷ 32 ∷ 98 ∷ 101 ∷ 32 ∷ 98 ∷ 101 ∷ 116
    ∷ 116 ∷ 101 ∷ 114 ∷ 33 ∷ 33 ∷ 33 ∷ 33 ∷ 33 ∷ 33 ∷ 33 ∷ 33 ∷ 33 ∷ []

abbrev output : Bytes
output =
    129 ∷ 96 ∷ 190 ∷ 244 ∷ 206 ∷ 117 ∷ 166 ∷ 54 ∷ 16 ∷ 184 ∷ 83 ∷ 117 ∷ 97 ∷ 159 ∷ 226 ∷ 12 ∷ 59
    ∷ 204 ∷ 46 ∷ 21 ∷ 67 ∷ 137 ∷ 183 ∷ 71 ∷ 65 ∷ 117 ∷ 86 ∷ 129 ∷ 221 ∷ 10 ∷ 211 ∷ 123 ∷ 34 ∷ 1
    ∷ 103 ∷ 26 ∷ 54 ∷ 133 ∷ 39 ∷ 41 ∷ 218 ∷ 116 ∷ 185 ∷ 88 ∷ 24 ∷ 43 ∷ 175 ∷ 180 ∷ 217 ∷ 189 ∷ 108
    ∷ 43 ∷ 52 ∷ 138 ∷ 227 ∷ 39 ∷ 122 ∷ 170 ∷ 5 ∷ 110 ∷ 18 ∷ 48 ∷ 239 ∷ 157 ∷ []

vector0 :
    chacha20 qr_constants (no_words 8) (no_words 3) 1 (49 ∷ 50 ∷ 51 ∷ 52 ∷ [])
    ≡ 174 ∷ 53 ∷ 212 ∷ 138 ∷ []
unfolding chacha20 encrypt_blocks chunks_loop xor_bytes block serialise iterate_rounds double_round
    quarter_at quarter
vector0 = refl

vector1 : chacha20 qr_constants (words key) (words nonce) 1 input ≡ output
unfolding chacha20 encrypt_blocks chunks_loop xor_bytes block serialise iterate_rounds double_round
    quarter_at quarter words
vector1 = refl

constraint_case1_iff_example :
    (constraint_case1 (plain bn254) start key nonce input output 23106 ≡ ok tt) ↔ (
      (chacha20 qr_constants (words key) (words nonce) 1 input ≡ output)
      × (◌≡◌ {A = ℕ} 23106 23106))
constraint_case1_iff_example =
    constraint_case1_iff (plain bn254) start key nonce input output 23106 refl (omega arith) refl
      (omega arith) (omega arith)

-- The two tests of the ChaCha20 circuit pass, the second one if the library counts what it expects.
case0_passes : constraint_case0 (plain bn254) start ≡ ok tt
unfolding constraint_case0
case0_passes =
    (constraint_case_iff (plain bn254) start (no_words 8) (no_words 3) 1 (49 ∷ 50 ∷ 51 ∷ 52 ∷ [])
        (174 ∷ 53 ∷ 212 ∷ 138 ∷ []) refl (omega arith) refl (omega arith) (omega arith)
        (omega arith)).1
      vector0

case1_passes : constraint_case1 (plain bn254) start key nonce input output 23106 ≡ ok tt
case1_passes =
    (constraint_case1_iff (plain bn254) start key nonce input output 23106 refl (omega arith) refl
        (omega arith) (omega arith)).1
      (vector1, refl)

-- `test_mimc` of prover/src/mimc/bn254/mod.rs passes.
mimc_passes : test_mimc {E = Unit {0}} bn254 residue_tests ≡ ok tt
unfolding test_mimc permute_feistel absorb_loop squeeze_loop feistel feistel_loop feistel_round
    pow_loop mimc_bn254 residue number Residue add_mod mul_mod
mimc_passes = refl

abbrev req_config : RequestConfig
req_config = record {
  host = codes "dashscope.aliyuncs.com";
  basepath = codes "/compatible-mode/v1/chat/completions";
  api_key = codes "sk";
  content_length = 211;
}

-- The bytes of `test_req_constraint` of prover/src/openai/req/mod.rs: the header, and the rest.
abbrev req_header : Bytes
req_header =
    80 ∷ 79 ∷ 83 ∷ 84 ∷ 32 ∷ 47 ∷ 99 ∷ 111 ∷ 109 ∷ 112 ∷ 97 ∷ 116 ∷ 105 ∷ 98 ∷ 108 ∷ 101 ∷ 45 ∷ 109
    ∷ 111 ∷ 100 ∷ 101 ∷ 47 ∷ 118 ∷ 49 ∷ 47 ∷ 99 ∷ 104 ∷ 97 ∷ 116 ∷ 47 ∷ 99 ∷ 111 ∷ 109 ∷ 112 ∷ 108
    ∷ 101 ∷ 116 ∷ 105 ∷ 111 ∷ 110 ∷ 115 ∷ 32 ∷ 72 ∷ 84 ∷ 84 ∷ 80 ∷ 47 ∷ 49 ∷ 46 ∷ 49 ∷ 13 ∷ 10 ∷ 72
    ∷ 111 ∷ 115 ∷ 116 ∷ 58 ∷ 32 ∷ 100 ∷ 97 ∷ 115 ∷ 104 ∷ 115 ∷ 99 ∷ 111 ∷ 112 ∷ 101 ∷ 46 ∷ 97 ∷ 108
    ∷ 105 ∷ 121 ∷ 117 ∷ 110 ∷ 99 ∷ 115 ∷ 46 ∷ 99 ∷ 111 ∷ 109 ∷ 13 ∷ 10 ∷ 97 ∷ 117 ∷ 116 ∷ 104 ∷ 111
    ∷ 114 ∷ 105 ∷ 122 ∷ 97 ∷ 116 ∷ 105 ∷ 111 ∷ 110 ∷ 58 ∷ 32 ∷ 66 ∷ 101 ∷ 97 ∷ 114 ∷ 101 ∷ 114 ∷ 32
    ∷ 115 ∷ 107 ∷ 13 ∷ 10 ∷ 99 ∷ 111 ∷ 110 ∷ 116 ∷ 101 ∷ 110 ∷ 116 ∷ 45 ∷ 116 ∷ 121 ∷ 112 ∷ 101 ∷ 58
    ∷ 32 ∷ 97 ∷ 112 ∷ 112 ∷ 108 ∷ 105 ∷ 99 ∷ 97 ∷ 116 ∷ 105 ∷ 111 ∷ 110 ∷ 47 ∷ 106 ∷ 115 ∷ 111 ∷ 110
    ∷ 13 ∷ 10 ∷ 67 ∷ 111 ∷ 110 ∷ 116 ∷ 101 ∷ 110 ∷ 116 ∷ 45 ∷ 76 ∷ 101 ∷ 110 ∷ 103 ∷ 116 ∷ 104 ∷ 58
    ∷ 32 ∷ 50 ∷ 49 ∷ 49 ∷ 13 ∷ 10 ∷ 67 ∷ 111 ∷ 110 ∷ 110 ∷ 101 ∷ 99 ∷ 116 ∷ 105 ∷ 111 ∷ 110 ∷ 58
    ∷ 32 ∷ 99 ∷ 108 ∷ 111 ∷ 115 ∷ 101 ∷ 13 ∷ 10 ∷ []

abbrev req_rest : Bytes
req_rest =
    13 ∷ 10 ∷ 123 ∷ 34 ∷ 109 ∷ 111 ∷ 100 ∷ 101 ∷ 108 ∷ 34 ∷ 58 ∷ 34 ∷ 113 ∷ 119 ∷ 101 ∷ 110 ∷ 51
    ∷ 46 ∷ 54 ∷ 45 ∷ 112 ∷ 108 ∷ 117 ∷ 115 ∷ 34 ∷ 44 ∷ 34 ∷ 109 ∷ 101 ∷ 115 ∷ 115 ∷ 97 ∷ 103 ∷ 101
    ∷ 115 ∷ 34 ∷ 58 ∷ 91 ∷ 123 ∷ 34 ∷ 114 ∷ 111 ∷ 108 ∷ 101 ∷ 34 ∷ 58 ∷ 34 ∷ 115 ∷ 121 ∷ 115 ∷ 116
    ∷ 101 ∷ 109 ∷ 34 ∷ 44 ∷ 34 ∷ 99 ∷ 111 ∷ 110 ∷ 116 ∷ 101 ∷ 110 ∷ 116 ∷ 34 ∷ 58 ∷ 91 ∷ 123 ∷ 34
    ∷ 116 ∷ 121 ∷ 112 ∷ 101 ∷ 34 ∷ 58 ∷ 34 ∷ 116 ∷ 101 ∷ 120 ∷ 116 ∷ 34 ∷ 44 ∷ 34 ∷ 116 ∷ 101 ∷ 120
    ∷ 116 ∷ 34 ∷ 58 ∷ 34 ∷ 89 ∷ 111 ∷ 117 ∷ 32 ∷ 97 ∷ 114 ∷ 101 ∷ 32 ∷ 97 ∷ 32 ∷ 99 ∷ 97 ∷ 108 ∷ 99
    ∷ 117 ∷ 108 ∷ 97 ∷ 116 ∷ 111 ∷ 114 ∷ 32 ∷ 104 ∷ 101 ∷ 114 ∷ 101 ∷ 32 ∷ 116 ∷ 111 ∷ 32 ∷ 104
    ∷ 101 ∷ 108 ∷ 112 ∷ 32 ∷ 116 ∷ 104 ∷ 101 ∷ 32 ∷ 117 ∷ 115 ∷ 101 ∷ 114 ∷ 32 ∷ 112 ∷ 101 ∷ 114
    ∷ 102 ∷ 111 ∷ 114 ∷ 109 ∷ 32 ∷ 97 ∷ 114 ∷ 105 ∷ 116 ∷ 104 ∷ 109 ∷ 101 ∷ 116 ∷ 105 ∷ 99 ∷ 32
    ∷ 111 ∷ 112 ∷ 101 ∷ 114 ∷ 97 ∷ 116 ∷ 105 ∷ 111 ∷ 110 ∷ 115 ∷ 46 ∷ 34 ∷ 125 ∷ 93 ∷ 125 ∷ 44 ∷ 123
    ∷ 34 ∷ 114 ∷ 111 ∷ 108 ∷ 101 ∷ 34 ∷ 58 ∷ 34 ∷ 117 ∷ 115 ∷ 101 ∷ 114 ∷ 34 ∷ 44 ∷ 34 ∷ 99 ∷ 111
    ∷ 110 ∷ 116 ∷ 101 ∷ 110 ∷ 116 ∷ 34 ∷ 58 ∷ 34 ∷ 67 ∷ 97 ∷ 108 ∷ 99 ∷ 117 ∷ 108 ∷ 97 ∷ 116 ∷ 101
    ∷ 32 ∷ 50 ∷ 32 ∷ 45 ∷ 32 ∷ 53 ∷ 46 ∷ 34 ∷ 125 ∷ 93 ∷ 125 ∷ []

req_template : req_header ≡ template req_config
unfolding header_sections req_line host_header authorization_header content_type_header
    content_length_header connection_header into_bytes encode_char decimal digits_loop
req_template = refl

req_passes :
    (cs' : System bn254) × (test_req_constraint
        (plain bn254)
        req_config
        (req_header ++ req_rest)
        start
      ≡ ok cs')
    × (cs'.satisfied ≡ true)
req_passes =
    test_req_constraint_passes (plain bn254) req_config (req_header ++ req_rest) req_rest start
      (record {
        host_chars = omega arith;
        basepath_chars = omega arith;
        api_key_chars = omega arith;
      })
      (omega arith) (ap (λ (l : Bytes). l ++ req_rest) req_template)
