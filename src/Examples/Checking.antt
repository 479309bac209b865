-- ===== src/Examples/Checking.antt =====
-- Requests and responses on the concrete parts: they are checked and decoded.
use zk_prompt.Openai.Env.{from_env, from_env-decimal}
use zk_prompt.Circuit.{publish}
use zk_prompt.Field.Modular.{bn254, residue, number, Residue}
use zk_prompt.Gadgets.Plain.{plain_with}
use zk_prompt.Base.{
  if◌then◌else◌, Option, some, none, true, false, ◌≡◌, ◌≢◌, refl, List, [], ◌∷◌, ◌++◌, Bytes,
  length, arith,
}
use zk_prompt.Base.Text.{Str, str_eq, decimal, digits_loop, codes, into_bytes}
use zk_prompt.Base.Outcome.{ok, panic}
use zk_prompt.Openai.Config.{template}
use zk_prompt.Openai.Wire.{http_body_sep}
use zk_prompt.Openai.Wire.Padding.{Padded}
use zk_prompt.Openai.Check.{check_and_pad}
use zk_prompt.Openai.Check.Rebuilt.{sized}
use zk_prompt.Openai.Check.Accepted.{check_and_pad_complete}
use zk_prompt.Openai.Check.Checked.{EndsIn, IsChecked, check_and_pad_sound}
use zk_prompt.Openai.Check.Total.{check_and_pad_total}
use zk_prompt.Client.Response.{decode_response}
use zk_prompt.Client.Response.Decoded.{status_text, decode_response_total}
use zk_prompt.Client.Response.Headers.{AreHeaders, header_texts, decode_response-headers}
use zk_prompt.Openai.Check.Lines.{join_lines}
use zk_prompt.Base.Words.{trim, trim_start, trim_end, keep_front, is_whitespace}
use zk_prompt.Examples.Parts.{parse_chat, config, tidy, content, padded_content, http}
use zk_prompt.Examples.Parts.{is_chat, is_padded, padded}

abbrev arrived : Bytes
arrived = template (sized config (length content)) ++ (codes "\r\n" ++ content)

check_and_pad_complete_example : check_and_pad parse_chat config arrived ≡ ok padded
check_and_pad_complete_example =
    check_and_pad_complete parse_chat config tidy content padded_content is_chat is_padded

check_and_pad_sound_example :
    (headers : Bytes) × (body : Bytes) × (arrived ≡ headers ++ (http_body_sep ++ body))
    × IsChecked parse_chat config headers body
    × EndsIn 30 padded
    × Padded body 30 padded_content
check_and_pad_sound_example =
    check_and_pad_sound parse_chat config arrived padded
      (check_and_pad_complete parse_chat config tidy content padded_content is_chat is_padded)

check_and_pad_total_example : check_and_pad parse_chat config content ≢ panic
check_and_pad_total_example = check_and_pad_total parse_chat config content (omega arith)

-- The header of `answer`, and another.
abbrev headers : List (Str × Str)
headers = (codes "content-type", codes "text/plain") ∷ (codes "server", codes "a: b") ∷ []

are_headers : AreHeaders headers
unfolding trim trim_start trim_end keep_front is_whitespace
are_headers = (
  record {
    no_colon = ground arith;
    name_trimmed = refl;
    value_trimmed = refl;
    name_line = ground arith;
    value_line = ground arith;
    name_scalar = ground arith;
    value_scalar = ground arith;
  },
  (
    record {
      no_colon = ground arith;
      name_trimmed = refl;
      value_trimmed = refl;
      name_line = ground arith;
      value_line = ground arith;
      name_scalar = ground arith;
      value_scalar = ground arith;
    },
    tt,
  ),
)

decode_response-headers_example :
    decode_response http (
      into_bytes (join_lines (status_text 200 (codes "OK")) (header_texts headers))
      ++ (http_body_sep ++ codes "hello"))
    ≡ ok ((200, headers), codes "hello")
decode_response-headers_example =
    decode_response-headers http 200 (codes "OK") headers (codes "hello") (omega arith)
      (ground arith) (ground arith) are_headers

decode_response_total_example : decode_response http content ≢ panic
decode_response_total_example = decode_response_total http content

-- An environment, and the configuration that it holds.
abbrev variables : Str → Option Str
variables name =
    if str_eq name (codes "HOST")
    then some (codes "api")
    else if str_eq name (codes "BASEPATH")
    then some (codes "/v1")
    else if str_eq name (codes "API_KEY")
    then some (codes "sk")
    else if str_eq name (codes "CONTENT_LENGTH")
    then some (codes "30")
    else none

from_env-decimal_example : from_env variables ≡ ok config
unfolding str_eq decimal digits_loop
from_env-decimal_example = from_env-decimal variables config refl refl refl refl (omega arith)

-- A public input that is set to another value than the commitment's leaves the system unsatisfied.
other_input :
    publish
      (plain_with bn254 (λ v. residue 0))
      (residue 5)
      (record { satisfied = true; inputs = [] })
    ≡ ok (record { satisfied = false; inputs = residue 0 ∷ [] })
unfolding publish residue number Residue
other_input = refl
