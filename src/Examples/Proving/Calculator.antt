-- ===== src/Examples/Proving/Calculator.antt =====
-- The example's program on the concrete parts.
use zk_prompt.Base.{◌≡◌, refl, Option, some, none, [], ◌∷◌, arith, if◌then◌else◌}
use zk_prompt.Base.Text.{Str, codes, str_eq, decimal}
use zk_prompt.Base.Outcome.{Outcome, ok, err, panic}
use zk_prompt.Session.Send.{SendError}
use zk_prompt.Client.Encoded.{chat_request}
use zk_prompt.Session.Calculator.{Library, main}
use zk_prompt.Session.Calculator.Proves.{IsConfigured, one_chat, main_proves}
use zk_prompt.Examples.Parts.{
  circuit, tls, groth16, parse_chat, config, tidy, content, padded_content, http, content_type_line,
  is_chat, is_padded,
}
use zk_prompt.Examples.Proving.{answering, answers, built, room}

-- The variables that the program reads.
abbrev var : Str → Option Str
var name =
    if str_eq name (codes "HOST")
    then some config.host
    else if str_eq name (codes "BASEPATH")
    then some config.basepath
    else if str_eq name (codes "API_KEY")
    then some config.api_key
    else if str_eq name (codes "CONTENT_LENGTH")
    then some (decimal config.content_length)
    else none

is_set : IsConfigured var config
unfolding str_eq
is_set = record {
  is_api_key = refl;
  host = refl;
  basepath = refl;
  content_length = refl;
  fits = omega arith;
}

-- The text of a response is its body.
abbrev text : Outcome SendError (http.Response) → Option Str
text (ok response) = some (response.1)
text (err e) = none
text panic = none

abbrev library : Library http
library key url model preamble question = some (one_chat http (chat_request config content) text)

main_proves_example :
    main http parse_chat tls circuit groth16 var library (λ i. answering) ≡ ok (codes "hello", none)
main_proves_example =
    main_proves http parse_chat tls circuit groth16 var config library (λ i. answering) text content
      padded_content 200 (codes "OK") (content_type_line ∷ []) (codes "hello")
      ((200, (codes "content-type", codes "text/plain") ∷ []), codes "hello") (codes "hello") is_set
      refl refl tidy answers (omega arith) is_chat is_padded room (omega arith) (ground arith)
      (ground arith) (omega arith, ground arith, tt) (ground arith, tt) built
