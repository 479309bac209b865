-- ===== src/Witness.antt =====
-- prover/src/witness.rs: the commitments computed from the request on the wire and from the TLS
-- application data.
pub mod Publics
use zk_prompt.Base.{ℕ, Bytes}
use zk_prompt.Base.Outcome.{Outcome, ok, err, panic, ◌>>=◌, in_range}
use zk_prompt.Field.{PrimeField}
use zk_prompt.Commitment.{cipher_commitment, prompt_commitment}
use zk_prompt.Openai.Config.{RequestConfig}
use zk_prompt.Openai.Wire.{WireError, body_region_from_wire}

unfoldable pub prompt_region_from_wire : Bytes → RequestConfig → Outcome WireError Bytes
prompt_region_from_wire wire config = body_region_from_wire wire config

unfoldable pub commitments_from_wire_and_tls :
    (f : PrimeField) → Bytes → Bytes → RequestConfig → Outcome WireError (f.F × f.F)
commitments_from_wire_and_tls f wire tls_application_data config = do
  prompt ← prompt_region_from_wire wire config
  p ← in_range (prompt_commitment f prompt)
  c ← in_range (cipher_commitment f tls_application_data)
  ok (p, c)
