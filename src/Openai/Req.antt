-- ===== src/Openai/Req.antt =====
-- prover/src/openai/req/mod.rs: the constraints on the header of the decrypted request.
pub mod Accepts
use zk_prompt.Base.{ℕ, ◌+◌, List, [], ◌∷◌, map, Bytes, length}
use zk_prompt.Base.Partial.{slice}
use zk_prompt.Base.Outcome.{Outcome, ok, err, panic, ◌>>=◌, in_range}
use zk_prompt.Field.{PrimeField}
use zk_prompt.Gadgets.{Gadgets}
use zk_prompt.Circuit.Utils.{enforce_equals}
use zk_prompt.Openai.Config.{RequestConfig, header_sections, body_start}

module _ {f : PrimeField} (g : Gadgets f) where
  open g use {SynthesisError, Cs, U8, u8_constant}

  pub record ReqVar : Type 0 where
    pub data_vars : List U8
    pub config : RequestConfig

  unfoldable pub new : List U8 → RequestConfig → ReqVar
  new data_vars config = record { data_vars = data_vars; config = config }

  unfoldable pub prompt_start : ReqVar → ℕ
  prompt_start r = body_start r.config

  -- The loop over the sections, at offset `start`.
  unfoldable pub sections_loop : List Bytes → ℕ → List U8 → Cs → Outcome SynthesisError Cs
  sections_loop [] start data_vars cs = ok cs
  sections_loop (section ∷ sections) start data_vars cs = do
    let end = start + length section
    region ← in_range (slice start end data_vars)
    cs' ← enforce_equals g (map u8_constant section) region cs
    sections_loop sections end data_vars cs'

  unfoldable pub generate_constraints : ReqVar → Cs → Outcome SynthesisError Cs
  generate_constraints r cs = sections_loop (header_sections r.config) 0 r.data_vars cs
