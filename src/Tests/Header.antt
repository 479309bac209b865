-- ===== src/Tests/Header.antt =====
-- prover/src/openai/req/mod.rs: `test_req_constraint`, with its configuration, its bytes and the
-- constraint system as arguments.
use zk_prompt.Base.{◌≡◌, refl, ◌∙◌, map, ◌++◌, Bytes, AllBytes}
use zk_prompt.Base.Outcome.{Outcome, ok, unwrap}
use zk_prompt.Field.{PrimeField}
use zk_prompt.Gadgets.{Gadgets, map-u8_constant}
use zk_prompt.Openai.Config.{RequestConfig, IsText, template}
use zk_prompt.Openai.Req
use zk_prompt.Openai.Req.Accepts.{generate_constraints_complete}

module _ {f : PrimeField} (g : Gadgets f) where
  open g use {SynthesisError, Cs, u8_value, u8_constant, satisfied}

  unfoldable pub test_req_constraint : RequestConfig → Bytes → Cs → Outcome SynthesisError Cs
  test_req_constraint config bytes cs =
      unwrap (Req.generate_constraints g (Req.new g (map u8_constant bytes) config) cs)

  -- For a configuration of `char`s and bytes that begin with its header template, the test passes
  -- and keeps the system as satisfied as it was.
  pub test_req_constraint_passes :
      (config : RequestConfig) (bytes rest : Bytes) (cs : Cs)
      → IsText config
      → AllBytes bytes
      → bytes ≡ template config ++ rest
      → (cs' : Cs) × (test_req_constraint config bytes cs ≡ ok cs') × (satisfied cs' ≡ satisfied cs)
  unfolding test_req_constraint Req.new
  test_req_constraint_passes config bytes rest cs text b e =
      let req = Req.new g (map u8_constant bytes) config in
      let k = generate_constraints_complete g req rest cs text (map-u8_constant g bytes b ∙ e) in
      (k.cs', rw (k.runs) refl, k.same)
