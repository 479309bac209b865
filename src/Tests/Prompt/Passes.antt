-- ===== src/Tests/Prompt/Passes.antt =====
-- `test` of prover/src/build_cs.rs, on any configuration.
use zk_prompt.Base.{Bytes, take, drop}
use zk_prompt.Field.{PrimeField}
use zk_prompt.Gadgets.{Gadgets}
use zk_prompt.Openai.Config.{RequestConfig, IsText, body_start}
use zk_prompt.Circuit
use zk_prompt.Circuit.{ZkPrompt}
use zk_prompt.Session.Groth16.{Groth16}
use zk_prompt.Tests.Prompt.Witness.{encrypted, request_of}

module _ {f : PrimeField} (g : Gadgets f) (s : Groth16 g) (c : RequestConfig) (t : IsText c) where
  abbrev cipher : Bytes
  cipher = encrypted (request_of c)

  abbrev inner : Bytes
  inner = take c.content_length (drop (body_start c) (request_of c))
