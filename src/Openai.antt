-- ===== src/Openai.antt =====
-- prover/src/openai: the request. wire.rs is in Config (the header template), Env (the environment),
-- Wire (the bytes of a request), Headers and Check (`check_and_pad`), req/mod.rs in Req.
pub mod Config
pub mod Env
pub mod Wire
pub mod Headers
pub mod Check
pub mod Req
