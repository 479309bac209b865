-- ===== src/Session.antt =====
-- client/src: the proving client. `key_log.rs` (KeyLog), the materials of a proof in `prove.rs`
-- (Materials), `ZKClient::prove` (Prove), the TLS configuration of `client/proxy.rs` (TlsConfig), and
-- the client of `client/mod.rs` (Execute, Send). The libraries for TLS and for Groth16 are
-- interfaces. Calculator is the program of example/src/main.rs.
pub mod KeyLog
pub mod Rustls
pub mod Groth16
pub mod Materials
pub mod Prove
pub mod TlsConfig
pub mod Execute
pub mod History
pub mod Chat
pub mod Send
pub mod Refused
pub mod Proxied
pub mod Calculator
