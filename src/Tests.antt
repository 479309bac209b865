-- ===== src/Tests.antt =====
-- The tests of the repository, with their data as arguments: prover/src/build_cs.rs (Prompt),
-- prover/src/openai/req/mod.rs (Header), prover/src/mimc/bn254 (Mimc), prover/src/chacha20/mod.rs
-- (Cipher), prover/src/utils/mod.rs with prover/src/commitment.rs (Packing), and client/src/lib.rs
-- (Tls). Fields is the part of the field's library that only the tests call.
pub mod Fields
pub mod Prompt
pub mod Header
pub mod Mimc
pub mod Cipher
pub mod Packing
pub mod Tls
