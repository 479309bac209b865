-- ===== src/Examples.antt =====
-- Runs on concrete inputs: the tests of the definitions, and the theorems at inputs that meet their
-- hypotheses.
pub mod Crypto
pub mod Request
pub mod Wire
pub mod Tests
pub mod Session
pub mod Parts
pub mod Checking
pub mod Proving
