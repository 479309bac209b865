-- ===== src/Proxy.antt =====
-- The proxy: proxy/src/tls.rs in Tls; of proxy/src/main.rs the forwarding task in Forward, and
-- `handle_client` and `main` in Service.
pub mod Tls
pub mod Forward
pub mod Service
