-- ===== src/Proxy.antt =====
-- The outbound-proxy subsystem: src/shared/net/proxy and src/shared/net/egress.ts.
pub mod Pool
pub mod Redact
mod Tests
