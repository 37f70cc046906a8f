-- ===== src/Handshake.antt =====
-- internal/handshake: the attempt cache of the server, and the normalization of configurations.
pub mod Attempts
pub mod Config
pub mod Negotiation
pub mod Examples
