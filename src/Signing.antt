-- ===== src/Signing.antt =====
-- src/signing
pub mod Hex
pub mod Encoding
pub mod Nonce
pub mod Eip712
pub mod Bodies
mod Examples
