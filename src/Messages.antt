-- ===== src/Messages.antt =====
-- src/messages
pub mod Mapping
pub mod Wire
pub mod Exchange
pub mod Info
mod Examples
