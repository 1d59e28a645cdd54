-- ===== src/Rest.antt =====
-- src/rest
pub mod Api
pub mod HttpSession
pub mod Parser
pub mod SymbolMap
mod Examples
