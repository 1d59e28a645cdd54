-- ===== src/Websocket.antt =====
-- src/websocket
pub mod Api
pub mod Base64
pub mod Runner
mod Examples
pub mod Posts
pub mod Parser
