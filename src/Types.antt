-- ===== src/Types.antt =====
-- include/hyperliquid/types/RequestTypes.h
pub mod Subscription
pub mod Endpoint
pub mod Orders
mod Examples
