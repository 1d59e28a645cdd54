-- ===== src/Rest/Parser.antt =====
-- src/rest/RestApiMessageParser.cpp.
pub mod Dispatch
pub mod Statuses
pub mod Simple
pub mod Metadata
