-- ===== src/Json.antt =====
-- api/JsonCodec.h and api/JsonCodec.cpp.
pub mod Value
pub mod Strings
pub mod Parser
pub mod Encode
pub mod Fields
pub mod Decode
