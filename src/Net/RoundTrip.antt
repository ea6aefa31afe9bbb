-- ===== src/Net/RoundTrip.antt =====
-- src/net.cpp: `decode` returns the message that `encode` was given.
pub mod Walks
pub mod Vars
pub mod Messages
