-- ===== src/Net.antt =====
-- src/net.cpp: the messages of the extender's network protocol, as bytes.
--
-- `Guid` has `parse_guid` and `format_guid`, `Message` the `Wrapper` and `NetUserVar` structures
-- with their encoders, `Decode` the decoders, and `RoundTrip` the theorem that joins them.
-- The engine's serializer, peers and protocol lists are engine objects and stay outside.
pub mod Guid
pub mod Message
pub mod Decode
pub mod RoundTrip
pub mod Total
