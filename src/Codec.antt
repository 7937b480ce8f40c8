-- ===== src/Codec.antt =====
-- The binary codec, crates/cm108-types/src/codec.rs: a child for the integers, one for the traits,
-- and one for each message type.
pub mod Words
pub mod Traits
pub mod Frame
pub mod Parts
pub mod Client
pub mod Server
pub mod Framed
