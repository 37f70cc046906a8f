-- ===== src/Codec.antt =====
-- internal/codec: the wire formats, each with its parser and its serializer. A byte slice is a list
-- of numbers, a fixed-width integer a number, and an `int` that may be negative an integer.
pub mod Errors
pub mod Bytes
pub mod Header
pub mod Payload
pub mod Packet
pub mod Tlv
pub mod Utf8
pub mod Frame
mod Examples
