-- ===== src/Protocol/Codec.antt =====
-- crates/crosspuck-core/src/protocol/codec.rs: the errors of the wire format, and the interface of
-- a payload. The field that an error names is a text, as in the source.
pub mod Encoder
pub mod Decoder
pub mod Error
pub mod Reads
pub mod Parses
pub mod Whole
pub mod Wire
