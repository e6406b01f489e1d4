-- ===== src/ByteArray.antt =====
-- The growable byte buffer of yuyu/bytearray.h and yuyu/bytearray.cc.
pub mod Chain
pub mod Buffer
pub mod Codec
mod Tests
