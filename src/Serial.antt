-- ===== src/Serial.antt =====
-- The serializer and deserializer of meta-data: model/Serializer.cc and model/Deserializer.cc.
pub mod Writer
pub mod Reader
pub mod Varint
pub mod Strings
pub mod Codec
pub mod Leaves
pub mod Objects
