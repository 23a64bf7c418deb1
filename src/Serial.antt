-- ===== src/Serial.antt =====
-- serial_struct_define.h: the messages that two ends of a session exchange are serialized by their
-- fields, each behind a key of tag and wire type, as protobuf does.
--
-- A message is the list of its fields in the order of its `Descriptor`; a cell carries the C++ type of
-- a field with its value. Only the field types that serial_struct.h registers are modelled (integers,
-- `bool` and `string`); no descriptor nests messages, maps, vectors, optionals or floats.
pub mod Varint
pub mod Message
pub mod Structs
mod Tests
