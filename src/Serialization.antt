-- ===== src/Serialization.antt =====
-- mechanism/serialization.hpp, with the serializers of error_define/error_struct.h.
-- A C++ type that a `Serializer` accepts is a `Ty`; its values are `Val`.
pub mod Memory
pub mod Types
pub mod Serialize
pub mod Deserialize
pub mod Encoding
pub mod Signs
pub mod Bytes
pub mod Writing
pub mod Output
pub mod Reading
pub mod Input
pub mod RoundTrip
pub mod Safety
pub mod Yielding
pub mod Typed
pub mod Members
