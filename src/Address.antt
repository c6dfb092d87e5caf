-- ===== src/Address.antt =====
-- address.go: the header byte, its types and networks, and the encoding of addresses.
pub mod Bits
pub mod Types
pub mod Header
pub mod HeaderLaws
pub mod Order
pub mod Codec
pub mod CodecLaws
pub mod Decode
pub mod Accept
pub mod Toy
pub mod Tests
