-- ===== src/Bencode.antt =====
-- The package bencode. Reflection is written out: `Value` stands for the Go values that are encoded
-- and decoded, `Ty` for the Go types that a decode is told to fill.
pub mod Number
pub mod Value
pub mod Encode
pub mod Decode
pub mod RoundTrip
pub mod Termination
pub mod Get
