-- ===== src/Encoding.antt =====
-- The text encodings of Go's standard library that the program uses: encoding/hex and the decimal
-- form of math/big.
pub mod Hex
pub mod Decimal
pub mod Hexadecimal
