-- ===== src/Strings.antt =====
-- The string and memory routines of include/lib/string.h, which are inline assembly. Memory is a
-- function from addresses to bytes; an object does not reach beyond the last address, so addresses do
-- not wrap. A register that counts has 32 bits. A loop that ends at a byte in memory has fuel, and
-- `none` means that the fuel ran out.
pub mod Text
pub mod Search
pub mod Compare
pub mod Copy
pub mod Block
