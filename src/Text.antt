-- ===== src/Text.antt =====
-- What the program uses of Go's `strings` and `strconv`, on the bytes of UTF-8.
pub mod Decimal
pub mod Words
pub mod Order
