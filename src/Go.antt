-- ===== src/Go.antt =====
-- What the program uses of Go's language and standard library: machine integers, UTF-8, hex.
pub mod Int
pub mod Utf8
pub mod Hex
pub mod Strings
pub mod Path
pub mod Strconv
pub mod Decimal
pub mod Scanner
