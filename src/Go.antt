-- ===== src/Go.antt =====
-- What the program uses of Go and its standard library: errors, `int`, texts as bytes, numbers, base64.
pub mod Errors
pub mod Results
pub mod Words
pub mod Strings
pub mod Substrings
pub mod Decimal
pub mod Scan
pub mod Atoi
pub mod Texts
pub mod Base64
