-- ===== src/Python.antt =====
-- The parts of Python's standard library that the program uses.
pub mod Unicode
pub mod Strings
pub mod Hashlib
pub mod Decimal
pub mod Hmac
pub mod Utf8
pub mod Urls
pub mod Base64
pub mod Hex
pub mod Uuid
