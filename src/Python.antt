-- ===== src/Python.antt =====
-- What the source uses of Python itself: values of `Any`, `int`, bytes, hexadecimal and UTF-8 text.
pub mod Values
pub mod Bytes
pub mod Hex
pub mod Utf8
