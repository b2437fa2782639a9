-- ===== src/Python.antt =====
-- What the source uses of Python itself: decoded JSON values, numbers, texts and exceptions.
pub mod Text
pub mod Value
