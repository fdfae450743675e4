-- ===== src/Text.antt =====
-- stream.cc and stream.h: numbers as text, and the fixed buffer that texts are put in.
pub mod Digits
pub mod Decimal
pub mod Reading
pub mod Units
pub mod Binary
pub mod Hex
pub mod Buffer
pub mod Stream
pub mod Items
pub mod Output
mod Tests
