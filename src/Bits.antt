-- ===== src/Bits.antt =====
-- Words of any width: laws of `&` and `|`, and the rounding that the source does by masks.
mod Digit
pub mod Laws
pub mod Align
pub mod Low
