-- ===== src/Clib.antt =====
-- What the programs use of the C library on texts: `atoi`, `%d`, and the comparisons without case.
pub mod Decimal
pub mod Compare
pub mod Padded
