-- ===== src/Arith.antt =====
-- The decimal arithmetic engine, src/irx#arith.c.
pub mod Digits
pub mod Number
pub mod Magnitude
pub mod Subtract
pub mod Ops
pub mod Divide
pub mod Text
pub mod Public
pub mod Fixed
pub mod Digitwise
mod Tests
mod PublicTests
