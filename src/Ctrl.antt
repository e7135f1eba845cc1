-- ===== src/Ctrl.antt =====
-- The control-flow infrastructure, src/irx#ctrl.c: the label table of a program and the stack of its
-- active blocks.
pub mod Types
pub mod Labels
pub mod Stack
pub mod Setup
mod Tests
