-- ===== src/VarPool.antt =====
-- The variable pool, src/irx#vpol.c and include/irxvpool.h: a chained hash table for each scope, and
-- scopes chained by PROCEDURE EXPOSE.
pub mod Types
pub mod Table
pub mod Scope
pub mod Update
pub mod Expose
pub mod Create
pub mod Cache
pub mod Iterate
mod Tests
