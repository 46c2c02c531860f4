-- ===== src/Utils.antt =====
-- internal/utils: the resource monitor, the memory statistics and the random helpers.
pub mod Monitor
pub mod Floats
pub mod Stats
pub mod Random
pub mod Tests
