-- ===== src/Worker.antt =====
-- pkg/worker: errors, tasks, the worker that executes them, and the worker pool.
pub mod Errors
pub mod Heap
pub mod Queue
pub mod Task
pub mod Exec
pub mod Loop
pub mod Pool
mod Tests
