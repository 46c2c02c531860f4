-- ===== src/Worker/Tests.antt =====
-- pkg/worker: runs on concrete values.
mod Exec
mod Pool
mod Queue
mod Loop
