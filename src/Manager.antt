-- ===== src/Manager.antt =====
-- pkg/manager: configuration, the resource controller and the manager.
pub mod Config
pub mod Controller
pub mod Lifecycle
mod Tests
