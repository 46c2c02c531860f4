-- ===== src/Testutils.antt =====
-- internal/testutils: the mocks and the helpers of the package's tests. What a mock changes while it is used
-- stands in a cell of the world, as several references to it share it; the mutexes make a method one step.
pub mod Conditions
pub mod Tasks
pub mod Mocks
pub mod Executions
pub mod Filling
pub mod Creating
mod Tests
use lemmings.Common.{◌≡◌}

-- A variable of type `A` in a world `W`.
pub record Cell (W A : Type 0) : Type 0 where
  pub get : W → A
  pub put : A → W → W
  pub get_put : (a : A) (w : W) → get (put a w) ≡ a
