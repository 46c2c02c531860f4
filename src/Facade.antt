-- ===== src/Facade.antt =====
-- lemmings.go: the functions of the root package, which pass their arguments on to the others, and its
-- middleware variables. ForceGC only calls the runtime.
use lemmings.Common.{String, Option, List, ℤ, pos}
use lemmings.Utils.Floats.{Floats}
use lemmings.Utils.Stats.{RuntimeStats, get_simple_mem_usage_percent}
use lemmings.Worker.Task.{TaskFunc, FunctionTask}
use lemmings.Worker.Task.Function
use lemmings.Worker.Loop.{SimpleWorker, nil_chan, new_simple_worker}
use lemmings.Manager.Config.{Config}
use lemmings.Manager.Config
use lemmings.Manager.Lifecycle.{Manager, ManagerError, Ending}
use lemmings.Manager.Lifecycle
use lemmings.Middleware.{Env, TaskMiddleware, WrappedTask, chain}
use lemmings.Middleware
use lemmings.Factory.{Factory, WorkerFactoryFunc}
use lemmings.Factory

module _ {P W V C K E : Type 0} (floats : Floats) where
  open floats use {Float}

  -- NewManager, at the given time
  unfoldable pub new_manager : ℤ → Config Float → Ending (ManagerError E) (Manager P W V C K Float)
  unfolding Lifecycle.new_manager
  new_manager now config = Lifecycle.new_manager floats now config

module _ (floats : Floats) where
  open floats use {Float}

  -- DefaultConfig
  unfoldable pub default_config : Config Float
  default_config = Config.default_config floats

  -- GetMemoryUsagePercent
  unfoldable pub get_memory_usage_percent : RuntimeStats → Float
  get_memory_usage_percent m = get_simple_mem_usage_percent floats m

-- NewWorkerFactory
unfoldable pub new_worker_factory :
    {T W : Type 0} → Option (ℤ → Factory T W) → WorkerFactoryFunc T W
new_worker_factory fn = Factory.new_worker_factory fn

module _ {W V C K : Type 0} where
  -- CreateSimpleWorker, at the given time
  unfoldable pub create_simple_worker : ℤ → ℤ → W → SimpleWorker W V C K
  create_simple_worker id time w = new_simple_worker id nil_chan (pos 0) time w

  -- NewFunctionTask
  unfoldable pub new_function_task : String → Option (TaskFunc W V C) → FunctionTask W V C K
  new_function_task id fn = Function.new_function_task id fn

module _ {T V C W : Type 0} where
  -- CreateMiddlewareChain and WrapTask
  unfoldable pub create_middleware_chain : List (TaskMiddleware T V C W) → TaskMiddleware T V C W
  create_middleware_chain middlewares = chain middlewares

  unfoldable pub wrap_task : T → TaskMiddleware T V C W → WrappedTask T V C W
  wrap_task task middleware = Middleware.wrap_task task middleware

-- LoggingMiddleware, RecoveryMiddleware, TimeoutMiddleware and RetryMiddleware
module _ {T V C W : Type 0} (env : Env C W) (id : T → String) where
  unfoldable pub logging_middleware : TaskMiddleware T V C W
  logging_middleware = Middleware.logging_middleware env id

module _ {T V C W : Type 0} (id : T → String) where
  unfoldable pub recovery_middleware : TaskMiddleware T V C W
  recovery_middleware = Middleware.recovery_middleware id

module _ {T V C W : Type 0} (env : Env C W) where
  unfoldable pub timeout_middleware : ℤ → TaskMiddleware T V C W
  timeout_middleware = Middleware.timeout_middleware env

module _ {T V C W : Type 0} (env : Env C W) (id : T → String) (floats : Floats) where
  open floats use {Float}

  unfoldable pub retry_middleware : ℤ → Float → TaskMiddleware T V C W
  retry_middleware = Middleware.retry_middleware env id floats
