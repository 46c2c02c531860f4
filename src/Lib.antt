-- ===== src/Lib.antt =====
-- lemmings, a Go library that runs tasks on a pool of workers and scales the pool with the memory
-- in use: a model of its core and what holds of it.
--
-- A Manager (pkg/manager/manager.go) takes tasks into a channel; the workers of a Pool
-- (pkg/worker/pool.go) are meant to take them out, execute them with retries
-- (pkg/worker/worker.go) and put results into a second channel, but the pool does not hand the
-- channels to its workers. A ResourceController (pkg/manager/resource_control.go) asks a
-- ResourceMonitor (internal/utils/resource.go) about the memory and moves its worker count within
-- the limits of the configuration (pkg/manager/config.go); the pool does not follow it. Beside
-- this stand a priority queue, an object pool, middleware around the execution of tasks, and
-- memory statistics; lemmings.go passes calls on to the other packages. Two example programs run
-- a Manager, one of them through a TaskProcessor, and the tests have mocks and a wait of their
-- own.
--
--   Worker/Errors        pkg/worker/errors.go: TaskError, TaskTimeoutError
--   Worker/Task, Task/*  pkg/worker/task.go: SimpleTask, FunctionTask, the Task interface (Dispatch)
--   Worker/Exec          pkg/worker/worker.go: ExecuteTask (execute_task), executeWithRetries (attempts
--                        is its loop), waitForRetry (backoff_duration), updateTaskStats, sendResult
--   Worker/Loop          the same file: SimpleWorker (Round is a round of its goroutine's loop, Part
--                        the receiving, the executing or the end, Change what others do)
--   Worker/Queue         pkg/worker/priority_queue.go: PriorityQueue and taskHeap
--   Worker/Heap          Go's container/heap, which the queue calls, over a heap.Interface
--   Worker/Pool          pkg/worker/pool.go: NewPool, Start, Stop, Scale and their helpers
--   Manager/Config       pkg/manager/config.go: Validate, the defaults and the options (Options)
--   Manager/Controller   pkg/manager/resource_control.go: AdjustWorkerCount and its helpers
--   Controller/Usage     the same file: AdjustBasedOnResourceUsage and its helpers
--   Manager/Lifecycle    pkg/manager/manager.go: NewManager, Start, Stop, handleResult
--   Lifecycle/Submission the same file: SubmitWithTimeout, SubmitBatch, ForceScaleWorkers, the readers
--   Lifecycle/Waiting    the same file: WaitForCompletion, and the manager's goroutines as steps
--   Middleware           pkg/middleware/middleware.go: Chain, Logging, Recovery, Timeout and Retry
--                        (retry_loop is its loop), WrapTask
--   Factory              internal/factory/factory.go: the worker factory and the object Pool
--   Utils/Monitor        internal/utils/resource.go: ResourceMonitor (start is the loop of Start)
--   Utils/Stats          internal/utils/metrics.go: SystemStats (UpdateMemStats, GetMemoryTrend)
--   Utils/Random         internal/utils/random.go
--   Utils/Floats         float64 as an interface: the operations that the code uses
--   Facade               lemmings.go
--   Examples             the tasks of examples/advanced/main.go and examples/simple/main.go
--   Examples/Processor   examples/advanced/main.go: the TaskProcessor (process_loop is the loop of
--                        ProcessMath, ProcessIO and ProcessMixed)
--   Examples/Main        what the two main functions submit, and their waits
--   Testutils/Conditions internal/testutils/utils.go: WaitForCondition
--   Testutils/Tasks      internal/testutils: MockTask and the tasks made of one
--   Testutils/Mocks      internal/testutils/mocks.go: MockWorker and MockFactory
--   Common               lists, integers and Boolean tests over the native numbers
--
-- A method is a function from the state of its receiver to the new state and its results; what it
-- asks of the outside is a parameter: the clock, contexts and channels of a worker (Env), the
-- timer race of a FunctionTask (Timers), the factory and the order of Go's maps (create and pick
-- of the pool), the choice of a select (Choice: a send may be chosen also where the queue is
-- full, and a wait for room is no step of its own), the clock and the random numbers of the
-- examples (Machine). The Manager's channels are lists. An `int` is ℤ with `int64` after each
-- sum, an `int32` with `int32`. Mutexes make a method one step; so is AdjustBasedOnResourceUsage,
-- which takes them by parts only. What a mock task counts stands in cells of the world (Cell).
-- Loops that count run on a native number: the retry loops of the worker and of RetryMiddleware
-- on the attempts that their condition still allows, Chain's on the index, NewPool's of the
-- object pool on the objects still to be made, the loops of the worker pool on the distance to
-- the target, as the code computes it.
--
-- The goroutine of a SimpleWorker is a relation between states, with a step for each case of its
-- select that is ready and steps for what others do to the worker meanwhile (Others says which
-- contexts, tasks and changes of the world); its channel is a list, or nil. It is started once,
-- as the pool does it: a second Start would launch a second goroutine, which is not modelled. To
-- receive a task and to execute it are two steps; an execution is one step, also where it
-- overlaps a direct call of ExecuteTask. A float64 is any type with the operations that the code
-- uses; Manager/Config/Validation adds the order of its numbers (Ranks), in which NaN has no
-- rank. The loops of container/heap run on fuel, as much as the heap is long, which is more than
-- the levels that they can pass. The loop of WaitForCondition runs on fuel, one round more than
-- the timeout has sleeps of 10 ms.
--
-- Not modelled: the calls into the Go runtime that force a garbage collection or read its
-- statistics (their answers are arguments); logging outside of the middleware; the signals of the
-- advanced example and the goroutine that prints its statistics. A panic of a task's own code is
-- modelled only where RecoveryMiddleware meets it. Slices and channels do not run out of memory.
pub mod Common
pub mod Utils
pub mod Worker
pub mod Manager
pub mod Middleware
pub mod Factory
pub mod Examples
pub mod Testutils
pub mod Facade
