-- ===== src/Lib.antt =====
-- The submit side of Parsl, with recoverable checkpoints: the data-flow kernel that launches tasks,
-- handles their results, stores them in a memoizer and appends them to a checkpoint file, so that a
-- later run need not repeat them.
--
-- Files, and the code that they model:
--   Dataflow/Rundirs.antt, Rundirs/Decimal, Rundirs/Allocation, Rundirs/Race
--     solution/rundirs.py: `_numbered_directory_ids` and `make_rundir`. A directory is a list of
--     entries, a name the list of its code points. Race has one step for the scan and one for each
--     mkdir of a launcher.
--   Dataflow/States.antt          environment/parsl/dataflow/states.py
--   Dataflow/Errors.antt, Root    environment/parsl/dataflow/errors.py
--   Dataflow/Tasks.antt           environment/parsl/dataflow/taskrecord.py
--   Dataflow/Dependencies.antt    environment/parsl/dataflow/dependency_resolvers.py, without the
--     deep resolver
--   Dataflow/Values.antt          Python values, the heap of mutable objects, and the library
--   Dataflow/Memo.antt, Identity, Identity/Reordering, Memoizer, Isolation, Loading,
--   Loading/Entries, Loading/Records, Loading/Roundtrip
--     solution/memoization.py: `MemoEntry`, `id_for_memo`, `make_hash`, `check_memo`,
--     `prepare_success`, `prepare_failure`, `update_memo` and `load_checkpoints`
--   Dataflow/Completion.antt      solution/completion.py: `TaskOutcome`
--   Dataflow/Checkpoint.antt, Atomicity
--     solution/dflow.py: `_write_checkpoint_payloads`
--   Dataflow/Kernel.antt, Publish, Join, Update, Launch
--     solution/dflow.py: the state of `DataFlowKernel` as the record Dfk, and its handlers as actions
--     on it, which give the state back beside an exception: `handle_exec_update`,
--     `handle_join_update`, `_launch_if_ready_async`, `launch_task`, `_complete_task`,
--     `_record_task_outcome`, `checkpoint`, `update_task_state` and `wipe_task`
--   Dataflow/Kernel/Keeps, Frame, Handlers, Events
--     what the handlers keep, from what their parts keep, and histories of calls of them
--   Dataflow/Kernel/Finalised, Boundary, Retries, Ledger, Success, Transaction,
--   Durability, Reuse
--     the state at a publication, retries, deferred checkpoints, the success transaction, and launches
--   Dataflow/Kernel/Unwrapped, Unwrapped/Inputs
--     the parameters that a task is launched with, once its dependencies are done
--   Dataflow/Kernel/Counts, Parts, Counted
--     the counters of the task states
--   Dataflow/Kernel/Local, Settled, Woken, Launched
--     what a handler leaves of the other tasks, and of its own: whether it is pending or queued
--   Dataflow/Kernel/Submit.antt, Submit/Accepted, Answered, Tallies
--     `submit`, with the callbacks on the dependencies, and the first steps of `cleanup`: the state
--     that only they use is the record Frontend around Dfk
--   Dataflow/Kernel/Submit/Steps, Fired, Awake, Handled, Served
--     histories of submissions, handlers, callbacks and cleanups, and the launches that they queue
--   Dataflow/Recovery.antt, Recovery/Discovery
--     the checkpoints that a new run starts from: environment/parsl/utils.py `get_all_checkpoints`, and
--     `DataFlowKernel.__init__`
--   Executors/Mpi.antt, Mpi/Nodes, Mpi/History
--     environment/parsl/executors/high_throughput/mpi_resource_management.py
--   Executors/Interchange.antt, Queue, Managers, Messages, Expiry, Dispatch
--     environment/parsl/executors/high_throughput/interchange.py, manager_record.py and
--     manager_selector.py: the state of `Interchange` as a record, the queue of pending tasks, the
--     dict of managers, the messages, the managers that leave, and the loop of `start`
--   Executors/Interchange/Tracked, Sound
--     the invariant of the interchange; it is proved in the children of the files above
--   Jobs/Strategy.antt, Strategy/Bounds   environment/parsl/jobs/strategy.py
--   Jobs/Failures.antt, Failures/Window   environment/parsl/jobs/error_handlers.py
--   Jobs/Blocks.antt, Blocks/Dicts, Linked, Polled, Killed, Scaled, History, Lives
--     environment/parsl/executors/status_handling.py: `BlockProviderExecutor`, the blocks that are
--     started, polled and scaled in, with the provider's answers as inputs
--   Jobs/Poller.antt
--     environment/parsl/jobs/job_status_poller.py: `JobStatusPoller.close` for one executor
--   Tests and its children        concrete inputs
--
-- How the parts interact: `submit` enters a task and queues its launch, then and when a dependency is
-- done; `_launch_if_ready_async` unwraps the dependencies of a task, asks the memoizer, and submits to
-- an executor; `handle_exec_update` is the callback of the executor's Future and retries, fails, joins
-- or completes the task; a completion makes a memo entry and an outcome, which `checkpoint`
-- appends to the file at once or when it is called, and only then publishes the entry and the task's
-- AppFuture.
--
-- Parameters: pickle, deepcopy and md5 are the record Runtime with the laws that the code relies on;
-- executors, the retry handler and the dependency resolver are fields of Config; what the file system
-- does with each append is a list of effects. `SortedList` of the package sortedcontainers is a record
-- with the law that it adds an entry where the list stays sorted.
--
-- In a history with submissions the callbacks of the Futures that a handler has made done are called
-- after it, and each queues a launch only. Locks are not modelled: each handler is one step, as the
-- launch, join, checkpoint and update locks make it for one task. The loading loop has fuel, for which
-- the length of the stream is enough; the allocation loop has fuel, for which one more than the bound
-- on the names is enough. The backlog of the MPI scheduler is a recursion on fuel, for which the header
-- of its theorems says when any is enough. A provider of blocks is its answers, as inputs of the calls.
--
-- Not modelled: `wait_for_current_tasks` of the kernel, what `cleanup` closes after its checkpoint,
-- monitoring, logging, data staging (no argument is a file), and the other parts of the executors,
-- providers and apps. The choice of an executor and the names of standard streams are parameters. The
-- deep resolver is left out: it unwraps sets and keys of dicts, which the values here lack.
pub mod Prelude
pub mod Dataflow
pub mod Executors
pub mod Jobs
pub mod Tests
