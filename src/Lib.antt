-- ===== src/Lib.antt =====
-- A model of SPANE, a workflow engine on BullMQ, with the theorems that make its parts correct.
--
-- A workflow is a graph of nodes. The engine stores an execution for each run of a workflow and adds a job
-- to a queue for each node that may run. A job is processed by the handler of its node's type, which
-- stores the node's result, adds the jobs of the children whose parents are all resolved, and completes
-- the execution when every node has a result. Workflows are checked before they are registered.
--
-- Files and the code they model:
--   Types/*                the data of src/types.ts; Json is the values that the source types any
--   Graph/*                src/engine/graph-validation.ts: Cycle (detectCycle), Reachable
--                          (findUnreachableNodes), References (findMissingReferences,
--                          findDuplicateNodeIds), Validate (validateEntryNode, validateWorkflow)
--   Memory/*               src/db/inmemory-store.ts: State, Cleanup (cleanup), Executions, Observability;
--                          Bounds lists the method calls
--   NodeUtils/*            src/engine/node-utils.ts: Duration, Retry, JobId, Mapping, Aggregate
--   Events                 src/engine/event-types.ts and src/engine/event-emitter.ts
--   Errors                 src/engine/errors.ts
--   Engine/World           what a handler reads and writes: the store, and the calls of BullMQ, Redis and
--                          the emitter, recorded in their order
--   Engine/Children        checkAndEnqueueChildren, skipNode and enqueueNode of
--                          src/engine/handlers/child-enqueue-handler.ts; Children/Expected describes the
--                          jobs and results of the handlers on its own, for the statements
--   Engine/Completion      checkWorkflowCompletion and handleWorkflowError of the same file
--   Engine/Registry        src/engine/registry.ts
--   Engine/Inputs          buildNodeInputData of src/engine/handlers/execution-handler.ts
--   Engine/Execution       executeRegularNode and handleExecutionError of the same file
--   Engine/Delay           src/engine/handlers/delay-handler.ts
--   Engine/Aggregator      processAggregatorNode of src/engine/handlers/subworkflow-handler.ts
--   Engine/Flow            executeSubWorkflowWithFlow and buildFlowTreeFromEntryNodes of the same file
--   Engine/Processor       src/engine/node-processor.ts: processNodeJob and routeNodeExecution
--   Engine/Failures        the listeners of src/engine/worker-manager.ts and src/engine/queue-manager.ts,
--                          and src/engine/dlq-manager.ts
--   Events/Guards          the type guards of src/engine/event-types.ts and the constructors of events
--   Control/Queue          the interface of BullMQ's node queue, with its laws
--   Control/Services       the interfaces of the cache of workflows and of the stored workflows
--   Control/Halting        cancelWorkflow, pauseWorkflow and resumeWorkflow of
--                          src/engine/workflow-engine.ts
--   Control/Enqueue        enqueueWorkflow and enqueueNode of the same file
--   Control/Schedules      registerWorkflow and the job schedulers of the same file
--   Control/Triggers       the callers of enqueueWorkflow: webhooks, replays, bulk requests, schedules
--   Control/Config         the statistics of the same file, src/engine/config.ts and the options of the
--                          workers
--   Lock                   src/utils/distributed-lock.ts; Lock/Commands is the interface of Redis, and
--                          Lock/Scripts says what the Lua scripts of release and extend do
--   Metrics                src/utils/metrics.ts: the collector; Percentile and Report its output,
--                          and Double the arithmetic of doubles that the percentiles use
--   Base/*                 shared tests, lists, sets of strings, integers and association lists
--   Samples/*              the theorems at concrete workflows, stores and jobs
--
-- Names are those of the source in snake case: detectCycle is detect_cycle. A handler is a function from
-- a world to a world; an asynchronous function is read as a run without interleaving, and the clock is
-- part of the world and stands still during one call. A Map and an object used as one are association lists
-- with unique keys, a Set is a list without repetitions in the order of insertion, a number is a native
-- natural number or an integer over those, and an error that is thrown is its message.
--
-- Fuel: has_cycle_from_node takes one step more than the workflow has nodes, since every nested call but
-- the last adds a node of the workflow to the visited set. find_unreachable_nodes takes one step for the
-- entry node and one for each output of a node, since each is queued at most once.
-- check_and_enqueue_children takes 2, since a skipped node selects no branch and so skips nothing.
-- build_node_flow takes more fuel than the highest level of a node, where the inputs of a node have lower
-- levels than the node; on a cycle of inputs the source's recursion has no end.
-- The exponent of a percentile's hundredth is at most 59 and is sought from 52 in 7 steps, and the product
-- with a count below 2 ^ 32 is too long by at most 32 bits, which are sought in 33 steps.
--
-- Parameters: the lookup of workflows, the answer of the distributed lock, the values of a job's children
-- and the answer of the flow producer, the executors, which are code of the application, the ids that a
-- call draws, and the printing of numbers. The node queue and the job schedulers of BullMQ, the cache of
-- lru-cache and the commands of Redis are records of operations and laws, which Samples/* fills with
-- concrete ones. The calls of BullMQ, Redis and the store do not fail in the model, save where a
-- parameter says that they do; no key of Redis expires between two calls.
--
-- Not modelled: pauseBulkWorkflows, resumeBulkWorkflows and cancelBulkWorkflows, whose calls interleave;
-- the expiry of locks and the scheduling of their timers; mergeParentInputs and validateInputData of
-- src/engine/node-utils.ts, which compare object identities; src/db/drizzle-store.ts and
-- src/engine/validation.ts, which are calls of libraries; logging, shutdown and the construction of
-- queues and workers; the timer that calls cleanup.
mod Base
pub mod Types
pub mod Graph
pub mod Memory
pub mod NodeUtils
pub mod Events
pub mod Metrics
pub mod Errors
pub mod Engine
pub mod Control
pub mod Lock
mod Samples
