-- ===== src/Lib.antt =====
-- MundusX: the agent, harness and orchestration cores of the node agent, the local agent, the
-- coordinator of coding workers and the test lanes, and the node's slots, capacity, models, roles
-- and job streams.
--
-- Parts, and the files that model them:
--   Harness/Loop: the bounded model and tool loop of the Coding Harness,
--     agents/node/src/harness_loop.rs. `iteration` is one round of the `loop`, made of one function
--     for each part of it, and `run_loop` is the loop on fuel. Harness/Loop/Progress follows its rounds
--     with the results that they accept. The model, the tools, the observer,
--     the closure `cancelled` and the clock are the record `Harness` over a world. Left out:
--     `digest_progress`, which calls serde_json and sha2 only.
--   Harness/Paths: the checks on the attempts, revisions, limits and paths of a workspace,
--     agents/node/src/harness.rs. A path is the list of its components on Unix, and the file system
--     is a parameter that does not change during a check. The workspaces' Git work is left out.
--   Harness/Edits: the replacement of a file under an idempotency key (`apply_replacement`),
--     agents/node/src/harness_tools.rs, in the monad of Agent/Effect. The file system, the digest
--     and the ids are the record `Host`; the mutex of the runner's record is never poisoned.
--   Agent/Context: `compact_transcript` of packages/agent-core/src/context.rs.
--   Agent/Event: the sessions and events of packages/agent-core/src/event.rs; the host draws their
--     ids and reads their times.
--   Agent/Tool, Agent/Tool/Laws: the registry of tools, their definitions and execution, and the
--     static approvals, packages/agent-core/src/tool.rs. `ToolContext`, which resolves paths in the
--     file system, is a parameter.
--   Agent/Runner: `AgentRunner` and `conversation_transcript` of
--     packages/agent-core/src/runtime.rs, with every event it appends to the store. The model,
--     the approvals, the event store, the observer, cancellation, the clock and the ids are the
--     record `Host` over a world, and serde_json's parser is a parameter. Agent/Runner/Protocol is
--     the specification: the phases of a run and the events that each phase allows; Conformance
--     and Turns show that the code keeps to it. Left out: `with_generation`, which clamps a float.
--   Agent/Effect: the monad of these calls, an error or a value and the world after it.
--   Orchestration: the task orchestrator, packages/agent-orchestration/src/lib.rs. The executor is
--     a function from a task and its inputs to a result, or to `none` where the worker panics and
--     sends nothing. `arrive` is the order in which the channel delivers the messages of a round.
--     Orchestration/Outcomes is the specification, without maps, rounds and channels.
--   Swarm/Requests, Swarm/Paths, Swarm/Plan: which prompts Project Swarm coordinates, its plan,
--     `validate_plan` and its checks on commands, ids and owned paths,
--     apps/cli/src/project_swarm.rs. The waves of workers and the Git work of the coordinator are
--     not modelled.
--   Auth: the control-plane credential, packages/control-plane-auth/src/lib.rs. The url crate, the
--     JSON library, the data protection, the file system and the HTTP request are parameters; what
--     is relied on of them is the record `Documented`. The file is written as on Unix.
--   Routing: the choice of a node for a job, apps/cli/src/routing.rs. Doubles are the parameter
--     `Floats`; of a request the fields are modelled that the choice reads.
--   TestSwarm: the test lanes of the command line program, apps/cli/src/swarm.rs: tasks, names and the
--     manifest; TestSwarm/Plans is `run_tests` up to its lanes, TestSwarm/Lanes its threads, whose
--     accesses to the shared queue, flag and results a schedule interleaves, and TestSwarm/Run the
--     joins and the verdict. What a command does is a parameter of each move; a command that makes its
--     thread panic is one of the cases.
--   Node/Slots: the pool of job slots, agents/node/src/local_api.rs. `move` is one atomic access of
--     one thread, and a schedule interleaves the threads.
--   Node/Capacity: the memory, the slots and the capacity class that a node contributes,
--     agents/node/src/main.rs and agents/node/src/worker.rs.
--   Node/Models: what a node says of a model (`enrich_model_capability`), agents/node/src/main.rs
--     with the types of agents/node/src/contracts.rs.
--   Node/Roles: the roles that a node offers (`node_roles_for`), agents/node/src/main.rs.
--   Node/Readiness: whether a node takes jobs, and its reason if not, agents/node/src/main.rs.
--   Node/NativeStream: the deltas of a message with tool calls, agents/node/src/native_stream.rs. A JSON
--     value is what the code reads of it; a push returns its result and the stream as it leaves it.
--   Node/Relay: the relay of a job's output to the control plane (`relay_job_deltas`),
--     agents/node/src/main.rs. The request, the sleep and the JSON parser are parameters over a
--     world, and the deltas arrive by a schedule. Node/Relay/Delivery says what is relied on of the
--     control plane (`Counts`).
--   Prelude: the string, number, list, map and result functions of Rust's standard library that
--     the sources call, with their laws.
--
-- The local agent runs `AgentRunner` on a session; the Coding Harness of a node runs its own loop on a
-- job; the orchestrator runs whatever executor it is given, an agent for each task.
--
-- Conventions: a text is a native `String`, whose `len` counts the bytes of its UTF-8 as Rust's
-- does. Numbers are natural numbers; where the code adds to a `u32` or `u64` the sum wraps, as in a
-- release build, and an invariant or a hypothesis shows where it cannot. A `BTreeMap` is an association
-- list in the order of its keys; a `BTreeSet` of which only the size and the members are used is a list
-- without repetitions.
--
-- Fuel: a loop is bounded by the number that its own guard bounds, and a theorem shows that the
-- fuel suffices: the turns of the harness loop and of the agent, the number of pending tasks of the
-- orchestrator, the number of tasks of a plan, the number of deltas of a job.
--
-- Not modelled: storage, network, processes, the file system, user interfaces and packaging.
pub mod Prelude
pub mod Harness
pub mod Agent
pub mod Orchestration
pub mod Swarm
pub mod Routing
pub mod Auth
pub mod Node
pub mod TestSwarm
