-- ===== src/Lib.antt =====
-- A model of an agent's run control and of the conversation that its terminal shows.
--
-- A run of the agent is driven by a graph. `RunController` stands between the terminal and the run:
-- it keeps the queues of messages that arrive while the agent works, the generations of runs, their
-- cancel events, model streams and tools. A tool is cancelled through its `ToolCancelContext`. Keys
-- are turned into actions by the input router, which may cancel the run. What the run does comes
-- back as run events, which `CliState.apply` turns into blocks of the transcript. A session is kept
-- in a database, from which its transcript is rebuilt, and a lease says who may write its thread. The
-- runner drives the graph, takes queued messages between its turns, and puts a changed configuration
-- in force there; the model's chunks come to it through a bridge that any thread may cancel.
--
-- Files and code:
--   Control      agent/control.py: RunController. State has the state; Runs, Streams, Tools and
--                Messages have the methods, with their names (`steer` and `follow_up` are
--                steer_message and follow_up_message). Every locked section is one step; Steps has
--                the steps and what is reached by them.
--   Cancel       agent/cancel.py: ToolCancelContext
--   Router       agent/cli/input_actions.py: InputActionRouter, and the Ctrl+C handler of
--                agent/cli/app.py
--   Permission   agent/permission.py
--   Value        the values that the program has at the type `Any`
--   Python       functions of Python on texts, which are parameters
--   RunEvents    agent/run_events.py: events and results; Interrupts has classify_interrupt and
--                what it calls, Decisions has _tool_decisions
--   Session      agent/session.py: Status, Transcript (messages_to_transcript), Restored
--                (settle_restored_tools), Catalogue (SessionStore on its tables), Lookup
--   SessionLock  agent/session_lock.py: the in-process manager; Owners has what it promises, the
--                owner of each thread, for whole calls; Threads has the parts of the calls of several
--                threads as steps
--   Runner       agent/runner.py: Config and Pending have the configuration that waits for a safe
--                point, Loop has _stream, _stream_once and the ends of a run, Resume has decide_tools
--   Sandbox      agent/sandbox.py: _OutputCollector, over a codec and the answers of the file system
--   Bridge       agent/llm_stream.py: CancellableStreamBridge, and its threads' steps
--   SessionRuntime  agent/session_runtime.py: Leases, and Restore (restore_plan), with get_profile of
--                agent/config.py
--   Subagents    agent/subagents/manager.py, a client of Control
--   Lifecycle    agent/cli/lifecycle.py: the request to exit and the shutdown; Owners counts the calls
--                to the owners of live work, Exit has the steps
--   CliState     agent/cli/state.py: Blocks, Cards, Streaming, Settling and Apply have the state and
--                `apply`, Restore has load_transcript
--   Examples     runs at concrete data
--
-- Shared objects with identity (run scopes, tool contexts, message blocks, leases) stand in a store
-- and are named by numbers. What a method does to its surroundings is a list of effects. Where code
-- in other hands answers (whether a stream has closed, whether a signal fails, the clock, fresh
-- identifiers, the order of stamps, SQLite's LIKE, JSON), the answer is an argument. SQLite raises no error. No definition runs on
-- fuel: loops are over lists. Numbers are natural numbers without a bound, as Python's are; times are
-- stamps.
--
-- The runner's loop is over a list of turns: what one call of the graph does, and what other threads do
-- meanwhile, is an argument, and a run whose list is used up goes on. The saving of a turn's times
-- and the arming of a recovery text are left out of it.
--
-- Not modelled: the graph itself, model clients, and the mounts and processes of the sandbox, which are
-- calls of third-party code or of the operating system; the runner's session switches, compaction and
-- attachments; the rendering of the terminal; the flock manager; opening the database.
mod Prelude
pub mod Bridge
pub mod Cancel
pub mod Control
pub mod Router
pub mod Permission
pub mod Value
pub mod RunEvents
pub mod Python
pub mod Sandbox
pub mod Session
pub mod SessionLock
pub mod SessionRuntime
pub mod Runner
pub mod Subagents
pub mod Lifecycle
pub mod CliState
pub mod Examples
