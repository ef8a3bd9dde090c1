-- ===== src/Runner/Loop.antt =====
-- agent/runner.py: `_stream`, which runs the graph until nothing is queued. What the graph does in one
-- call of `graph.stream` is a turn: what other threads and the nodes do to the controller meanwhile,
-- how the call ends, and what other threads do after it between the look at the cancel event and the
-- look into the steering queue (`after_check`), and between the looks into the two queues
-- (`between_pops`). A list of turns is what happens from now on.
use deep_agent_cli.Prelude.{
  ℕ, String, Bool, true, false, not, ◌&&◌, ◌||◌, Option, none, some, List, [], ◌∷◌, ◌++◌, map, ◌==◌,
  nat_comparable, text_comparable, if◌then◌else◌,
}
use Prim.Native.String.{◌++◌ as ◌<>◌}
use deep_agent_cli.RunEvents.Decisions.{
  completed_result, failed_result, cancelled_result, interaction_result,
}
use deep_agent_cli.RunEvents.Interrupts.{
  InterruptKind, InterruptState, paused, waiting_human, waiting_confirmation,
  runtime_config_boundary,
}
use deep_agent_cli.Session.Status.{StopReason, aborted, error, deferred, stop}
use deep_agent_cli.Session.Catalogue.{touch}
use deep_agent_cli.Control.State.{cancel_requested, set_defer_steering, Controller}
use deep_agent_cli.Runner.Config.{with_store, Config, ConfigEvent}
use deep_agent_cli.RunEvents.{RunResult}
use deep_agent_cli.Control.Messages.{pop_follow_up, pop_steering}
use deep_agent_cli.Control.Runs.{end_run, begin_run}
use deep_agent_cli.Runner.Pending.{apply_pending_runtime_config}
use deep_agent_cli.Python.{Python}
use deep_agent_cli.Value.{end, Fields}
use deep_agent_cli.Control.Streams.{wait_model_streams_closed}

pub data GraphInput : Type 0 where
  first_input resume : GraphInput
  queued_text : String → GraphInput

-- The end of the graph, a boundary for the configuration, an interrupt, a drain with the answer that
-- was committed before it, an error in the stream (by its kind and text), and one outside of it.
pub data Ending : Type 0 where
  finished : String → Ending
  at_boundary : Ending
  interrupted : InterruptState → Ending
  drained : Option String → Ending
  raised : Bool → String → Ending
  broken : Ending

pub record Turn : Type 0 where
  pub meanwhile : Controller → Controller
  pub after_check : Controller → Controller
  pub between_pops : Controller → Controller
  pub uses_recovery : Bool
  pub ending : Ending
  pub now : String
  pub mcp_dirty : Bool
  pub rebuild_fails : Bool
  pub sandbox_fails : Bool

pub data RunnerEvent : Type 0 where
  run_started : RunnerEvent
  config : ConfigEvent → RunnerEvent
  turn_completed run_completed run_failed : String → RunnerEvent
  run_cancelled : String → RunnerEvent
  interaction_requested : RunResult → RunnerEvent

-- `resume_context` is the stop reason that a recovery text describes, and whether it was used.
pub record Runner : Type 0 where
  pub control : Controller
  pub config : Config
  pub busy : Bool
  pub resume_context : Option (StopReason × Bool)
  pub inputs : List GraphInput
  pub events : List RunnerEvent

abbrev pub with_control : (Controller → Controller) → Runner → Runner
with_control f r = record r { control = f r.control }

abbrev pub announce : List RunnerEvent → Runner → Runner
announce events r = record r { events = r.events ++ events }

abbrev pub needs_recovery : StopReason → Bool
needs_recovery aborted = true
needs_recovery error = true
needs_recovery _ = false

-- `_touch_status`
unfoldable pub touch_status : String → StopReason → Runner → Runner
touch_status now reason r = record r {
  config =
      with_store
        (touch now r.config.thread_id (record {
          title = none;
          model_id = none;
          permission_mode = none;
          last_run_status = some reason;
          reasoning_effort = none;
        }))
        r.config;
  resume_context = if needs_recovery reason then some (reason, false) else r.resume_context;
}

abbrev pub kind_text : InterruptKind → String
kind_text paused = "paused"
kind_text waiting_human = "waiting_human"
kind_text waiting_confirmation = "waiting_confirmation"
kind_text runtime_config_boundary = "runtime_config_boundary"

abbrev pub human_payload : InterruptState → Fields
human_payload s = elim s.kind [ waiting_human ↦ s.payload | _ ↦ end ]

-- The result of one call, a boundary, or an exception that leaves `_stream`.
pub data Streamed : Type 0 where
  boundary : Streamed
  ended : RunResult → Streamed
  escaped : Streamed

abbrev ended_with : RunResult × Runner → Streamed × Runner
ended_with (result, r) = (ended result, r)

unfoldable pub failed_run : String → String → Runner → RunResult × Runner
unfolding touch_status failed_result
failed_run now text r =
    (failed_result text, touch_status now error (announce (run_failed text ∷ []) r))

unfoldable pub interrupted_run : String → InterruptState → Runner → RunResult × Runner
unfolding touch_status set_defer_steering interaction_result
interrupted_run now s r =
    let result = interaction_result (kind_text s.kind) s.pending_tools (human_payload s) in
    (
      result,
      announce (interaction_requested result ∷ [])
          (touch_status now deferred (with_control (set_defer_steering true) r)),
    )

abbrev pub failure_text : Bool → String → String
failure_text is_stream_cancel text =
    if is_stream_cancel then "Model stream stopped unexpectedly: " <> text else text

abbrev pub mark_used : Bool → Option (StopReason × Bool) → Option (StopReason × Bool)
mark_used used none = none
mark_used used (some (reason, was_used)) = some (reason, was_used || used)

-- The call of `graph.stream` itself.
abbrev pub call_graph : Turn → GraphInput → Runner → Runner
call_graph t input r = record r {
  control = t.meanwhile r.control;
  inputs = r.inputs ++ input ∷ [];
  resume_context = mark_used t.uses_recovery r.resume_context;
}

abbrev pub or_follow_up :
    (Controller → Controller) → Option String × Controller → Option String × Controller
or_follow_up between (some text, c) = (some text, c)
or_follow_up between (none, c) = pop_follow_up (between c)

-- The oldest message that may be applied now. Each queue is looked into under its own lock, and
-- `between` is what other threads do between the two.
unfoldable pub next_text : (Controller → Controller) → Controller → Option String × Controller
unfolding pop_steering pop_follow_up
next_text between c = or_follow_up between (pop_steering c)

pub data Next : Type 0 where
  stopped : Option RunResult → Runner → Next
  again : GraphInput → Runner → Next

abbrev pub is_completed : RunResult → Bool
is_completed result = result.status == "completed"

-- Every call but the first comes after the configuration that waits is applied.
unfoldable pub before_turn : Python → Turn → GraphInput → Runner → Runner
unfolding apply_pending_runtime_config
before_turn py t first_input r = r
before_turn py t _ r =
    let (config', events) =
      apply_pending_runtime_config t.now t.mcp_dirty t.rebuild_fails t.sandbox_fails py r.config in
    announce (map RunnerEvent.config events) (record r { config = config' })

abbrev pub complete : String → Option RunResult → Runner → Runner
complete now none r = r
complete now (some result) r =
    if is_completed result
    then touch_status now stop
        (announce (run_completed result.output ∷ turn_completed result.output ∷ []) r)
    else r

abbrev pub was_completed : Option RunResult → Bool
was_completed none = false
was_completed (some result) = is_completed result

abbrev pub was_used : Option (StopReason × Bool) → Bool
was_used none = false
was_used (some (reason, used)) = used

abbrev pub go_on :
    (GraphInput → Runner → Option (Option RunResult × Runner))
    → Next
    → Option (Option RunResult × Runner)
go_on run (stopped result r) = some (result, r)
go_on run (again input r) = run input r

module _ (closed child_closed stream_closed : ℕ → Bool) where
  -- `_cancelled_result`
  unfoldable pub cancelled_run : String → Runner → RunResult × Runner
  unfolding touch_status cancelled_result
  cancelled_run now r =
      let (is_closed, control) =
        wait_model_streams_closed closed child_closed stream_closed r.control in
      let (text, result) =
        cancelled_result is_closed "Cancelled, but the model request did not confirm it stopped" in
      (
        result,
        announce (run_cancelled text ∷ [])
            (touch_status now aborted (record r { control = control })),
      )

  unfoldable pub end_stream : String → Ending → Runner → Streamed × Runner
  unfolding cancelled_run failed_run interrupted_run cancel_requested completed_result
  end_stream now (finished output) r = (ended (completed_result output), r)
  end_stream now at_boundary r = (boundary, r)
  end_stream now (interrupted s) r = ended_with (interrupted_run now s r)
  end_stream now (drained (some output)) r = (ended (completed_result output), r)
  end_stream now (drained none) r = ended_with (cancelled_run now r)
  end_stream now (raised is_stream_cancel text) r = ended_with (
      if cancel_requested r.control
      then cancelled_run now r
      else failed_run now (failure_text is_stream_cancel text) r)
  end_stream now broken r = (escaped, r)

  unfoldable pub stream_once : Turn → GraphInput → Runner → Streamed × Runner
  unfolding end_stream
  stream_once t input r = end_stream t.now t.ending (call_graph t input r)

  -- The next turn of the same `_stream` call is a new generation of the controller.
  abbrev pub start_turn : String → RunResult → Controller → Runner → Runner
  start_turn text result c r =
      announce (turn_completed result.output ∷ []) (record r { control = (begin_run closed c).1 })

  abbrev pub take_queued : RunResult → Option String × Controller → Runner → Next
  take_queued result (none, c) r = stopped (some result) (record r { control = c })
  take_queued result (some text, c) r = again (queued_text text) (start_turn text result c r)

  unfoldable pub after_turn : Turn → Streamed × Runner → Next
  unfolding next_text begin_run cancel_requested
  after_turn t (boundary, r) = again resume r
  after_turn t (escaped, r) = stopped none r
  after_turn t (ended result, r) =
      if is_completed result && not (cancel_requested r.control)
      then take_queued result (next_text t.between_pops (t.after_check r.control)) r
      else stopped (some result) r

  -- The loops of `_stream` and `_resume_config_boundaries`. It is none while the run goes on.
  unfoldable pub run_turns :
      Python → List Turn → GraphInput → Runner → Option (Option RunResult × Runner)
  unfolding after_turn stream_once before_turn
  run_turns py [] input r = none
  run_turns py (t ∷ turns) input r =
      go_on (run_turns py turns) (after_turn t (stream_once t input (before_turn py t input r)))

  -- The `finally` of `_stream`.
  unfoldable pub finish_stream : Option RunResult → Runner → Runner
  unfolding end_run
  finish_stream result r = record r {
    busy = false;
    control = end_run closed r.control;
    resume_context =
        if was_completed result || was_used r.resume_context then none else r.resume_context;
  }

  abbrev pub finish_run :
      String → Option (Option RunResult × Runner) → Option (Option RunResult × Runner)
  finish_run now none = none
  finish_run now (some (result, r)) = some (result, finish_stream result (complete now result r))

  -- `now` is the clock when the run has completed.
  unfoldable pub stream : Python → String → List Turn → Runner → Option (Option RunResult × Runner)
  unfolding run_turns begin_run finish_stream touch_status
  stream py now turns r = finish_run now (
      run_turns py turns first_input (
        announce (run_started ∷ [])
          (record r { control = (begin_run closed r.control).1; busy = true })))
