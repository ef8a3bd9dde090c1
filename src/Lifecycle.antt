-- ===== src/Lifecycle.antt =====
-- agent/cli/lifecycle.py: `AppLifecycle`, the request to exit and the shutdown. What the application
-- is like at a call, and how each task ends while it is waited for, are arguments. Tasks are named by
-- numbers; an awaiting method is one step.
pub mod Owners
pub mod Exit
use deep_agent_cli.Prelude.{
  ℕ, Bool, true, false, not, List, [], ◌∷◌, ◌++◌, ◌==◌, nat_comparable, if◌then◌else◌, keep,
  contains, add,
}

pub data ExitPhase : Type 0 where
  active exit_requested shutting_down stopped : ExitPhase

pub data TaskStop : Type 0 where
  cancel observe : TaskStop

pub data Stage : Type 0 where
  done timeout cancel_stage observe_stage : Stage

pub record TaskCleanupFailure : Type 0 where
  pub task : ℕ
  pub stage : Stage

-- The calls of the application and its runner.
pub data Call : Type 0 where
  cancel_notice stop_selection_scroll disable_mouse flush_output exit_application : Call
  notify_exit cancel_pending_connections request_cancel shutdown_executor : Call
  cancel_task : ℕ → Call

pub data TaskState : Type 0 where
  unfinished_task succeeded failed was_cancelled : TaskState

pub record AppLifecycle : Type 0 where
  pub phase : ExitPhase
  pub tracked : List (ℕ × TaskStop)
  pub owners_signalled : Bool
  pub captured_tasks : List ℕ
  pub failure_log : List TaskCleanupFailure
  pub unfinished : List ℕ
  pub failures : List TaskCleanupFailure
  pub calls : List Call

-- A status notice is shown, the runner has an MCP manager, a run is on, and which of the calls that
-- tell the owners raise an error. The calls on the screen and on the notice are taken to return.
pub record View : Type 0 where
  pub has_notice : Bool
  pub has_mcp : Bool
  pub running : Bool
  pub raises : Call → Bool

abbrev pub new_lifecycle : AppLifecycle
new_lifecycle = record {
  phase = active;
  tracked = [];
  owners_signalled = false;
  captured_tasks = [];
  failure_log = [];
  unfinished = [];
  failures = [];
  calls = [];
}

abbrev pub is_active : ExitPhase → Bool
is_active active = true
is_active _ = false

abbrev pub is_stopped : ExitPhase → Bool
is_stopped stopped = true
is_stopped _ = false

abbrev pub exiting : AppLifecycle → Bool
exiting l = not (is_active l.phase)

-- A stand-in for a helper that is refused, or the error for other work.
pub data Spawned : Type 0 where
  started stand_in refused : Spawned

abbrev refusal : TaskStop → Spawned
refusal cancel = stand_in
refusal observe = refused

unfoldable pub spawn : ℕ → TaskStop → AppLifecycle → Spawned × AppLifecycle
spawn task stop l =
    if is_active l.phase
    then (started, record l { tracked = l.tracked ++ (task, stop) ∷ [] })
    else (refusal stop, l)

-- A terminal error is recorded once; a cancellation is no failure.
unfoldable pub capture_done : ℕ → TaskState → AppLifecycle → AppLifecycle
capture_done task unfinished_task l = l
capture_done task failed l = if contains l.captured_tasks task then l else record l {
  captured_tasks = add task l.captured_tasks;
  failure_log = l.failure_log ++ record { task = task; stage = done } ∷ [];
}
capture_done task _ l = record l { captured_tasks = add task l.captured_tasks }

abbrev is_other : ℕ → ℕ × TaskStop → Bool
is_other task (t, stop) = not (t == task)

unfoldable pub forget : ℕ → TaskState → AppLifecycle → AppLifecycle
unfolding capture_done
forget task state l =
    let l' = capture_done task state l in record l' { tracked = keep (is_other task) l'.tracked }

abbrev pub when : Bool → Call → List Call
when true c = c ∷ []
when false c = []

-- Calls one after another, up to the first that raises: whether one did, and the calls made.
unfoldable pub tell : (Call → Bool) → List Call → Bool × List Call
tell raises [] = (false, [])
tell raises (c ∷ calls) =
    let rest = tell raises calls in if raises c then (true, c ∷ []) else (rest.0, c ∷ rest.1)

-- The flag is set after the last of the calls, so an error leaves it as it was.
abbrev pub signal_with : Bool × List Call → AppLifecycle → Bool × AppLifecycle
signal_with told l = (told.0, record l { owners_signalled = not told.0; calls = l.calls ++ told.1 })

-- The calls that tell the owners, in their order.
abbrev pub owner_calls : View → List Call
owner_calls view =
    notify_exit ∷ (when view.has_mcp cancel_pending_connections ++ when view.running request_cancel)

unfoldable pub signal_owners : View → AppLifecycle → Bool × AppLifecycle
unfolding tell
signal_owners view l =
    if l.owners_signalled then (false, l) else signal_with (tell view.raises (owner_calls view)) l

abbrev pub leaving : View → AppLifecycle → AppLifecycle
leaving view l = record l {
  phase = exit_requested;
  calls =
      l.calls
      ++ when view.has_notice cancel_notice
      ++ stop_selection_scroll ∷ disable_mouse ∷ flush_output ∷ [];
}

-- The application exits unless an owner raised, which is passed on.
abbrev pub exit_screen : Bool × AppLifecycle → Bool × AppLifecycle
exit_screen (true, l) = (true, l)
exit_screen (false, l) = (false, record l { calls = l.calls ++ exit_application ∷ [] })

unfoldable pub request_exit : View → AppLifecycle → Bool × AppLifecycle
request_exit view l =
    if is_active l.phase then exit_screen (signal_owners view (leaving view l)) else (false, l)

-- How one task of the snapshot ends in the drain: done when it is looked at, no time left, waited for
-- with success, too late, cancelled and done or not, or raised and done or not.
pub data Ending : Type 0 where
  already : TaskState → Ending
  no_time timed_out : Ending
  waited cancelled_while raised : TaskState → Ending

abbrev stage_of : TaskStop → Stage
stage_of cancel = cancel_stage
stage_of observe = observe_stage

abbrev is_done : TaskState → Bool
is_done unfinished_task = false
is_done _ = true

-- What the drain has found so far.
pub record Drained : Type 0 where
  pub left : List ℕ
  pub failed_tasks : List TaskCleanupFailure
  pub state : AppLifecycle

abbrev late : ℕ → Stage → Drained → Drained
late task stage d = record d {
  left = d.left ++ task ∷ [];
  failed_tasks = d.failed_tasks ++ record { task = task; stage = stage } ∷ [];
}

unfoldable pub drain_task : ℕ × TaskStop → Ending → Drained → Drained
drain_task (task, stop) (already t) d = record d { state = capture_done task t d.state }
drain_task (task, stop) no_time d = late task timeout d
drain_task (task, stop) timed_out d = late task timeout d
drain_task (task, stop) (waited t) d = record d { state = capture_done task t d.state }
drain_task (task, stop) (cancelled_while t) d = if is_done t then d else late task (stage_of stop) d
drain_task (task, stop) (raised t) d =
    let d' = record d { state = capture_done task t d.state } in
    if is_done t then d' else record d' { left = d'.left ++ task ∷ [] }

unfoldable pub drain_each : List (ℕ × TaskStop) → (ℕ → Ending) → Drained → Drained
drain_each [] ending d = d
drain_each (t ∷ tasks) ending d = drain_each tasks ending (drain_task t (ending t.0) d)

abbrev pub helper_cancels : (ℕ → Bool) → List (ℕ × TaskStop) → List Call
helper_cancels is_over [] = []
helper_cancels is_over ((t, cancel) ∷ tasks) =
    let rest = helper_cancels is_over tasks in if is_over t then rest else cancel_task t ∷ rest
helper_cancels is_over ((t, observe) ∷ tasks) = helper_cancels is_over tasks

-- `is_over` says which tasks are done when the drain begins.
unfoldable pub drain_tasks : (ℕ → Bool) → (ℕ → Ending) → AppLifecycle → Drained
drain_tasks is_over ending l = drain_each l.tracked ending (record {
  left = [];
  failed_tasks = [];
  state = record l { calls = l.calls ++ helper_cancels is_over l.tracked };
})

abbrev pub closing : View → AppLifecycle → Bool × AppLifecycle
closing view l = if is_active l.phase then signal_owners view l else (false, l)

abbrev pub stop_with : Drained → AppLifecycle
stop_with d = record d.state {
  unfinished = d.left;
  failures = d.state.failure_log ++ d.failed_tasks;
  calls = d.state.calls ++ shutdown_executor ∷ [];
  phase = stopped;
}

-- An owner that raises ends the shutdown at once, with the executor closed.
abbrev pub drain_and_stop : (ℕ → Bool) → (ℕ → Ending) → Bool × AppLifecycle → Bool × AppLifecycle
drain_and_stop is_over ending (true, l) =
    (true, record l { calls = l.calls ++ shutdown_executor ∷ []; phase = stopped })
drain_and_stop is_over ending (false, l) =
    (false, stop_with (drain_tasks is_over ending (record l { phase = shutting_down })))

-- The shutdown that is not itself cancelled.
unfoldable pub shutdown : View → (ℕ → Bool) → (ℕ → Ending) → AppLifecycle → Bool × AppLifecycle
shutdown view is_over ending l =
    if is_stopped l.phase then (false, l) else drain_and_stop is_over ending (closing view l)
