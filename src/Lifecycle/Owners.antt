-- ===== src/Lifecycle/Owners.antt =====
-- How often the owners of live work are called by a request to exit and by a shutdown.
use deep_agent_cli.Lifecycle.{
  ExitPhase, leaving, closing, when, tell, exit_screen, drain_and_stop, signal_with, owner_calls,
  is_stopped, shutting_down,
}
use deep_agent_cli.Prelude.{
  ℕ, ◌+◌, ◌≡◌, refl, ap, ◌∙◌, Bool, true, false, List, [], ◌∷◌, ◌++◌, arith, nat_comparable,
  text_comparable, if◌then◌else◌,
}
use deep_agent_cli.Lifecycle.{
  Drained, Ending, is_active, TaskState, View, signal_owners, drain_tasks, TaskStop, drain_task,
  capture_done, AppLifecycle, Call, cancel, observe, notify_exit, cancel_notice,
  stop_selection_scroll, disable_mouse, flush_output, exit_application, cancel_pending_connections,
  request_cancel, shutdown_executor, unfinished_task, failed, succeeded, was_cancelled, already,
  no_time, timed_out, waited, cancelled_while, raised, request_exit, shutdown, drain_each,
  helper_cancels,
}

-- The session waits, the MCP connections and the run.
pub data Owner : Type 0 where
  sessions connections run : Owner

-- The call that tells an owner.
abbrev pub is_for : Call → Owner → Bool
is_for notify_exit sessions = true
is_for cancel_pending_connections connections = true
is_for request_cancel run = true
is_for _ _ = false

abbrev pub times : Owner → List Call → ℕ
times o [] = 0
times o (c ∷ calls) = (if is_for c o then 1 else 0) + times o calls

-- An owner that is there is told once.
abbrev pub expected : View → Owner → ℕ
expected view sessions = 1
expected view connections = if view.has_mcp then 1 else 0
expected view run = if view.running then 1 else 0

pub times-append : (o : Owner) (xs ys : List Call) → times o (xs ++ ys) ≡ times o xs + times o ys
times-append o [] ys = omega arith
times-append o (c ∷ xs) ys = omega (arith, times-append o xs ys)

abbrev Same : AppLifecycle → AppLifecycle → Type 0
Same l l' = (l'.phase ≡ l.phase) × (l'.owners_signalled ≡ l.owners_signalled) × (l'.calls ≡ l.calls)

pub capture_done-Same :
    (task : ℕ) (t : TaskState) (l : AppLifecycle) → Same l (capture_done task t l)
unfolding capture_done
capture_done-Same task unfinished_task l = (refl, refl, refl)
capture_done-Same task failed l = (ground arith, ground arith, ground arith)
capture_done-Same task succeeded l = (refl, refl, refl)
capture_done-Same task was_cancelled l = (refl, refl, refl)

drain_task-Same :
    (t : ℕ × TaskStop) (e : Ending) (d : Drained) → Same d.state (drain_task t e d).state
unfolding drain_task
drain_task-Same (task, stop) (already t) d = capture_done-Same task t d.state
drain_task-Same (task, stop) no_time d = (refl, refl, refl)
drain_task-Same (task, stop) timed_out d = (refl, refl, refl)
drain_task-Same (task, stop) (waited t) d = capture_done-Same task t d.state
drain_task-Same (task, stop) (cancelled_while t) d = (ground arith, ground arith, ground arith)
drain_task-Same (task, stop) (raised t) d =
    let same = capture_done-Same task t d.state in
    (ground (arith, same.0), ground (arith, same.1), ground (arith, same.2))

drain_each-Same :
    (tasks : List (ℕ × TaskStop)) (ending : ℕ → Ending) (d : Drained)
    → Same d.state (drain_each tasks ending d).state
unfolding drain_each
drain_each-Same [] ending d = (refl, refl, refl)
drain_each-Same (t ∷ tasks) ending d =
    let first = drain_task-Same t (ending t.0) d in
    let rest = drain_each-Same tasks ending (drain_task t (ending t.0) d) in
    (rest.0 ∙ first.0, rest.1 ∙ first.1, rest.2 ∙ first.2)

times-helper_cancels :
    (o : Owner) (is_over : ℕ → Bool) (tasks : List (ℕ × TaskStop))
    → times o (helper_cancels is_over tasks) ≡ 0
times-helper_cancels o is_over [] = refl
times-helper_cancels o is_over ((t, cancel) ∷ tasks) =
    ground (arith, times-helper_cancels o is_over tasks)
times-helper_cancels o is_over ((t, observe) ∷ tasks) = times-helper_cancels o is_over tasks

pub drain_tasks-times :
    (o : Owner) (is_over : ℕ → Bool) (ending : ℕ → Ending) (l : AppLifecycle)
    → times o (drain_tasks is_over ending l).state.calls ≡ times o l.calls
unfolding drain_tasks
drain_tasks-times o is_over ending l =
    let same = drain_each-Same l.tracked ending (record {
      left = [];
      failed_tasks = [];
      state = record l { calls = l.calls ++ helper_cancels is_over l.tracked };
    }) in
    ap (times o) same.2
    ∙ omega (
      arith,
      times-append o l.calls (helper_cancels is_over l.tracked),
      times-helper_cancels o is_over l.tracked,
    )

-- Calls of which none raises are all made.
tell-all :
    (raises : Call → Bool)
    → ((c : Call) → raises c ≡ false)
    → (calls : List Call) → tell raises calls ≡ (false, calls)
unfolding tell
tell-all raises returns [] = refl
tell-all raises returns (c ∷ calls) = ground (arith, returns c, tell-all raises returns calls)

when-times :
    (o : Owner) (b : Bool) (c : Call)
    → times o (when b c) ≡ (if b then (if is_for c o then 1 else 0) else 0)
when-times o true c = omega arith
when-times o false c = refl

owner_calls-times : (view : View) (o : Owner) → times o (owner_calls view) ≡ expected view o
owner_calls-times view o =
    ap (λ n. (if is_for notify_exit o then 1 else 0) + n)
      (times-append o (when view.has_mcp cancel_pending_connections)
        (when view.running request_cancel))
    ∙ pick o
  where
    pick :
        (o : Owner)
        → (if is_for notify_exit o then 1 else 0)
            + (times o (when view.has_mcp cancel_pending_connections)
                + times o (when view.running request_cancel))
          ≡ expected view o
    pick sessions = ground (
      arith,
      when-times sessions view.has_mcp cancel_pending_connections,
      when-times sessions view.running request_cancel,
    )
    pick connections = ground (
      arith,
      when-times connections view.has_mcp cancel_pending_connections,
      when-times connections view.running request_cancel,
    )
    pick run = ground (
      arith,
      when-times run view.has_mcp cancel_pending_connections,
      when-times run view.running request_cancel,
    )

-- All owners that are there have been called.
abbrev told : View → AppLifecycle → AppLifecycle
told view l = record l { owners_signalled = true; calls = l.calls ++ owner_calls view }

told-times :
    (view : View) (l : AppLifecycle) (o : Owner)
    → times o (told view l).calls ≡ times o l.calls + expected view o
told-times view l o =
    omega (arith, times-append o l.calls (owner_calls view), owner_calls-times view o)

signal_owners-told :
    (view : View) (l : AppLifecycle)
    → ((c : Call) → view.raises c ≡ false)
    → l.owners_signalled ≡ false
    → signal_owners view l ≡ (false, told view l)
unfolding signal_owners
signal_owners-told view l returns fresh =
    ap (λ b. if b then (false, l) else signal_with (tell view.raises (owner_calls view)) l) fresh
    ∙ ap (λ calls. signal_with calls l) (tell-all view.raises returns (owner_calls view))

leaving-times :
    (view : View) (l : AppLifecycle) (o : Owner) → times o (leaving view l).calls ≡ times o l.calls
leaving-times view l o = ground (
  arith,
  times-append o (l.calls ++ when view.has_notice cancel_notice)
      (stop_selection_scroll ∷ disable_mouse ∷ flush_output ∷ []),
  times-append o l.calls (when view.has_notice cancel_notice),
  when-times o view.has_notice cancel_notice,
)

-- An active program has told no owner.
pub record IsSilent (l : AppLifecycle) : Type 0 where
  pub unsignalled : is_active l.phase ≡ true → l.owners_signalled ≡ false
  pub silent : (o : Owner) → is_active l.phase ≡ true → times o l.calls ≡ 0

-- The program is leaving, and each owner has been called so many times.
pub record HasCalled (count : Owner → ℕ) (l : AppLifecycle) : Type 0 where
  pub leaves : is_active l.phase ≡ false
  pub called : (o : Owner) → times o l.calls ≡ count o

active-runs : (phase : ExitPhase) → is_active phase ≡ true → is_stopped phase ≡ false
active-runs phase active_before = ground (arith, active_before)

pub request_exit-HasCalled :
    (view : View) (l : AppLifecycle)
    → ((c : Call) → view.raises c ≡ false)
    → IsSilent l
    → is_active l.phase ≡ true
    → HasCalled (expected view) (request_exit view l).1
unfolding request_exit
request_exit-HasCalled view l returns i active_before =
    let left =
      ap (λ b. if b then exit_screen (signal_owners view (leaving view l)) else (false, l))
        active_before
      ∙ ap exit_screen
          (signal_owners-told view (leaving view l) returns (i.unsignalled active_before)) in
    record {
      leaves = ap (λ r. is_active r.1.phase) left;
      called = λ o.
          ap (λ r. times o r.1.calls) left
          ∙ omega (
            arith,
            times-append o (told view (leaving view l)).calls (exit_application ∷ []),
            told-times view (leaving view l) o,
            leaving-times view l o,
            i.silent o active_before,
          );
    }

pub shutdown-HasCalled :
    (view : View) (is_over : ℕ → Bool) (ending : ℕ → Ending) (l : AppLifecycle)
    → ((c : Call) → view.raises c ≡ false)
    → IsSilent l
    → is_active l.phase ≡ true
    → HasCalled (expected view) (shutdown view is_over ending l).1
unfolding shutdown
shutdown-HasCalled view is_over ending l returns i active_before =
    let stopping : AppLifecycle = record (told view l) { phase = shutting_down } in
    let left =
      ap (λ b. if b then (false, l) else drain_and_stop is_over ending (closing view l))
        (active-runs l.phase active_before)
      ∙ ap (λ b. drain_and_stop is_over ending (if b then signal_owners view l else (false, l)))
          active_before
      ∙ ap (drain_and_stop is_over ending)
          (signal_owners-told view l returns (i.unsignalled active_before)) in
    record {
      leaves = ap (λ r. is_active r.1.phase) left;
      called = λ o.
          ap (λ r. times o r.1.calls) left
          ∙ omega (
            arith,
            times-append o (drain_tasks is_over ending stopping).state.calls
                (shutdown_executor ∷ []),
            drain_tasks-times o is_over ending stopping,
            told-times view l o,
            i.silent o active_before,
          );
    }
