-- ===== src/Control/Events.antt =====
-- control.py: an accepted cancel is never taken back.
use deep_agent_cli.Prelude.{
  ℕ, ◌≤◌, ◌<◌, ◌≡◌, refl, Bool, true, Option, none, some, [], arith, nat_comparable,
  text_comparable,
}
use deep_agent_cli.Control.State.{
  emit, say, set_pending_config_check, set_defer_steering, set_event_handler, clear_pause,
  request_pause, update, make_scope, Controller,
}
use deep_agent_cli.Control.Runs.{
  unregister_child, register_child, cancel, retire_active, release_reservation, end_run, begin_run,
  cancel_target, reserve_run, take_scope,
}
use deep_agent_cli.Control.Streams.{
  wait_model_streams_closed, unclosed_model_streams, detach, unregister_model_stream,
  register_model_stream,
}
use deep_agent_cli.Control.Steps.{
  here, closes_tool, opens_tool, unregisters_tool, registers_tool, waits_closed, counts_unclosed,
  unregisters_child, registers_child, takes_unapplied, pops_follow_up, pops_steering, follows_up,
  steers, sets_check, sets_defer, sets_handler, resumes, pauses, releases, unregisters_stream,
  registers_stream, cancels, ends, begins, reserves, next, Reach, Step,
}
use deep_agent_cli.Control.Cancelling.{scopes-cancel, generations-cancel}
use deep_agent_cli.Control.Begin.{cancel_event-begin_run, generations-begin_run}
use deep_agent_cli.Control.Frame.{retire_streams-frame}
use deep_agent_cli.Control.Messages.{
  take_unapplied, pop_follow_up, pop_steering, follow_up_message, steer_message,
}
use deep_agent_cli.Control.Tools.{
  close_tool_context, open_tool_context, unregister_tool, register_tool,
}

-- The cancel events of the runs that exist stay set, and no run is forgotten.
pub record Keeps (c d : Controller) : Type 0 where
  pub generations : c.generations ≤ d.generations
  pub events :
      (g : ℕ)
      → g < c.generations
      → (c.scopes g).cancel_event ≡ true
      → (d.scopes g).cancel_event ≡ true

Keeps-refl : (c : Controller) → Keeps c c
Keeps-refl c = record { generations = omega arith; events = λ g h k. k }

Keeps-trans : {c d e : Controller} → Keeps c d → Keeps d e → Keeps c e
Keeps-trans p q = record {
  generations = omega (arith, p.generations, q.generations);
  events = λ g h k. q.events g (omega (arith, p.generations)) (p.events g h k);
}

-- Steps that write no scope.
Keeps-same : {c d : Controller} → d.scopes ≡ c.scopes → d.generations ≡ c.generations → Keeps c d
Keeps-same e n = record { generations = omega (arith, n); events = λ g h k. rw e k }

take_scope-Keeps : (o : Option ℕ) (c : Controller) → Keeps c (take_scope o c).1
unfolding take_scope make_scope update
take_scope-Keeps none c = record { generations = omega arith; events = λ g h k. ground arith }
take_scope-Keeps (some g) c = Keeps-refl c

reserve_run-Keeps : (c : Controller) → Keeps c (reserve_run c).1
unfolding reserve_run
reserve_run-Keeps c = Keeps-trans (take_scope-Keeps c.reserved c) (Keeps-same refl refl)

cancel-Keeps : (killpg_fails : ℕ → Bool) (c : Controller) → Keeps c (cancel killpg_fails c)
unfolding cancel_target make_scope update
cancel-Keeps killpg_fails c = record {
  generations = grind (arith, generations-cancel killpg_fails c);
  events = λ g h k. grind (arith, scopes-cancel killpg_fails c g);
}

begin_run-Keeps : (closed : ℕ → Bool) (c : Controller) → Keeps c (begin_run closed c).1
begin_run-Keeps closed c =
    let taken = take_scope-Keeps c.reserved c in
    record {
      generations = rw (generations-begin_run closed c) taken.generations;
      events = λ g h k. ground (arith, cancel_event-begin_run closed c g, taken.events g h k);
    }

retire_active-Keeps :
    (closed : ℕ → Bool) (o : Option ℕ) (c : Controller) → Keeps c (retire_active closed o c)
unfolding retire_active
retire_active-Keeps closed none c = Keeps-refl c
retire_active-Keeps closed (some g) c = record {
  generations = grind (arith, retire_streams-frame);
  events = λ j h k. unfold update in grind (arith, retire_streams-frame);
}

end_run-Keeps : (closed : ℕ → Bool) (c : Controller) → Keeps c (end_run closed c)
unfolding end_run retire_active
end_run-Keeps closed c =
    let idle = record c { active = none; active_tools = [] } in
    let kept = retire_active-Keeps closed c.active idle in
    record { generations = kept.generations; events = kept.events }

register_model_stream-Keeps : (s : ℕ) (c : Controller) → Keeps c (register_model_stream s c).1
unfolding register_model_stream update
register_model_stream-Keeps s c = record {
  generations = ground arith;
  events = λ g h k. ground arith;
}

unregister_model_stream-Keeps :
    (closed : ℕ → Bool) (s : ℕ) (c : Controller) → Keeps c (unregister_model_stream closed s c)
unfolding unregister_model_stream detach update
unregister_model_stream-Keeps closed s c = record {
  generations = ground arith;
  events = λ g h k. ground arith;
}

module _ (killpg_fails : ℕ → Bool) where
  Step-Keeps : {c d : Controller} → Step killpg_fails c d → Keeps c d
  unfolding release_reservation request_pause clear_pause set_event_handler set_defer_steering
      set_pending_config_check steer_message follow_up_message pop_steering pop_follow_up
      take_unapplied register_child unregister_child unclosed_model_streams
      wait_model_streams_closed register_tool unregister_tool open_tool_context close_tool_context
      say emit
  Step-Keeps (reserves c) = reserve_run-Keeps c
  Step-Keeps (begins c closed) = begin_run-Keeps closed c
  Step-Keeps (ends c closed) = end_run-Keeps closed c
  Step-Keeps (cancels c) = cancel-Keeps killpg_fails c
  Step-Keeps (registers_stream c s) = register_model_stream-Keeps s c
  Step-Keeps (unregisters_stream c closed s) = unregister_model_stream-Keeps closed s c
  Step-Keeps (releases c g) = Keeps-same (ground arith) (ground arith)
  Step-Keeps (pauses c) = Keeps-same refl refl
  Step-Keeps (resumes c) = Keeps-same refl refl
  Step-Keeps (sets_handler c h) = Keeps-same refl refl
  Step-Keeps (sets_defer c b) = Keeps-same refl refl
  Step-Keeps (sets_check c f) = Keeps-same refl refl
  Step-Keeps (steers c text id) = Keeps-same refl refl
  Step-Keeps (follows_up c text id) = Keeps-same refl refl
  Step-Keeps (pops_steering c) = Keeps-same (ground arith) (ground arith)
  Step-Keeps (pops_follow_up c) = Keeps-same (ground arith) (ground arith)
  Step-Keeps (takes_unapplied c) = Keeps-same refl refl
  Step-Keeps (registers_child c child) = Keeps-same (ground arith) (ground arith)
  Step-Keeps (unregisters_child c child) = Keeps-same refl refl
  Step-Keeps (counts_unclosed c closed) = Keeps-same refl refl
  Step-Keeps (waits_closed c closed p q) = Keeps-same (ground arith) (ground arith)
  Step-Keeps (registers_tool c t) = Keeps-same refl refl
  Step-Keeps (unregisters_tool c t) = Keeps-same refl refl
  Step-Keeps (opens_tool c thread name id token) = Keeps-same refl refl
  Step-Keeps (closes_tool c thread t) = Keeps-same refl refl

  Reach-Keeps : {c d : Controller} → Reach killpg_fails c d → Keeps c d
  Reach-Keeps {c} here = Keeps-refl c
  Reach-Keeps (next r s) = Keeps-trans (Reach-Keeps r) (Step-Keeps s)

  -- Once a run has been cancelled it stays cancelled, whatever the controller does later: no
  -- sequence of calls clears the cancel event of a run that exists.
  pub cancelled_for_good :
      {c d : Controller}
      → Reach killpg_fails c d
      → (g : ℕ) → g < c.generations
      → (c.scopes g).cancel_event ≡ true
      → (d.scopes g).cancel_event ≡ true
  cancelled_for_good r = (Reach-Keeps r).events
