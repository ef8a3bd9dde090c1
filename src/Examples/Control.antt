-- ===== src/Examples/Control.antt =====
-- Runs of RunController and of a tool's cancel context.
use deep_agent_cli.Prelude.{
  ◌==◌, ℕ, ◌<◌, ◌≡◌, refl, Bool, true, false, none, some, List, [], ◌∷◌, ◌++◌, map, arith,
  nat_comparable, text_comparable, All, contains,
}
use mathlib.Core.List.{Perm}
use deep_agent_cli.Cancel
use deep_agent_cli.Control.State
use deep_agent_cli.Control.State.{
  emitted, drained, QueuedMessage, stream_cancelled, cancel_requested, update, set_cancel_event,
  say, emit, make_scope, init, Controller,
}
use deep_agent_cli.Control.Runs.{
  end_run, carry_over, cancel_tools, cancel_scope, take_scope, cancel_target, cancel, begin_run,
  reserve_run,
}
use deep_agent_cli.Control.Streams.{register_model_stream}
use deep_agent_cli.Control.Steps.{
  ends, registers_stream, follows_up, begins, steers, here, next, Reach,
}
use deep_agent_cli.Control.Queue.{pop_steering_oldest, IsOrdered}
use deep_agent_cli.Control.Messages.{
  take_unapplied, steer_message, follow_up_message, pending_message_texts, pop_steering,
}
use deep_agent_cli.Control.References.{references_stay-IsSound, IsSound}
use deep_agent_cli.Cancel.{
  kill_process_group, request_cancel, register_process, Process, ToolCancelContext,
}
use deep_agent_cli.Control.Cancelling.{cancel-isolated, cancel_again, cancel_before_begin}
use deep_agent_cli.Control.Arrival.{queues_stay-IsOrdered}
use deep_agent_cli.Control.Sorting.{take_unapplied_complete}
use deep_agent_cli.Cancel.Order.{
  register_callback-request_cancel, cancel_then_register, register_then_cancel,
}
use deep_agent_cli.Control.Events.{cancelled_for_good}
use deep_agent_cli.Control.Handover.{end_run_tracks_streams}
use deep_agent_cli.Control.Stopping.{cancel_stops_everything}

abbrev no_failure : ℕ → Bool
no_failure pid = false

abbrev still_open : ℕ → Bool
still_open s = false

abbrev start : Controller
start = init (some 0)

abbrev reserved_run : Controller
reserved_run = (reserve_run start).1

abbrev active_run : Controller
active_run = (begin_run still_open start).1

abbrev streaming_run : Controller
streaming_run = (register_model_stream 7 active_run).1

abbrev queued : Controller
queued = (follow_up_message "then that" 11 (steer_message "first this" 10 start).1).1

reserved_generation_test : reserved_run.reserved ≡ some 1
unfolding reserve_run take_scope make_scope
reserved_generation_test = refl

cancel_before_begin_example : (begin_run still_open (cancel no_failure reserved_run)).0 ≡ 1
cancel_before_begin_example =
    (cancel_before_begin no_failure still_open reserved_run 1 reserved_generation_test).0

cancelled_for_good_example :
    ((end_run still_open (cancel no_failure active_run)).scopes 1).cancel_event ≡ true
unfolding cancel cancel_target cancel_scope cancel_tools say emit set_cancel_event begin_run
    take_scope make_scope carry_over update
cancelled_for_good_example =
    cancelled_for_good no_failure (next here (ends (cancel no_failure active_run) still_open)) 1
      (omega arith) refl

cancel-isolated_example :
    ((cancel no_failure active_run).scopes 0 ≡ active_run.scopes 0)
    × ((cancel no_failure active_run).active ≡ active_run.active)
    × ((cancel no_failure active_run).reserved ≡ active_run.reserved)
unfolding cancel_target begin_run take_scope make_scope carry_over update
cancel-isolated_example = cancel-isolated no_failure active_run 0 (omega arith) (omega arith)

cancel_stops_everything_example :
    (es : List Cancel.Effect) × ((cancel no_failure streaming_run).log
      ≡ []
        ++ ([] ++ (stream_cancelled 7 ∷ []) ++ drained 1 ∷ [])
        ++ map State.Effect.tool es
        ++ (emitted 0 State.ControlEvent.run_cancelling ∷ []))
unfolding register_model_stream begin_run take_scope make_scope carry_over update say
cancel_stops_everything_example =
    (cancel_stops_everything no_failure streaming_run 1 refl refl refl).1

cancel_again_example :
    cancel no_failure (cancel no_failure streaming_run) ≡ cancel no_failure streaming_run
cancel_again_example = cancel_again no_failure streaming_run

queued_reached : Reach no_failure start queued
queued_reached =
    next (next here (steers start "first this" 10))
      (follows_up (steer_message "first this" 10 start).1 "then that" 11)

queued-IsOrdered : IsOrdered queued
queued-IsOrdered = queues_stay-IsOrdered no_failure (some 0) queued_reached

queues_stay-IsOrdered_example : IsOrdered queued
queues_stay-IsOrdered_example = queues_stay-IsOrdered no_failure (some 0) queued_reached

pop_steering_oldest_example :
    (m : QueuedMessage) × (m.text ≡ "first this")
    × (queued.steering ≡ m ∷ (pop_steering queued).1.steering)
    × ((pop_steering queued).1.follow_ups ≡ queued.follow_ups)
    × All
        (λ x. m.order < x.order)
        ((pop_steering queued).1.steering ++ (pop_steering queued).1.follow_ups)
unfolding pop_steering steer_message follow_up_message emit say cancel_requested
pop_steering_oldest_example =
    pop_steering_oldest queued (pop_steering queued).1 "first this" queued-IsOrdered refl

references_stay-IsSound_example : IsSound active_run
references_stay-IsSound_example =
    references_stay-IsSound no_failure (some 0) (next here (begins start still_open))

streaming_IsSound : IsSound streaming_run
streaming_IsSound =
    references_stay-IsSound no_failure (some 0)
      (next (next here (begins start still_open)) (registers_stream active_run 7))

end_run_tracks_streams_example :
    contains (end_run still_open streaming_run).unclosed_streams 7 ≡ true
unfolding register_model_stream begin_run take_scope make_scope carry_over update say
end_run_tracks_streams_example =
    (end_run_tracks_streams still_open 7 refl streaming_run 1 streaming_IsSound refl refl).0

take_unapplied_complete_example : pending_message_texts (take_unapplied queued).1 ≡ []
take_unapplied_complete_example = (take_unapplied_complete queued).3

pending_test : pending_message_texts queued ≡ "first this" ∷ "then that" ∷ []
unfolding pending_message_texts steer_message follow_up_message emit say
pending_test = refl

abbrev shell : ToolCancelContext
shell = record {
  tool_name = "execute";
  tool_call_id = "call-1";
  event = none;
  token = "t";
  callbacks = 1 ∷ 2 ∷ [];
  process = some (record { handle = 5; cancel_execution = false; pid = 400 });
  cancel_flag = false;
}

abbrev third_raises : ℕ → Bool
third_raises f = f == 3

register_callback-request_cancel_example :
    Perm
      (register_then_cancel no_failure third_raises 3 shell).0
      (cancel_then_register no_failure third_raises 3 shell).0
    × ((register_then_cancel no_failure third_raises 3 shell).1 ≡ false)
    × ((cancel_then_register no_failure third_raises 3 shell).1 ≡ third_raises 3)
register_callback-request_cancel_example =
    register_callback-request_cancel no_failure third_raises 3 shell refl

abbrev worker : Process
worker = record { handle = 6; cancel_execution = true; pid = 0 }
