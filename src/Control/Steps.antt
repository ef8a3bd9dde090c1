-- ===== src/Control/Steps.antt =====
-- control.py: every method that changes state, as a step. `closed`, the answers of waits, the
-- thread, the identifiers and the flags are what the environment gives.
use deep_agent_cli.Prelude.{ℕ, String, Bool, Option, nat_comparable, text_comparable}
use deep_agent_cli.Control.State.{
  set_pending_config_check, set_defer_steering, set_event_handler, clear_pause, request_pause,
  Controller,
}
use deep_agent_cli.Control.Runs.{
  unregister_child, register_child, cancel, end_run, begin_run, release_reservation, reserve_run,
}
use deep_agent_cli.Control.Messages.{
  take_unapplied, pop_follow_up, pop_steering, follow_up_message, steer_message,
}
use deep_agent_cli.Control.Streams.{
  wait_model_streams_closed, unclosed_model_streams, unregister_model_stream, register_model_stream,
}
use deep_agent_cli.Control.Tools.{
  close_tool_context, open_tool_context, unregister_tool, register_tool,
}

pub data Step (killpg_fails : ℕ → Bool) : Controller → Controller → Type 0 where
  reserves : (c : Controller) → Step killpg_fails c (reserve_run c).1
  releases : (c : Controller) (g : ℕ) → Step killpg_fails c (release_reservation g c)
  begins : (c : Controller) (closed : ℕ → Bool) → Step killpg_fails c (begin_run closed c).1
  ends : (c : Controller) (closed : ℕ → Bool) → Step killpg_fails c (end_run closed c)
  cancels : (c : Controller) → Step killpg_fails c (cancel killpg_fails c)
  pauses : (c : Controller) → Step killpg_fails c (request_pause c)
  resumes : (c : Controller) → Step killpg_fails c (clear_pause c)
  sets_handler : (c : Controller) (h : Option ℕ) → Step killpg_fails c (set_event_handler h c)
  sets_defer : (c : Controller) (b : Bool) → Step killpg_fails c (set_defer_steering b c)
  sets_check : (c : Controller) (f : ℕ → Bool) → Step killpg_fails c (set_pending_config_check f c)
  steers :
      (c : Controller) (text : String) (id : ℕ) → Step killpg_fails c (steer_message text id c).1
  follows_up :
      (c : Controller) (text : String) (id : ℕ)
      → Step killpg_fails c (follow_up_message text id c).1
  pops_steering : (c : Controller) → Step killpg_fails c (pop_steering c).1
  pops_follow_up : (c : Controller) → Step killpg_fails c (pop_follow_up c).1
  takes_unapplied : (c : Controller) → Step killpg_fails c (take_unapplied c).1
  registers_child : (c : Controller) (child : ℕ) → Step killpg_fails c (register_child child c)
  unregisters_child : (c : Controller) (child : ℕ) → Step killpg_fails c (unregister_child child c)
  registers_stream : (c : Controller) (s : ℕ) → Step killpg_fails c (register_model_stream s c).1
  unregisters_stream :
      (c : Controller) (closed : ℕ → Bool) (s : ℕ)
      → Step killpg_fails c (unregister_model_stream closed s c)
  counts_unclosed :
      (c : Controller) (closed : ℕ → Bool) → Step killpg_fails c (unclosed_model_streams closed c).1
  waits_closed :
      (c : Controller) (closed child_closed stream_closed : ℕ → Bool)
      → Step killpg_fails c (wait_model_streams_closed closed child_closed stream_closed c).1
  registers_tool : (c : Controller) (t : ℕ) → Step killpg_fails c (register_tool t c)
  unregisters_tool : (c : Controller) (t : ℕ) → Step killpg_fails c (unregister_tool t c)
  opens_tool :
      (c : Controller) (thread : ℕ) (tool_name tool_call_id token : String)
      → Step killpg_fails c (open_tool_context killpg_fails thread tool_name tool_call_id token c).1
  closes_tool :
      (c : Controller) (thread t : ℕ) → Step killpg_fails c (close_tool_context thread t c)

pub data Reach (killpg_fails : ℕ → Bool) (c : Controller) : Controller → Type 0 where
  here : Reach killpg_fails c c
  next :
      {d e : Controller} → Reach killpg_fails c d → Step killpg_fails d e → Reach killpg_fails c e
