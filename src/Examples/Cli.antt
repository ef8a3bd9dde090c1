-- ===== src/Examples/Cli.antt =====
-- Runs of the terminal's state, of the input router and of the permission modes.
use deep_agent_cli.CliState.Cards
use deep_agent_cli.Prelude.{
  ℕ, ◌+◌, ◌<◌, String, ◌≡◌, refl, true, false, none, some, [], ◌∷◌, ◌==◌, nat_comparable,
  text_comparable,
}
use deep_agent_cli.Python.{Python}
use deep_agent_cli.RunEvents.{
  plain, run_started, run_cancelled, assistant_delta, tool_started, RunEvent, EventKind,
}
use deep_agent_cli.CliState.Blocks.{subagent_count, CliState}
use deep_agent_cli.CliState.Growth.{Grows}
use deep_agent_cli.CliState.Apply.{apply}
use deep_agent_cli.Router.{
  clear_input, cancel_run, ctrl_c, decide_interrupt, InputActionRouter, InputView,
}
use deep_agent_cli.Router.DoublePress.{double_press_exits, exit_needs_clear, last_clear, presses}
use deep_agent_cli.Router.Interrupt.{interrupt_cancels_run}
use deep_agent_cli.Value.{null, end}
use deep_agent_cli.CliState.Revisions.{apply-Grows}
use deep_agent_cli.CliState.Ends.{run_end_settles}

abbrev python : Python
python = record {
  lower = λ s. s;
  lstrip = λ s. s;
  strip = λ s. s;
  is_in = λ s t. s == t;
  to_text = λ v. "";
}

abbrev event : EventKind → String → RunEvent
event kind content = record {
  kind = kind;
  content = content;
  message_id = "";
  tool_call_id = "call-1";
  name = "task";
  arguments = end;
  result = plain null;
  is_error = false;
  stream = "";
  artifact = null;
}

abbrev blank : CliState
blank = record {
  blocks = [];
  running = false;
  compacting = false;
  status = "Ready";
  thinking_collapsed = true;
  tools_expanded = false;
  messages_expanded = false;
  active_block = none;
  pending_user_ids = [];
  attachments = [];
  usage = [];
  model_metrics_history = [];
  context_pristine = true;
  next_ref = 0;
}

abbrev working : CliState
working = apply python "u1" (event tool_started "") (apply python "u0" (event run_started "") blank)

apply-Grows_example :
    Grows working.blocks (apply python "u2" (event assistant_delta "hello") working).blocks
apply-Grows_example = apply-Grows python "u2" (event assistant_delta "hello") working

run_end_settles_example :
    subagent_count (apply python "u2" (event run_cancelled "") working).blocks ≡ 0
run_end_settles_example = (run_end_settles python "u2" (event run_cancelled "") working refl).1

subagent_counted : subagent_count working.blocks ≡ 1
unfolding apply Cards.tool_started subagent_count
subagent_counted = refl

abbrev idle_view : InputView
idle_view = record {
  has_interaction = false;
  custom_entry = false;
  completion_open = false;
  slash_line = false;
  transcript_away = false;
  session_waiting = false;
  reviewing = false;
  compacting = false;
  running = false;
  cancel_sent = false;
  mcp_busy = false;
  buffer_empty = true;
  exiting = false;
}

abbrev running_view : InputView
running_view = record idle_view { running = true }

abbrev router : InputActionRouter
router = record { exit_window = 1000; last_ctrl_c = none }

interrupt_cancels_run_example : decide_interrupt running_view ≡ cancel_run
interrupt_cancels_run_example =
    (interrupt_cancels_run running_view).1 (refl, refl, refl, refl, refl, refl, refl, refl, refl)

exit_needs_clear_example :
    (t : ℕ) × (last_clear none ((idle_view, 50) ∷ []) (clear_input ∷ []) ≡ some t)
    × (700 < t + 1000)
unfolding presses ctrl_c
exit_needs_clear_example = exit_needs_clear ((idle_view, 50) ∷ []) router idle_view 700 refl refl

double_press_exits_example : (ctrl_c idle_view 50 router).0 ≡ clear_input
double_press_exits_example =
    (double_press_exits router idle_view running_view 50 700 refl refl refl).0
