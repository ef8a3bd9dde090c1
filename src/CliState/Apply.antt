-- ===== src/CliState/Apply.antt =====
-- state.py: `CliState.apply`, one event after another.
use deep_agent_cli.CliState.Cards
use deep_agent_cli.Prelude.{
  String, Bool, true, false, none, nat_comparable, text_comparable, if◌then◌else◌,
}
use deep_agent_cli.RunEvents.{
  turn_completed, run_cancelling, steering_applied, steering_queued, tool_completed,
  assistant_completed, tool_output_delta, tool_started, assistant_delta, thinking_delta, usage,
  model_metrics, assistant_started, compaction_finished, compaction_started, interaction_requested,
  run_cancelled, run_failed, timing, run_completed, EventResult, run_started, RunEvent, EventKind,
}
use deep_agent_cli.Python.{Python}
use deep_agent_cli.CliState.Blocks.{CliState}
use deep_agent_cli.CliState.Streaming.{
  apply_steering, steering_queued_status, text_delta, keep_usage, keep_metrics,
}
use deep_agent_cli.CliState.Settling.{
  fail_run, cancel_run, complete_run, request_interaction, complete_turn,
}

-- The five kinds that end a compaction.
abbrev pub ends_compaction : EventKind → Bool
ends_compaction run_started = true
ends_compaction run_completed = true
ends_compaction run_failed = true
ends_compaction run_cancelled = true
ends_compaction interaction_requested = true
ends_compaction _ = false

unfoldable pub turn_end : String → RunEvent → EventResult → CliState → CliState
turn_end uuid e (timing t) s = complete_turn uuid e t s
turn_end uuid e _ s = s

-- The chain of `elif` over the kind of the event.
unfoldable pub dispatch : Python → String → RunEvent → EventKind → CliState → CliState
dispatch py uuid e run_started s = record s {
  context_pristine = false;
  running = true;
  status = "Working…  Esc to cancel";
  active_block = none;
}
dispatch py uuid e compaction_started s = record s { compacting = true }
dispatch py uuid e compaction_finished s = record s { compacting = false }
dispatch py uuid e assistant_started s = record s { active_block = none }
dispatch py uuid e model_metrics s = keep_metrics e.result s
dispatch py uuid e usage s = keep_usage e.result s
dispatch py uuid e thinking_delta s = text_delta uuid e s
dispatch py uuid e assistant_delta s = text_delta uuid e s
dispatch py uuid e tool_started s = record s {
  blocks = Cards.tool_started e s.blocks;
  active_block = none;
}
dispatch py uuid e tool_output_delta s = record s { blocks = Cards.tool_output_delta e s.blocks }
dispatch py uuid e assistant_completed s = record s { active_block = none }
dispatch py uuid e tool_completed s = record s { blocks = Cards.tool_completed py e s.blocks }
dispatch py uuid e steering_queued s = steering_queued_status py e s
dispatch py uuid e steering_applied s = apply_steering py uuid e s
dispatch py uuid e run_cancelling s = record s { status = "Cancelling…" }
dispatch py uuid e interaction_requested s = request_interaction e s
dispatch py uuid e run_completed s = complete_run uuid e s
dispatch py uuid e turn_completed s = turn_end uuid e e.result s
dispatch py uuid e run_cancelled s = cancel_run uuid s
dispatch py uuid e run_failed s = fail_run uuid e s
dispatch py uuid e _ s = s

-- The count of subagents is read off the cards, so its event changes nothing.
unfoldable pub apply : Python → String → RunEvent → CliState → CliState
unfolding dispatch
apply py uuid e s =
    dispatch py uuid e e.kind
      (if ends_compaction e.kind then record s { compacting = false } else s)
