-- ===== src/RunEvents.antt =====
-- The public contracts of agent/run_events.py: events and results of a run.
pub mod Interrupts
pub mod Decisions
pub mod Waiting
use deep_agent_cli.Prelude.{ℕ, String, Bool, List, nat_comparable, text_comparable}
use deep_agent_cli.Value.{Fields, Value}

pub data EventKind : Type 0 where
  subagents_changed run_started run_completed run_failed run_cancelled : EventKind
  interaction_requested compaction_started compaction_finished : EventKind
  assistant_started assistant_completed thinking_delta assistant_delta : EventKind
  model_metrics usage tool_started tool_output_delta tool_completed : EventKind
  steering_queued steering_applied run_cancelling turn_completed : EventKind
  another : String → EventKind

-- Times are opaque stamps.
pub record TurnTiming : Type 0 where
  pub elapsed : ℕ
  pub finished_at : ℕ

pub record PendingToolCall : Type 0 where
  pub tool_call_id : String
  pub name : String
  pub args : Value

pub record RunResult : Type 0 where
  pub status : String
  pub output : String
  pub pending_tool_calls : List PendingToolCall
  pub human_input : Fields
  pub error : String

-- `event.result` is `Any`: a plain value, or one of the program's own records.
pub data EventResult : Type 0 where
  plain : Value → EventResult
  timing : TurnTiming → EventResult
  run_result : RunResult → EventResult

pub record RunEvent : Type 0 where
  pub kind : EventKind
  pub content : String
  pub message_id : String
  pub tool_call_id : String
  pub name : String
  pub arguments : Fields
  pub result : EventResult
  pub is_error : Bool
  pub stream : String
  pub artifact : Value
