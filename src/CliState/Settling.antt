-- ===== src/CliState/Settling.antt =====
-- state.py: what the end of a run and an interruption make of the tool cards.
use deep_agent_cli.Prelude.{
  String, Bool, true, false, not, ◌&&◌, ◌||◌, none, some, List, [], ◌∷◌, ◌++◌, ◌==◌, nat_comparable,
  text_comparable, if◌then◌else◌,
}
use deep_agent_cli.CliState.Blocks.{
  summary, assistant, MessageKind, touch_tool, add_system, new_message, message, is_unfinished,
  is_running, tool, CliState, append_message, Block, ToolBlock,
}
use deep_agent_cli.RunEvents.{TurnTiming, run_result, RunEvent, EventResult, PendingToolCall}
use deep_agent_cli.Session.Status.{ToolStatus}
use deep_agent_cli.Value.{text, fields_of, object, pos, set_field}

-- Every tool card is rewritten by `f`.
unfoldable pub map_cards : (ToolBlock → ToolBlock) → List Block → List Block
map_cards f [] = []
map_cards f (tool t ∷ blocks) = tool (f t) ∷ map_cards f blocks
map_cards f (b ∷ blocks) = b ∷ map_cards f blocks

abbrev has_call : String → List PendingToolCall → Bool
has_call id [] = false
has_call id (call ∷ calls) = call.tool_call_id == id || has_call id calls

abbrev waits_if : Bool → ToolStatus
waits_if true = ToolStatus.waiting
waits_if false = ToolStatus.interrupted

-- `_interaction_settlement`: only the calls that the interrupt blocks are waiting.
unfoldable pub interaction_settlement : EventResult → ToolBlock → ToolStatus
interaction_settlement (run_result r) t =
    if r.status == "waiting_confirmation"
    then waits_if (has_call t.tool_call_id r.pending_tool_calls)
    else if r.status == "waiting_human"
    then waits_if (t.name == "request_human_input")
    else ToolStatus.interrupted
interaction_settlement _ t = ToolStatus.interrupted

unfoldable pub settle_card : EventResult → ToolBlock → ToolBlock
unfolding interaction_settlement
settle_card result t =
    if is_running t.status
    then record (touch_tool t) { status = interaction_settlement result t }
    else t

unfoldable pub interrupt_card : ToolBlock → ToolBlock
interrupt_card t =
    if is_unfinished t.status then record (touch_tool t) { status = ToolStatus.interrupted } else t

unfoldable pub cancel_card : ToolBlock → ToolBlock
unfolding set_field
cancel_card t =
    if is_running t.status
    then (if t.name == "task"
        then record (touch_tool t) { status = ToolStatus.cancelled; is_error = true }
        else record (touch_tool t) {
          status = ToolStatus.error;
          is_error = true;
          exit_code = some (pos 1);
          artifact =
              if t.name == "execute"
              then object (set_field "termination_reason" (text "cancelled") (fields_of t.artifact))
              else t.artifact;
        })
    else t

unfoldable pub fail_card : ToolBlock → ToolBlock
fail_card t =
    if is_unfinished t.status
    then record (touch_tool t) {
      status = ToolStatus.error;
      is_error = true;
      exit_code = some (pos 1);
    }
    else t

abbrev is_assistant_text : String → Block → Bool
is_assistant_text content (message b) = is_assistant b.kind && b.content == content
  where
    is_assistant : MessageKind → Bool
    is_assistant assistant = true
    is_assistant _ = false
is_assistant_text content _ = false

-- `_has_assistant_text`
unfoldable pub has_assistant_text : String → List Block → Bool
has_assistant_text content [] = false
has_assistant_text content (b ∷ blocks) =
    is_assistant_text content b || has_assistant_text content blocks

-- The final answer is appended unless it is shown already.
unfoldable pub show_answer : String → String → CliState → CliState
unfolding append_message has_assistant_text
show_answer uuid content s =
    if not (content == "") && not (has_assistant_text content s.blocks)
    then append_message (new_message s.next_ref assistant content uuid) s
    else s

unfoldable pub request_interaction : RunEvent → CliState → CliState
request_interaction e s = record s {
  running = false;
  status = "Waiting for input";
  active_block = none;
  blocks = map_cards (settle_card e.result) s.blocks;
}

unfoldable pub complete_run : String → RunEvent → CliState → CliState
complete_run uuid e s =
    record (show_answer uuid e.content (record s {
      running = false;
      status = "Ready";
      blocks = map_cards interrupt_card s.blocks;
    })) { active_block = none }

unfoldable pub complete_turn : String → RunEvent → TurnTiming → CliState → CliState
complete_turn uuid e timing s =
    let s' = show_answer uuid e.content s in
    record s' { blocks = s'.blocks ++ summary timing ∷ []; active_block = none }

unfoldable pub cancel_run : String → CliState → CliState
cancel_run uuid s =
    add_system uuid "Operation cancelled." true []
      (record s { running = false; status = "Cancelled"; blocks = map_cards cancel_card s.blocks })

unfoldable pub fail_run : String → RunEvent → CliState → CliState
fail_run uuid e s =
    add_system uuid (if e.content == "" then "Unknown error" else e.content) true []
      (record s { running = false; status = "Failed"; blocks = map_cards fail_card s.blocks })
