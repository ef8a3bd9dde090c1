-- ===== src/CliState/Revisions.antt =====
-- state.py: the renderer may cache a block by its revision.
use deep_agent_cli.Prelude.{
  Option-cases, Bool-cases, ℕ, String, inl, inr, refl, Bool, true, false, not, ◌&&◌, Option, none,
  some, List, [], arith, ◌==◌, nat_comparable, text_comparable, if◌then◌else◌,
}
use deep_agent_cli.CliState.Cards
use deep_agent_cli.CliState.Blocks.{
  message, Block, MessageBlock, append_message, CliState, add_system, add_user,
}
use deep_agent_cli.CliState.Settling.{
  settle_card, map_cards, request_interaction, fail_card, cancel_card, complete_turn,
  interrupt_card, fail_run, cancel_run, complete_run, has_assistant_text, show_answer,
}
use deep_agent_cli.Python.{Python}
use deep_agent_cli.RunEvents.{
  steering_queued, usage, model_metrics, run_failed, run_cancelled, turn_completed, run_completed,
  interaction_requested, steering_applied, tool_completed, tool_output_delta, tool_started,
  assistant_delta, thinking_delta, timing, EventResult, EventKind, RunEvent,
}
use deep_agent_cli.CliState.Growth.{
  Grows-same, settle_user-Grows, modify_last-Grows, map_cards-Grows, change_card-Grows,
  modify_ref-Grows, Touched, Grows-trans, Grows-refl, Grows-append, Grows,
}
use deep_agent_cli.CliState.Apply.{ends_compaction, dispatch, turn_end, apply}
use deep_agent_cli.CliState.Streaming.{
  steering_queued_status, keep_usage, keep_metrics, result_text, settle_or_add, write_delta,
  has_ref, apply_steering, text_delta, assistant_block,
}
use deep_agent_cli.CliState.Cards.{find_by_id, has_card, complete, take_output, restart}
use deep_agent_cli.Prelude.Dict.{erase, lookup}

add_user-Grows :
    (uuid content : String) (pending : Bool) (message_id : String) (attachments : List ℕ)
    (s : CliState)
    → Grows s.blocks (add_user uuid content pending message_id attachments s).blocks
unfolding add_user
add_user-Grows uuid content pending message_id attachments s =
    elim (Bool-cases (pending && not (message_id == ""))) [
      | inl waits ↦ rw waits (Grows-append s.blocks _)
      | inr sent ↦ rw sent (Grows-append s.blocks _)
    ]

add_system-Grows :
    (uuid content : String) (is_error : Bool) (spans : List ℕ) (s : CliState)
    → Grows s.blocks (add_system uuid content is_error spans s).blocks
unfolding add_system
add_system-Grows uuid content is_error spans s = Grows-append s.blocks _

show_answer-Grows :
    (uuid content : String) (s : CliState) → Grows s.blocks (show_answer uuid content s).blocks
unfolding show_answer
show_answer-Grows uuid content s =
    elim (Bool-cases (not (content == "") && not (has_assistant_text content s.blocks))) [
      | inl absent ↦ rw absent (Grows-append s.blocks _)
      | inr shown ↦ rw shown (Grows-refl s.blocks)
    ]

assistant_block-Grows :
    (uuid : String) (s : CliState) → Grows s.blocks (assistant_block uuid s).1.blocks
unfolding assistant_block append_message
assistant_block-Grows uuid s = elim (Option-cases s.active_block) [
  | inl idle ↦ rw (idle, assistant_block) (Grows-append s.blocks _)
  | inr (a, active) ↦ elim (Bool-cases (has_ref a s.blocks)) [
    | inl shown ↦ rw (active, assistant_block, shown) (Grows-refl s.blocks)
    | inr gone ↦ rw (active, assistant_block, gone) (Grows-append s.blocks _)
  ]
]

write_delta-Touched :
    (k : EventKind) (content : String) (b : MessageBlock)
    → Touched (message b) (message (write_delta k content b))
write_delta-Touched thinking_delta content b = (refl, inr (omega arith))
write_delta-Touched _ content b = (refl, inr (omega arith))

text_delta-Grows :
    (uuid : String) (e : RunEvent) (s : CliState) → Grows s.blocks (text_delta uuid e s).blocks
unfolding text_delta
text_delta-Grows uuid e s =
    let (r, s') = assistant_block uuid s in
    Grows-trans s.blocks s'.blocks _ (assistant_block-Grows uuid s)
      (modify_ref-Grows r _ (write_delta-Touched e.kind e.content) s'.blocks)

tool_started-Grows :
    (e : RunEvent) (blocks : List Block) → Grows blocks (Cards.tool_started e blocks)
unfolding Cards.tool_started restart
tool_started-Grows e blocks = elim (Bool-cases (has_card (find_by_id e.tool_call_id) blocks)) [
  | inl found ↦
      rw found
        (modify_last-Grows (restart e) (λ t. ground arith) (find_by_id e.tool_call_id) blocks)
  | inr missing ↦ rw missing (Grows-append blocks _)
]

tool_output_delta-Grows :
    (e : RunEvent) (blocks : List Block) → Grows blocks (Cards.tool_output_delta e blocks)
unfolding Cards.tool_output_delta take_output
tool_output_delta-Grows e blocks = change_card-Grows (take_output e) (λ t. ground arith) _ _ blocks

tool_completed-Grows :
    (py : Python) (e : RunEvent) (blocks : List Block)
    → Grows blocks (Cards.tool_completed py e blocks)
unfolding Cards.tool_completed complete
tool_completed-Grows py e blocks =
    change_card-Grows (complete py e) (λ t. (refl, inr (omega arith))) _ _ blocks

add_if_text-Grows :
    (uuid message_id content : String) (s : CliState)
    → Grows s.blocks
        (if content == "" then s else add_user uuid content false message_id [] s).blocks
add_if_text-Grows uuid message_id content s = elim (Bool-cases (content == "")) [
  | inl empty ↦ rw empty (Grows-refl s.blocks)
  | inr full ↦ rw full (add_user-Grows uuid content false message_id [] s)
]

settle_or_add-Grows :
    (uuid message_id : String) (e : RunEvent) (o : Option String) (s : CliState)
    → Grows s.blocks (settle_or_add uuid message_id e o s).blocks
settle_or_add-Grows uuid message_id e none s = add_if_text-Grows uuid message_id e.content s
settle_or_add-Grows uuid message_id e (some id) s = elim (Bool-cases (id == "")) [
  | inl blank ↦ rw blank (add_if_text-Grows uuid message_id e.content s)
  | inr known ↦ rw known (settle_user-Grows id s.blocks)
]

apply_steering-Grows :
    (py : Python) (uuid : String) (e : RunEvent) (s : CliState)
    → Grows s.blocks (apply_steering py uuid e s).blocks
unfolding apply_steering
apply_steering-Grows py uuid e s =
    let message_id = result_text py "id" e.result in
    settle_or_add-Grows uuid message_id e (lookup message_id s.pending_user_ids)
      (record s { pending_user_ids = erase message_id s.pending_user_ids })

complete_run-Grows :
    (uuid : String) (e : RunEvent) (s : CliState) → Grows s.blocks (complete_run uuid e s).blocks
unfolding complete_run interrupt_card
complete_run-Grows uuid e s =
    Grows-trans s.blocks (map_cards interrupt_card s.blocks) _
      (map_cards-Grows interrupt_card (λ t. ground arith) s.blocks)
      (show_answer-Grows uuid e.content _)

complete_turn-Grows :
    (uuid : String) (e : RunEvent) (r : EventResult) (s : CliState)
    → Grows s.blocks (turn_end uuid e r s).blocks
unfolding turn_end complete_turn
complete_turn-Grows uuid e (timing t) s =
    Grows-trans s.blocks (show_answer uuid e.content s).blocks _
      (show_answer-Grows uuid e.content s) (Grows-append _ _)
complete_turn-Grows uuid e _ s = Grows-refl s.blocks

cancel_run-Grows : (uuid : String) (s : CliState) → Grows s.blocks (cancel_run uuid s).blocks
unfolding cancel_run cancel_card
cancel_run-Grows uuid s =
    Grows-trans s.blocks (map_cards cancel_card s.blocks) _
      (map_cards-Grows cancel_card (λ t. ground arith) s.blocks) (add_system-Grows uuid _ true [] _)

fail_run-Grows :
    (uuid : String) (e : RunEvent) (s : CliState) → Grows s.blocks (fail_run uuid e s).blocks
unfolding fail_run fail_card
fail_run-Grows uuid e s =
    Grows-trans s.blocks (map_cards fail_card s.blocks) _
      (map_cards-Grows fail_card (λ t. ground arith) s.blocks) (add_system-Grows uuid _ true [] _)

dispatch-Grows :
    (py : Python) (uuid : String) (e : RunEvent) (k : EventKind) (s : CliState)
    → Grows s.blocks (dispatch py uuid e k s).blocks
unfolding dispatch
dispatch-Grows py uuid e thinking_delta s = text_delta-Grows uuid e s
dispatch-Grows py uuid e assistant_delta s = text_delta-Grows uuid e s
dispatch-Grows py uuid e tool_started s = tool_started-Grows e s.blocks
dispatch-Grows py uuid e tool_output_delta s = tool_output_delta-Grows e s.blocks
dispatch-Grows py uuid e tool_completed s = tool_completed-Grows py e s.blocks
dispatch-Grows py uuid e steering_applied s = apply_steering-Grows py uuid e s
dispatch-Grows py uuid e interaction_requested s =
    unfold request_interaction settle_card in
    map_cards-Grows (settle_card e.result) (λ t. ground arith) s.blocks
dispatch-Grows py uuid e run_completed s = complete_run-Grows uuid e s
dispatch-Grows py uuid e turn_completed s = complete_turn-Grows uuid e e.result s
dispatch-Grows py uuid e run_cancelled s = cancel_run-Grows uuid s
dispatch-Grows py uuid e run_failed s = fail_run-Grows uuid e s
dispatch-Grows py uuid e model_metrics s = unfold keep_metrics in Grows-same (ground arith)
dispatch-Grows py uuid e usage s = unfold keep_usage in Grows-same (ground arith)
dispatch-Grows py uuid e steering_queued s =
    unfold steering_queued_status in Grows-same (ground arith)
dispatch-Grows py uuid e _ s = Grows-refl s.blocks

-- `apply` never removes or reorders a block, and a block that it changes gets a higher revision:
-- after any event every block stands at its place, the same object, equal to what it was or with a
-- higher revision, and new blocks stand behind.
pub apply-Grows :
    (py : Python) (uuid : String) (e : RunEvent) (s : CliState)
    → Grows s.blocks (apply py uuid e s).blocks
unfolding apply
apply-Grows py uuid e s = elim (Bool-cases (ends_compaction e.kind)) [
  | inl ends ↦ rw ends (dispatch-Grows py uuid e e.kind (record s { compacting = false }))
  | inr goes_on ↦ rw goes_on (dispatch-Grows py uuid e e.kind s)
]
