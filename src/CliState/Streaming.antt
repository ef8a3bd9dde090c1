-- ===== src/CliState/Streaming.antt =====
-- state.py: the deltas of the assistant, the usage, and the steering messages.
use deep_agent_cli.Prelude.{
  ℕ, String, Bool, false, not, ◌&&◌, ◌||◌, Option, none, some, List, [], ◌∷◌, ◌++◌, ◌==◌,
  nat_comparable, text_comparable, if◌then◌else◌, is_some,
}
use deep_agent_cli.CliState.Blocks.{
  assistant, add_user, new_message, touch_message, CliState, message, append_message, MessageBlock,
  Block,
}
use deep_agent_cli.RunEvents.{thinking_delta, plain, EventResult, RunEvent, EventKind}
use deep_agent_cli.Prelude.Dict.{erase, lookup, Dict}
use deep_agent_cli.Value.{end, object, count_of, get, field, text_or_empty, Fields}
use deep_agent_cli.Python.{Python}

abbrev pub is_ref : ℕ → Block → Bool
is_ref r (message b) = b.ref == r
is_ref r _ = false

-- `any(item is block for item in self.blocks)`
unfoldable pub has_ref : ℕ → List Block → Bool
has_ref r [] = false
has_ref r (b ∷ blocks) = is_ref r b || has_ref r blocks

-- Writing the message block `r` in place.
unfoldable pub modify_ref : ℕ → (MessageBlock → MessageBlock) → List Block → List Block
modify_ref r f [] = []
modify_ref r f (message b ∷ blocks) =
    (if b.ref == r then message (f b) else message b) ∷ modify_ref r f blocks
modify_ref r f (b ∷ blocks) = b ∷ modify_ref r f blocks

-- `_assistant_block`: the active block if it is still shown, else a new one.
unfoldable pub assistant_block : String → CliState → ℕ × CliState
unfolding append_message has_ref
assistant_block uuid s =
    let r = s.next_ref in
    let fresh : ℕ × CliState =
      (r, record (append_message (new_message r assistant "" uuid) s) { active_block = some r }) in
    elim s.active_block [ none ↦ fresh | some a ↦ if has_ref a s.blocks then (a, s) else fresh ]

abbrev pub write_delta : EventKind → String → MessageBlock → MessageBlock
write_delta thinking_delta content b = record (touch_message b) { thinking = content }
write_delta _ content b = record (touch_message b) { content = content }

unfoldable pub text_delta : String → RunEvent → CliState → CliState
unfolding modify_ref
text_delta uuid e s =
    let (r, s') = assistant_block uuid s in
    record s' { blocks = modify_ref r (write_delta e.kind e.content) s'.blocks }

abbrev pub is_usage_key : String → Bool
is_usage_key k = k == "input_tokens" || (k == "output_tokens" || k == "total_tokens")

abbrev counted : String → Option ℕ → Dict String ℕ → Dict String ℕ
counted k none rest = rest
counted k (some n) rest = if is_usage_key k then (k, n) ∷ rest else rest

-- The three counts among the fields of a usage report.
unfoldable pub usage_counts : Fields → Dict String ℕ
usage_counts end = []
usage_counts (field k v d) = counted k (count_of v) (usage_counts d)

-- Without a new input count the last reading stays.
unfoldable pub keep_usage : EventResult → CliState → CliState
unfolding usage_counts lookup
keep_usage (plain (object d)) s =
    let usage = usage_counts d in
    if is_some (lookup "input_tokens" usage) then record s { usage = usage } else s
keep_usage _ s = s

unfoldable pub keep_metrics : EventResult → CliState → CliState
keep_metrics (plain (object d)) s = record s {
  model_metrics_history = s.model_metrics_history ++ d ∷ [];
}
keep_metrics _ s = s

-- `str(event.result.get(k) or "")` if the result is a dict, else the empty text.
abbrev pub result_text : Python → String → EventResult → String
result_text py k (plain (object d)) = text_or_empty py.to_text (get k d)
result_text py k _ = ""

unfoldable pub steering_queued_status : Python → RunEvent → CliState → CliState
unfolding text_or_empty get
steering_queued_status py e s =
    let mode = result_text py "mode" e.result in
    if mode == "steer" && not (e.content == "")
    then record s { status = "Steering queued" }
    else if mode == "followUp"
    then record s { status = "Follow-up queued" }
    else s

-- The first message block of that identifier.
unfoldable pub settle_user : String → List Block → List Block
settle_user id [] = []
settle_user id (message b ∷ blocks) =
    let rest = settle_user id blocks in
    if b.id == id
    then message (record (touch_message b) { pending = false }) ∷ blocks
    else message b ∷ rest
settle_user id (b ∷ blocks) = b ∷ settle_user id blocks

abbrev pub settle_or_add : String → String → RunEvent → Option String → CliState → CliState
settle_or_add uuid message_id e none s =
    if e.content == "" then s else add_user uuid e.content false message_id [] s
settle_or_add uuid message_id e (some id) s =
    if id == ""
    then (if e.content == "" then s else add_user uuid e.content false message_id [] s)
    else record s { blocks = settle_user id s.blocks }

unfoldable pub apply_steering : Python → String → RunEvent → CliState → CliState
unfolding text_or_empty get add_user settle_user lookup erase
apply_steering py uuid e s =
    let message_id = result_text py "id" e.result in
    settle_or_add uuid message_id e (lookup message_id s.pending_user_ids)
      (record s { pending_user_ids = erase message_id s.pending_user_ids })
