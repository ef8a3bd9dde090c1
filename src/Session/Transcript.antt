-- ===== src/Session/Transcript.antt =====
-- agent/session.py: the transcript that is rebuilt from the messages of a checkpoint. A message
-- holds what `message_text`, `reasoning_text`, `visible_text` and `refs_from_message` read of it.
use deep_agent_cli.Prelude.{
  ℕ, zero, String, Bool, true, false, not, ◌&&◌, ◌||◌, Option, none, some, List, [], ◌∷◌, ◌++◌, map,
  ◌==◌, nat_comparable, text_comparable, if◌then◌else◌, contains,
}
use deep_agent_cli.Value.{
  ℤ, Value, Fields, boolean, int, pos, text, object, end, null, get, fields_of, is_null, int_of,
  text_or, text_or_empty,
}
use deep_agent_cli.Session.Status.{ToolStatus, subagent_result_status}
use deep_agent_cli.Prelude.Dict.{Dict, lookup}
use package.text.Mathlib.Text.{starts_with}
use deep_agent_cli.Python.{Python}
use deep_agent_cli.RunEvents.{TurnTiming}

pub data Message : Type 0 where
  human : String → List ℕ → Message
  ai : String → String → String → List Fields → Message
  tool_result : String → String → String → String → Value → Message
  other_message : Message

pub data BlockKind : Type 0 where
  user assistant tool turn_summary : BlockKind

pub record TranscriptBlock : Type 0 where
  pub kind : BlockKind
  pub content : String
  pub thinking : String
  pub tool_call_id : String
  pub name : String
  pub arguments : Fields
  pub is_error : Bool
  pub status : Option ToolStatus
  pub attachments : List ℕ
  pub exit_code : Option ℤ
  pub artifact : Value
  pub timing : Option TurnTiming

abbrev pub new_block : BlockKind → String → TranscriptBlock
new_block kind content = record {
  kind = kind;
  content = content;
  thinking = "";
  tool_call_id = "";
  name = "";
  arguments = end;
  is_error = false;
  status = none;
  attachments = [];
  exit_code = none;
  artifact = null;
  timing = none;
}

abbrev pub is_tool : BlockKind → Bool
is_tool tool = true
is_tool _ = false

-- `isinstance(v, int) and v != 0`: a Boolean is an `int` too.
abbrev pub is_nonzero : Value → Bool
is_nonzero (boolean b) = b
is_nonzero (int (pos zero)) = false
is_nonzero (int n) = true
is_nonzero _ = false

abbrev pub is_named : Value → String → Bool
is_named (text s) name = s == name
is_named _ name = false

-- What an `execute` artifact says of a failure.
abbrev pub reports_failure : String → Fields → Bool
reports_failure status d =
    status == "error"
    || not (is_null (get "termination_reason" d))
    || is_nonzero (get "exit_code" d)

abbrev pub error_text : Python → String → String → Bool
error_text py status content =
    status == "error"
    || starts_with (py.lower content) "error"
    || py.is_in "cancelled by user" (py.lower content)

-- The arguments are the status, the name, the text and the artifact of the message.
unfoldable pub tool_message_is_error : Python → String → String → String → Value → Bool
tool_message_is_error py status name content (object d) =
    if name == "execute" then reports_failure status d else error_text py status content
tool_message_is_error py status name content artifact = error_text py status content

-- The ids of the calls of `task` in one message.
abbrev pub task_calls : Python → List Fields → List String
task_calls py [] = []
task_calls py (call ∷ calls) =
    let rest = task_calls py calls in
    if is_named (get "name" call) "task"
    then text_or_empty py.to_text (get "id" call) ∷ rest
    else rest

unfoldable pub task_ids : Python → List Message → List String
task_ids py [] = []
task_ids py (ai id thinking content calls ∷ messages) = task_calls py calls ++ task_ids py messages
task_ids py (_ ∷ messages) = task_ids py messages

unfoldable pub call_block : Python → Fields → TranscriptBlock
call_block py call = record (new_block tool "") {
  tool_call_id = text_or_empty py.to_text (get "id" call);
  name = text_or py.to_text "tool" (get "name" call);
  arguments = fields_of (get "args" call);
  status = some ToolStatus.running;
}

-- The blocks of an answer: its text, its calls and the summary of its turn.
unfoldable pub answer_blocks :
    Python → Dict String TurnTiming → String → String → String → List Fields → List TranscriptBlock
answer_blocks py timings id thinking content calls =
    (if thinking == "" && content == ""
      then []
      else record (new_block assistant content) { thinking = thinking } ∷ [])
    ++ map (call_block py) calls
    ++ summaries (lookup id timings)
  where
    summaries : Option TurnTiming → List TranscriptBlock
    summaries none = []
    summaries (some t) = record (new_block turn_summary "") { timing = some t } ∷ []

abbrev pub is_bad : ToolStatus → Bool
is_bad ToolStatus.error = true
is_bad ToolStatus.cancelled = true
is_bad _ = false

abbrev exit_code_of : String → Value → Option ℤ
exit_code_of name (object d) = if name == "execute" then int_of (get "exit_code" d) else none
exit_code_of name _ = none

-- The card that a tool message stands for.
unfoldable pub result_block :
    Python → Bool → String → String → String → String → Value → TranscriptBlock
result_block py is_task id status name content artifact =
    let wrong = tool_message_is_error py status name content artifact in
    let outcome =
      if is_task
      then subagent_result_status py content wrong
      else if wrong
      then ToolStatus.error
      else ToolStatus.completed in
    record (new_block tool content) {
      tool_call_id = id;
      name = if is_task then "task" else if name == "" then "tool" else name;
      is_error = is_bad outcome;
      status = some outcome;
      exit_code = exit_code_of name artifact;
      artifact = artifact;
    }

-- What a result changes of the card of its call.
abbrev pub take_result : TranscriptBlock → TranscriptBlock → TranscriptBlock
take_result r b = record b {
  content = r.content;
  is_error = r.is_error;
  status = r.status;
  exit_code = r.exit_code;
  artifact = r.artifact;
}

abbrev pub is_card_of : String → TranscriptBlock → Bool
is_card_of id b = is_tool b.kind && b.tool_call_id == id

-- The last card with this id takes the result.
unfoldable pub settle_last : TranscriptBlock → List TranscriptBlock → Option (List TranscriptBlock)
settle_last r [] = none
settle_last r (b ∷ blocks) = elim (settle_last r blocks) [
  | some blocks' ↦ some (b ∷ blocks')
  | none ↦ if is_card_of r.tool_call_id b then some (take_result r b ∷ blocks) else none
]

unfoldable pub take_tool_result : TranscriptBlock → List TranscriptBlock → List TranscriptBlock
take_tool_result r blocks = elim (settle_last r blocks) [
  | some blocks' ↦ blocks'
  | none ↦ blocks ++ r ∷ []
]

unfoldable pub add_message :
    Python
    → Dict String TurnTiming
    → List String
    → Message
    → List TranscriptBlock
    → List TranscriptBlock
add_message py timings tasks (human content attachments) blocks =
    blocks ++ record (new_block user content) { attachments = attachments } ∷ []
add_message py timings tasks (ai id thinking content calls) blocks =
    blocks ++ answer_blocks py timings id thinking content calls
add_message py timings tasks (tool_result id status name content artifact) blocks =
    take_tool_result
      (result_block py (name == "task" || contains tasks id) id status name content artifact) blocks
add_message py timings tasks other_message blocks = blocks

unfoldable pub add_messages :
    Python
    → Dict String TurnTiming
    → List String
    → List Message
    → List TranscriptBlock
    → List TranscriptBlock
add_messages py timings tasks [] blocks = blocks
add_messages py timings tasks (m ∷ messages) blocks =
    add_messages py timings tasks messages (add_message py timings tasks m blocks)

unfoldable pub messages_to_transcript :
    Python → Dict String TurnTiming → List Message → List TranscriptBlock
messages_to_transcript py timings messages =
    add_messages py timings (task_ids py messages) messages []
