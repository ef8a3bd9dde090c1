-- ===== src/CliState/Blocks.antt =====
-- state.py: the blocks of the transcript and the state that holds them. A message block is an object
-- with identity, its `ref`: the active block is held by reference. `uuid` is a fresh identifier.
use deep_agent_cli.Prelude.{
  ℕ, suc, String, Bool, true, false, not, ◌&&◌, Option, none, List, [], ◌∷◌, ◌++◌, ◌==◌,
  nat_comparable, text_comparable, if◌then◌else◌,
}
use deep_agent_cli.Value.{ℤ, null, Value, Fields}
use deep_agent_cli.RunEvents.{TurnTiming}
use deep_agent_cli.Prelude.Dict.{insert, Dict}
use deep_agent_cli.Session.Status.{ToolStatus}

pub data MessageKind : Type 0 where
  user assistant system error : MessageKind

pub record MessageBlock : Type 0 where
  pub ref : ℕ
  pub kind : MessageKind
  pub content : String
  pub thinking : String
  pub id : String
  pub is_error : Bool
  pub pending : Bool
  pub attachments : List ℕ
  pub revision : ℕ
  pub styled_spans : List ℕ

pub record ToolBlock : Type 0 where
  pub tool_call_id : String
  pub name : String
  pub arguments : Fields
  pub output : String
  pub artifact : Value
  pub status : ToolStatus
  pub is_error : Bool
  pub revision : ℕ
  pub exit_code : Option ℤ

pub data Block : Type 0 where
  message : MessageBlock → Block
  tool : ToolBlock → Block
  summary : TurnTiming → Block

pub record CliState : Type 0 where
  pub blocks : List Block
  pub running : Bool
  pub compacting : Bool
  pub status : String
  pub thinking_collapsed : Bool
  pub tools_expanded : Bool
  pub messages_expanded : Bool
  pub active_block : Option ℕ
  pub pending_user_ids : Dict String String
  pub attachments : List ℕ
  pub usage : Dict String ℕ
  pub model_metrics_history : List Fields
  pub context_pristine : Bool
  pub next_ref : ℕ

-- `touch`
abbrev pub touch_message : MessageBlock → MessageBlock
touch_message b = record b { revision = suc b.revision }

abbrev pub touch_tool : ToolBlock → ToolBlock
touch_tool b = record b { revision = suc b.revision }

-- `MessageBlock(kind=…)` with the defaults of its other fields.
abbrev pub new_message : ℕ → MessageKind → String → String → MessageBlock
new_message ref kind content id = record {
  ref = ref;
  kind = kind;
  content = content;
  thinking = "";
  id = id;
  is_error = false;
  pending = false;
  attachments = [];
  revision = 0;
  styled_spans = [];
}

abbrev pub new_tool : String → String → Fields → ToolBlock
new_tool tool_call_id name arguments = record {
  tool_call_id = tool_call_id;
  name = name;
  arguments = arguments;
  output = "";
  artifact = null;
  status = ToolStatus.running;
  is_error = false;
  revision = 0;
  exit_code = none;
}

abbrev pub is_running : ToolStatus → Bool
is_running ToolStatus.running = true
is_running _ = false

abbrev pub is_settled : ToolStatus → Bool
is_settled ToolStatus.completed = true
is_settled ToolStatus.error = true
is_settled _ = false

abbrev pub is_unfinished : ToolStatus → Bool
is_unfinished ToolStatus.running = true
is_unfinished ToolStatus.waiting = true
is_unfinished _ = false

abbrev pub is_bad : ToolStatus → Bool
is_bad ToolStatus.error = true
is_bad ToolStatus.cancelled = true
is_bad _ = false

-- `subagent_count`
unfoldable pub subagent_count : List Block → ℕ
subagent_count [] = 0
subagent_count (tool t ∷ blocks) =
    let rest = subagent_count blocks in
    if t.name == "task" && is_running t.status then suc rest else rest
subagent_count (b ∷ blocks) = subagent_count blocks

-- `self.blocks.append(MessageBlock(…))`
unfoldable pub append_message : MessageBlock → CliState → CliState
append_message b s = record s { blocks = s.blocks ++ message b ∷ []; next_ref = suc s.next_ref }

unfoldable pub add_user : String → String → Bool → String → List ℕ → CliState → CliState
unfolding append_message insert
add_user uuid content pending message_id attachments s =
    let id = if message_id == "" then uuid else message_id in
    let b = record (new_message s.next_ref user content id) {
      pending = pending;
      attachments = attachments;
    } in
    let s' = record (append_message b s) { active_block = none } in
    if pending && not (message_id == "")
    then record s' { pending_user_ids = insert message_id id s'.pending_user_ids }
    else s'

unfoldable pub add_system : String → String → Bool → List ℕ → CliState → CliState
unfolding append_message
add_system uuid content is_error styled_spans s =
    append_message
      (record (new_message s.next_ref (if is_error then error else system) content uuid) {
        is_error = is_error;
        styled_spans = styled_spans;
      })
      s

unfoldable pub clear : Bool → CliState → CliState
clear preserve_model_metrics s = record s {
  blocks = [];
  active_block = none;
  pending_user_ids = [];
  usage = [];
  model_metrics_history = if preserve_model_metrics then s.model_metrics_history else [];
}

unfoldable pub load_model_metrics : List Fields → CliState → CliState
load_model_metrics history s = record s { model_metrics_history = history }
