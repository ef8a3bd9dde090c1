-- ===== src/CliState/Cards.antt =====
-- state.py: finding a tool card, and what the tool events write into it.
use deep_agent_cli.Prelude.{
  String, Bool, true, false, not, ◌&&◌, ◌||◌, Option, List, [], ◌∷◌, ◌++◌, ◌==◌, nat_comparable,
  text_comparable, if◌then◌else◌,
}
use text.Mathlib.Text.{starts_with}
use Prim.Native.String.{◌++◌ as ◌<>◌}
use deep_agent_cli.CliState.Blocks.{
  is_bad, new_tool, touch_tool, is_settled, tool, is_running, Block, ToolBlock,
}
use deep_agent_cli.Value.{
  fields_of, boolean, int_of, truthy, is_true, object, ℤ, is_object, end, get, set_field, Fields,
}
use deep_agent_cli.RunEvents.{RunEvent}
use deep_agent_cli.Python.{Python}
use deep_agent_cli.Session.Status.{ToolStatus, subagent_result_status}

abbrev pub has_id : String → ToolBlock → Bool
has_id id t = t.tool_call_id == id

abbrev pub card_runs : ToolBlock → Bool
card_runs t = is_running t.status

-- Some tool card passes the test.
unfoldable pub has_card : (ToolBlock → Bool) → List Block → Bool
has_card p [] = false
has_card p (tool t ∷ blocks) = p t || has_card p blocks
has_card p (b ∷ blocks) = has_card p blocks

-- The last tool card that passes, which the searches over `reversed(self.blocks)` find, is changed
-- in place.
unfoldable pub modify_last : (ToolBlock → Bool) → (ToolBlock → ToolBlock) → List Block → List Block
unfolding has_card
modify_last p f [] = []
modify_last p f (tool t ∷ blocks) =
    let rest = modify_last p f blocks in
    if has_card p blocks
    then tool t ∷ rest
    else if p t
    then tool (f t) ∷ blocks
    else tool t ∷ blocks
modify_last p f (b ∷ blocks) = b ∷ modify_last p f blocks

-- The card that is found is changed; without one a new card is appended, changed likewise.
unfoldable pub change_card :
    (ToolBlock → Bool) → ToolBlock → (ToolBlock → ToolBlock) → List Block → List Block
unfolding modify_last
change_card p created f blocks =
    if has_card p blocks then modify_last p f blocks else blocks ++ tool (f created) ∷ []

-- `_tool`: without an identifier the running card.
abbrev pub find_tool : String → ToolBlock → Bool
find_tool id t = if id == "" then card_runs t else has_id id t

-- `_tool_by_id`: an exact match only.
abbrev pub find_by_id : String → ToolBlock → Bool
find_by_id id t = if id == "" then false else has_id id t

-- `self._tool(id) or self._running_tool()`
abbrev pub find_for_output : String → List Block → ToolBlock → Bool
find_for_output id blocks = if has_card (find_tool id) blocks then find_tool id else card_runs

abbrev or_fields : Fields → Fields → Fields
or_fields end d = d
or_fields c d = c

-- A replayed start leaves a card that is completed or in error alone.
unfoldable pub restart : RunEvent → ToolBlock → ToolBlock
restart e t = if is_settled t.status then t else record (touch_tool t) {
  name = if e.name == "" then t.name else e.name;
  arguments = or_fields e.arguments t.arguments;
  status = ToolStatus.running;
}

unfoldable pub tool_started : RunEvent → List Block → List Block
unfolding modify_last
tool_started e blocks =
    let p = find_by_id e.tool_call_id in
    if has_card p blocks
    then modify_last p (restart e) blocks
    else blocks ++ tool (new_tool e.tool_call_id e.name e.arguments) ∷ []

unfoldable pub take_output : RunEvent → ToolBlock → ToolBlock
unfolding set_field
take_output e t =
    if e.stream == "tail_snapshot" && t.name == "execute"
    then record (touch_tool t) {
      output = e.content;
      artifact = object (set_field "truncated" (boolean true) (fields_of t.artifact));
    }
    else record (touch_tool t) { output = t.output <> e.content }

unfoldable pub tool_output_delta : RunEvent → List Block → List Block
tool_output_delta e blocks =
    change_card (find_for_output e.tool_call_id blocks)
      (new_tool e.tool_call_id (if e.name == "" then "tool" else e.name) end) (take_output e) blocks

abbrev had_tail_snapshot : RunEvent → ToolBlock → Bool
had_tail_snapshot e t =
    e.name == "execute"
    && (is_object t.artifact && is_true (get "truncated" (fields_of t.artifact)))

abbrev completed_output : RunEvent → ToolBlock → String
completed_output e t =
    if e.name == "execute" && is_object e.artifact
    then (if truthy (get "truncated" (fields_of e.artifact))
          && (not (had_tail_snapshot e t) && not (e.content == ""))
        then e.content
        else if t.output == ""
        then e.content
        else t.output)
    else if not (e.content == "") && (t.output == "" || starts_with e.content t.output)
    then e.content
    else t.output

abbrev completed_exit_code : RunEvent → ToolBlock → Option ℤ
completed_exit_code e t =
    if e.name == "execute" && is_object e.artifact
    then int_of (get "exit_code" (fields_of e.artifact))
    else t.exit_code

-- The result of a completed tool; the card of a task reads the envelope of the subagent.
unfoldable pub complete : Python → RunEvent → ToolBlock → ToolBlock
unfolding get
complete py e t =
    let task_status = subagent_result_status py e.content e.is_error in
    let is_task = t.name == "task" in
    record (touch_tool t) {
      artifact = if is_object e.artifact then e.artifact else t.artifact;
      output = if is_task then e.content else completed_output e t;
      status =
          if is_task
          then task_status
          else if e.is_error
          then ToolStatus.error
          else ToolStatus.completed;
      is_error = if is_task then is_bad task_status else e.is_error;
      exit_code = completed_exit_code e t;
    }

unfoldable pub tool_completed : Python → RunEvent → List Block → List Block
tool_completed py e blocks =
    change_card (find_tool e.tool_call_id) (new_tool e.tool_call_id e.name end) (complete py e)
      blocks
