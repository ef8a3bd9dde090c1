-- ===== src/CliState/Restore.antt =====
-- state.py: `load_transcript`, the state that shows a saved conversation. `uuids` gives the fresh
-- identifier of each new message.
use deep_agent_cli.Prelude.{
  ℕ, ◌+◌, String, ◌≡◌, refl, ◌∙◌, Bool, true, false, Option, none, some, List, [], ◌∷◌, ◌++◌, arith,
  ◌==◌, nat_comparable, text_comparable, if◌then◌else◌,
}
use deep_agent_cli.CliState.Blocks.{
  is_running, MessageKind, new_message, new_tool, CliState, ToolBlock, Block, clear, append_message,
  message, summary, subagent_count,
}
use deep_agent_cli.Session.Transcript.{
  messages_to_transcript, Message, BlockKind, TranscriptBlock, turn_summary,
}
use deep_agent_cli.Prelude.Dict.{Dict}
use deep_agent_cli.Session.Status.{ToolStatus}
use deep_agent_cli.RunEvents.{TurnTiming}
use deep_agent_cli.Python.{Python}
use deep_agent_cli.Session.Restored.{
  settle_restored_tools-AllSettled, settle_restored_tools, AllSettled, still_runs,
}

abbrev pub status_or : Option ToolStatus → Bool → ToolStatus
status_or (some t) is_error = t
status_or none true = ToolStatus.error
status_or none false = ToolStatus.completed

unfoldable pub load_tool : TranscriptBlock → ToolBlock
load_tool b =
    record (new_tool b.tool_call_id (if b.name == "" then "tool" else b.name) b.arguments) {
      output = b.content;
      artifact = b.artifact;
      status = status_or b.status b.is_error;
      is_error = b.is_error;
      exit_code = b.exit_code;
    }

abbrev append_summary : Option TurnTiming → CliState → CliState
append_summary none s = s
append_summary (some t) s = record s { blocks = s.blocks ++ summary t ∷ [] }

unfoldable pub load_block : (ℕ → String) → BlockKind → TranscriptBlock → CliState → CliState
unfolding append_message load_tool
load_block uuids turn_summary b s = append_summary b.timing s
load_block uuids BlockKind.user b s =
    append_message
      (record (new_message s.next_ref MessageKind.user b.content (uuids s.next_ref)) {
        attachments = b.attachments;
      })
      s
load_block uuids BlockKind.assistant b s =
    append_message
      (record (new_message s.next_ref MessageKind.assistant b.content (uuids s.next_ref)) {
        thinking = b.thinking;
      })
      s
load_block uuids BlockKind.tool b s = record s {
  blocks = s.blocks ++ Block.tool (load_tool b) ∷ [];
}

unfoldable pub load_blocks : (ℕ → String) → List TranscriptBlock → CliState → CliState
load_blocks uuids [] s = s
load_blocks uuids (b ∷ blocks) s = load_blocks uuids blocks (load_block uuids b.kind b s)

abbrev is_empty {ℓ} : {A : Type ℓ} → List A → Bool
is_empty [] = true
is_empty (x ∷ xs) = false

unfoldable pub load_transcript : (ℕ → String) → List TranscriptBlock → CliState → CliState
unfolding clear
load_transcript uuids blocks s =
    load_blocks uuids blocks (record (clear false s) { context_pristine = is_empty blocks })

pub subagent_count-append :
    (xs ys : List Block) → subagent_count (xs ++ ys) ≡ subagent_count xs + subagent_count ys
unfolding subagent_count
subagent_count-append [] ys = omega arith
subagent_count-append (message b ∷ xs) ys = subagent_count-append xs ys
subagent_count-append (summary t ∷ xs) ys = subagent_count-append xs ys
subagent_count-append (Block.tool t ∷ xs) ys = ground (arith, subagent_count-append xs ys)

load_tool-idle :
    (b : TranscriptBlock) (kind : b.kind ≡ BlockKind.tool)
    → still_runs b ≡ false
    → is_running (load_tool b).status ≡ false
unfolding load_tool
load_tool-idle b kind idle = ground (arith, idle, kind)

append_summary-subagent_count :
    (t : Option TurnTiming) (s : CliState)
    → subagent_count (append_summary t s).blocks ≡ subagent_count s.blocks
unfolding subagent_count
append_summary-subagent_count none s = refl
append_summary-subagent_count (some t) s =
    omega (arith, subagent_count-append s.blocks (summary t ∷ []))

load_block-subagent_count :
    (uuids : ℕ → String) (kind : BlockKind) (b : TranscriptBlock) (s : CliState)
    → b.kind ≡ kind
    → still_runs b ≡ false
    → subagent_count (load_block uuids kind b s).blocks ≡ subagent_count s.blocks
unfolding load_block append_message subagent_count
load_block-subagent_count uuids turn_summary b s same idle =
    append_summary-subagent_count b.timing s
load_block-subagent_count uuids BlockKind.user b s same idle =
    omega (arith, subagent_count-append s.blocks (message _ ∷ []))
load_block-subagent_count uuids BlockKind.assistant b s same idle =
    omega (arith, subagent_count-append s.blocks (message _ ∷ []))
load_block-subagent_count uuids BlockKind.tool b s same idle = ground (
  arith,
  subagent_count-append s.blocks (Block.tool (load_tool b) ∷ []),
  load_tool-idle b same idle,
)

load_blocks-subagent_count :
    (uuids : ℕ → String) (blocks : List TranscriptBlock) (s : CliState)
    → AllSettled blocks
    → subagent_count (load_blocks uuids blocks s).blocks ≡ subagent_count s.blocks
unfolding load_blocks
load_blocks-subagent_count uuids [] s idle = refl
load_blocks-subagent_count uuids (b ∷ blocks) s idle =
    load_blocks-subagent_count uuids blocks (load_block uuids b.kind b s) idle.1
    ∙ load_block-subagent_count uuids b.kind b s refl idle.0

-- A saved conversation is shown without a running subagent, whatever its messages are and whatever
-- was shown before.
pub restored_idle :
    (py : Python) (uuids : ℕ → String) (timings : Dict String TurnTiming) (messages : List Message)
    (waiting_ids : List String) (waiting_human : Bool) (s : CliState)
    → subagent_count
        (load_transcript uuids
          (settle_restored_tools waiting_ids waiting_human
            (messages_to_transcript py timings messages))
          s).blocks
      ≡ 0
unfolding load_transcript clear subagent_count
restored_idle py uuids timings messages waiting_ids waiting_human s =
    load_blocks-subagent_count uuids
      (settle_restored_tools waiting_ids waiting_human (messages_to_transcript py timings messages))
      _
      (settle_restored_tools-AllSettled waiting_ids waiting_human
        (messages_to_transcript py timings messages))
