-- ===== src/Session/Restored.antt =====
-- agent/session.py: tool calls without results when a saved checkpoint is shown.
use deep_agent_cli.Prelude.{
  String, ◌≡◌, Bool, true, false, ◌&&◌, ◌||◌, Option, some, List, [], ◌∷◌, arith, ◌==◌,
  nat_comparable, text_comparable, if◌then◌else◌, All, contains,
}
use deep_agent_cli.Session.Transcript.{is_tool, TranscriptBlock}
use deep_agent_cli.Session.Status.{ToolStatus}

abbrev pub still_runs : TranscriptBlock → Bool
still_runs b = is_tool b.kind && runs b.status
  where
    runs : Option ToolStatus → Bool
    runs (some ToolStatus.running) = true
    runs _ = false

unfoldable pub settle_restored : List String → Bool → TranscriptBlock → TranscriptBlock
settle_restored waiting_ids waiting_human b =
    if still_runs b
    then record b {
      status = some (
          if contains waiting_ids b.tool_call_id
            || (waiting_human && b.name == "request_human_input")
          then ToolStatus.waiting
          else ToolStatus.interrupted);
    }
    else b

unfoldable pub settle_restored_tools :
    List String → Bool → List TranscriptBlock → List TranscriptBlock
settle_restored_tools waiting_ids waiting_human [] = []
settle_restored_tools waiting_ids waiting_human (b ∷ blocks) =
    settle_restored waiting_ids waiting_human b
    ∷ settle_restored_tools waiting_ids waiting_human blocks

-- No tool card of the transcript is still running.
abbrev pub AllSettled : List TranscriptBlock → Type 0
AllSettled blocks = All (λ b. still_runs b ≡ false) blocks

pub settle_restored-still_runs :
    (ids : List String) (h : Bool) (b : TranscriptBlock)
    → still_runs (settle_restored ids h b) ≡ false
unfolding settle_restored
settle_restored-still_runs ids h b = ground arith

pub settle_restored_tools-AllSettled :
    (ids : List String) (h : Bool) (blocks : List TranscriptBlock)
    → AllSettled (settle_restored_tools ids h blocks)
unfolding settle_restored_tools
settle_restored_tools-AllSettled ids h [] = tt
settle_restored_tools-AllSettled ids h (b ∷ blocks) =
    (settle_restored-still_runs ids h b, settle_restored_tools-AllSettled ids h blocks)
