-- ===== src/CliState/Ends.antt =====
-- state.py: no tool card outlives the end of its run.
use deep_agent_cli.Prelude.{
  Bool-cases, ℕ, String, ◌≡◌, inl, inr, refl, Bool, true, false, not, ◌&&◌, List, [], ◌∷◌, ◌++◌,
  arith, ◌==◌, nat_comparable, text_comparable, if◌then◌else◌,
}
use deep_agent_cli.CliState.Blocks.{
  summary, add_system, MessageBlock, message, tool, is_running, is_unfinished, CliState, Block,
  subagent_count, ToolBlock,
}
use deep_agent_cli.CliState.Settling.{
  has_assistant_text, interaction_settlement, settle_card, cancel_card, fail_card, interrupt_card,
  request_interaction, cancel_run, fail_run, complete_run, show_answer, map_cards,
}
use deep_agent_cli.RunEvents.{
  interaction_requested, run_cancelled, run_failed, RunEvent, run_completed, EventKind,
}
use deep_agent_cli.Python.{Python}
use deep_agent_cli.CliState.Apply.{ends_compaction, dispatch, apply}

-- Every tool card passes.
abbrev pub AllCards : (ToolBlock → Type 0) → List Block → Type 0
AllCards P [] = Unit
AllCards P (tool t ∷ blocks) = P t × AllCards P blocks
AllCards P (b ∷ blocks) = AllCards P blocks

map_cards-AllCards :
    (P : ToolBlock → Type 0) (f : ToolBlock → ToolBlock)
    → ((t : ToolBlock) → P (f t))
    → (blocks : List Block) → AllCards P (map_cards f blocks)
unfolding map_cards
map_cards-AllCards P f h [] = tt
map_cards-AllCards P f h (message b ∷ blocks) = map_cards-AllCards P f h blocks
map_cards-AllCards P f h (tool t ∷ blocks) = (h t, map_cards-AllCards P f h blocks)
map_cards-AllCards P f h (summary x ∷ blocks) = map_cards-AllCards P f h blocks

AllCards-append_message :
    (P : ToolBlock → Type 0) (blocks : List Block) (b : MessageBlock)
    → AllCards P blocks
    → AllCards P (blocks ++ message b ∷ [])
AllCards-append_message P [] b h = tt
AllCards-append_message P (message c ∷ blocks) b h = AllCards-append_message P blocks b h
AllCards-append_message P (tool t ∷ blocks) b h = (h.0, AllCards-append_message P blocks b h.1)
AllCards-append_message P (summary x ∷ blocks) b h = AllCards-append_message P blocks b h

show_answer-AllCards :
    (P : ToolBlock → Type 0) (uuid content : String) (s : CliState)
    → AllCards P s.blocks
    → AllCards P (show_answer uuid content s).blocks
unfolding show_answer
show_answer-AllCards P uuid content s h =
    elim (Bool-cases (not (content == "") && not (has_assistant_text content s.blocks))) [
      | inl absent ↦ rw absent (AllCards-append_message P s.blocks _ h)
      | inr shown ↦ rw shown h
    ]

abbrev pub Finished : ToolBlock → Type 0
Finished t = is_unfinished t.status ≡ false

abbrev pub Stopped : ToolBlock → Type 0
Stopped t = is_running t.status ≡ false

subagent_count-Stopped : (blocks : List Block) → AllCards Stopped blocks → subagent_count blocks ≡ 0
unfolding subagent_count
subagent_count-Stopped [] h = refl
subagent_count-Stopped (message b ∷ blocks) h = subagent_count-Stopped blocks h
subagent_count-Stopped (tool t ∷ blocks) h = ground (arith, subagent_count-Stopped blocks h.1)
subagent_count-Stopped (summary x ∷ blocks) h = subagent_count-Stopped blocks h

AllCards-mono :
    (P Q : ToolBlock → Type 0)
    → ((t : ToolBlock) → P t → Q t)
    → (blocks : List Block) → AllCards P blocks
    → AllCards Q blocks
AllCards-mono P Q f [] h = tt
AllCards-mono P Q f (message b ∷ blocks) h = AllCards-mono P Q f blocks h
AllCards-mono P Q f (tool t ∷ blocks) h = (f t h.0, AllCards-mono P Q f blocks h.1)
AllCards-mono P Q f (summary x ∷ blocks) h = AllCards-mono P Q f blocks h

Finished-Stopped : (t : ToolBlock) → Finished t → Stopped t
Finished-Stopped t h = ground arith

add_system-AllCards :
    (P : ToolBlock → Type 0) (uuid content : String) (is_error : Bool) (spans : List ℕ)
    (s : CliState)
    → AllCards P s.blocks
    → AllCards P (add_system uuid content is_error spans s).blocks
unfolding add_system
add_system-AllCards P uuid content is_error spans s h = AllCards-append_message P s.blocks _ h

complete_run-Finished :
    (uuid : String) (e : RunEvent) (s : CliState) → AllCards Finished (complete_run uuid e s).blocks
unfolding complete_run interrupt_card
complete_run-Finished uuid e s =
    show_answer-AllCards Finished uuid e.content _
      (map_cards-AllCards Finished interrupt_card (λ t. ground arith) s.blocks)

fail_run-Finished :
    (uuid : String) (e : RunEvent) (s : CliState) → AllCards Finished (fail_run uuid e s).blocks
unfolding fail_run fail_card
fail_run-Finished uuid e s =
    add_system-AllCards Finished uuid _ true [] _
      (map_cards-AllCards Finished fail_card (λ t. ground arith) s.blocks)

cancel_run-Stopped : (uuid : String) (s : CliState) → AllCards Stopped (cancel_run uuid s).blocks
unfolding cancel_run cancel_card
cancel_run-Stopped uuid s =
    add_system-AllCards Stopped uuid _ true [] _
      (map_cards-AllCards Stopped cancel_card (λ t. ground arith) s.blocks)

request_interaction-Stopped :
    (e : RunEvent) (s : CliState) → AllCards Stopped (request_interaction e s).blocks
unfolding request_interaction settle_card interaction_settlement
request_interaction-Stopped e s =
    map_cards-AllCards Stopped (settle_card e.result) (λ t. ground arith) s.blocks

abbrev pub ends_run : EventKind → Bool
ends_run run_completed = true
ends_run run_failed = true
ends_run run_cancelled = true
ends_run interaction_requested = true
ends_run _ = false

abbrev Settled : CliState → Type 0
Settled s = AllCards Stopped s.blocks × (s.running ≡ false) × (s.compacting ≡ false)

dispatch-Settled :
    (py : Python) (uuid : String) (e : RunEvent) (k : EventKind) (s : CliState)
    → ends_run k ≡ true
    → s.compacting ≡ false
    → Settled (dispatch py uuid e k s)
unfolding dispatch
dispatch-Settled py uuid e run_completed s h c =
    let finished = complete_run-Finished uuid e s in
    (
      AllCards-mono Finished Stopped Finished-Stopped (complete_run uuid e s).blocks finished,
      unfold complete_run show_answer in ground arith,
      unfold complete_run show_answer in ground arith,
    )
dispatch-Settled py uuid e run_failed s h c =
    let finished = fail_run-Finished uuid e s in
    (
      AllCards-mono Finished Stopped Finished-Stopped (fail_run uuid e s).blocks finished,
      unfold fail_run add_system in refl,
      unfold fail_run add_system in c,
    )
dispatch-Settled py uuid e run_cancelled s h c = (
  cancel_run-Stopped uuid s,
  unfold cancel_run add_system in refl,
  unfold cancel_run add_system in c,
)
dispatch-Settled py uuid e interaction_requested s h c = (
  request_interaction-Stopped e s,
  unfold request_interaction in refl,
  unfold request_interaction in c,
)
dispatch-Settled py uuid e _ s h c = absurd (ground arith)

compacting_ended :
    (k : EventKind) (s : CliState)
    → ends_run k ≡ true
    → (if ends_compaction k then record s { compacting = false } else s).compacting ≡ false
compacting_ended run_completed s h = refl
compacting_ended run_failed s h = refl
compacting_ended run_cancelled s h = refl
compacting_ended interaction_requested s h = refl
compacting_ended _ s h = absurd (ground arith)

-- When a run completes, fails, is cancelled or stops for an interaction, no tool card is left
-- running, no subagent is counted, and the state is not running or compacting.
pub run_end_settles :
    (py : Python) (uuid : String) (e : RunEvent) (s : CliState)
    → ends_run e.kind ≡ true
    → let s' = apply py uuid e s in
      AllCards Stopped s'.blocks
      × (subagent_count s'.blocks ≡ 0)
      × (s'.running ≡ false)
      × (s'.compacting ≡ false)
unfolding apply
run_end_settles py uuid e s h =
    let settled = dispatch-Settled py uuid e e.kind _ h (compacting_ended e.kind s h) in
    (settled.0, subagent_count-Stopped _ settled.0, settled.1, settled.2)
