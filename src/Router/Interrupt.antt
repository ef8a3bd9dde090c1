-- ===== src/Router/Interrupt.antt =====
-- input_actions.py: the policy of Esc.
use deep_agent_cli.Prelude.{
  ◌≡◌, ◌≢◌, ◌↔◌, Bool, true, false, arith, nat_comparable, text_comparable,
}
use deep_agent_cli.Router.{
  delete_after_cursor, clear_input, is_occupied, request_exit, nothing, cancel_run,
  decide_interrupt, InputView,
}

module _ (v : InputView) where
  -- Esc cancels the run exactly when a run is active whose cancel was not sent and nothing that
  -- goes before it is in the way: no interaction, completion, slash line, scrolled transcript,
  -- session wait, review or compaction.
  pub interrupt_cancels_run : (decide_interrupt v ≡ cancel_run) ↔ (
      (v.running ≡ true)
      × (v.cancel_sent ≡ false)
      × (v.has_interaction ≡ false)
      × (v.completion_open ≡ false)
      × (v.slash_line ≡ false)
      × (v.transcript_away ≡ false)
      × (v.session_waiting ≡ false)
      × (v.reviewing ≡ false)
      × (v.compacting ≡ false))
  unfolding decide_interrupt
  interrupt_cancels_run = (λ e. ground arith, λ h. ground arith)

  -- An exit in progress does not change what Esc does.
  pub interrupt_ignores_exit :
      (b : Bool) → decide_interrupt (record v { exiting = b }) ≡ decide_interrupt v
  unfolding decide_interrupt
  interrupt_ignores_exit b = ground arith

  -- Esc does nothing exactly when nothing of the nine occupied states holds.
  pub interrupt_does_nothing : (decide_interrupt v ≡ nothing) ↔ (is_occupied v ≡ false)
  unfolding decide_interrupt
  interrupt_does_nothing = (λ e. ground arith, λ h. ground arith)

  -- Esc never leaves the program, clears the input or deletes.
  pub interrupt_never_exits :
      (decide_interrupt v ≢ request_exit)
      × (decide_interrupt v ≢ clear_input)
      × (decide_interrupt v ≢ delete_after_cursor)
  unfolding decide_interrupt
  interrupt_never_exits = (λ e. ground arith, λ e. ground arith, λ e. ground arith)
