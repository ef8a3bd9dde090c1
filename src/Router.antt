-- ===== src/Router.antt =====
-- agent/cli/input_actions.py: what Ctrl+C, Esc, Ctrl+D and /exit mean. Times are ticks of the
-- monotonic clock.
pub mod Interrupt
pub mod DoublePress
use deep_agent_cli.Prelude.{
  ℕ, ◌+◌, Bool, false, not, ◌&&◌, ◌||◌, Option, none, some, ltb, nat_comparable, text_comparable,
  if◌then◌else◌,
}

pub data InputAction : Type 0 where
  nothing dismiss_completion clear_slash_line follow_transcript cancel_completion : InputAction
  cancel_session_wait close_review exit_custom_entry cancel_interaction : InputAction
  wait_for_compaction cancel_run cancel_already_sent mcp_still_running clear_input : InputAction
  request_exit delete_after_cursor : InputAction

pub record InputView : Type 0 where
  pub has_interaction : Bool
  pub custom_entry : Bool
  pub completion_open : Bool
  pub slash_line : Bool
  pub transcript_away : Bool
  pub session_waiting : Bool
  pub reviewing : Bool
  pub compacting : Bool
  pub running : Bool
  pub cancel_sent : Bool
  pub mcp_busy : Bool
  pub buffer_empty : Bool
  pub exiting : Bool

pub record InputActionRouter : Type 0 where
  pub exit_window : ℕ
  pub last_ctrl_c : Option ℕ

-- The `any` of the exit test.
abbrev pub is_occupied : InputView → Bool
is_occupied v =
    v.has_interaction || v.completion_open || v.slash_line || v.transcript_away || v.session_waiting
    || v.reviewing || v.compacting || v.running || v.mcp_busy

unfoldable pub decide_interrupt : InputView → InputAction
decide_interrupt v =
    if v.exiting && not (is_occupied v)
    then nothing
    else if not v.has_interaction && v.completion_open
    then dismiss_completion
    else if not v.has_interaction && v.slash_line
    then clear_slash_line
    else if v.transcript_away
    then follow_transcript
    else if v.completion_open
    then cancel_completion
    else if v.session_waiting
    then cancel_session_wait
    else if v.reviewing
    then close_review
    else if v.has_interaction && v.custom_entry
    then exit_custom_entry
    else if v.has_interaction
    then cancel_interaction
    else if v.compacting
    then wait_for_compaction
    else if v.running
    then (if v.cancel_sent then cancel_already_sent else cancel_run)
    else if v.mcp_busy
    then mcp_still_running
    else nothing

-- `now - last_ctrl_c < exit_window`
abbrev pub is_within : Option ℕ → ℕ → ℕ → Bool
is_within none now window = false
is_within (some last) now window = ltb now (last + window)

unfoldable pub decide_clear_or_exit : InputActionRouter → InputView → ℕ → InputAction
decide_clear_or_exit r v now =
    if v.has_interaction
    then cancel_interaction
    else if is_within r.last_ctrl_c now r.exit_window
    then request_exit
    else clear_input

unfoldable pub arm_clear : ℕ → InputActionRouter → InputActionRouter
arm_clear now r = record r { last_ctrl_c = some now }

unfoldable pub decide_ctrl_d : InputView → InputAction
decide_ctrl_d v = if v.buffer_empty then request_exit else delete_after_cursor

unfoldable pub decide_exit_command : InputAction
decide_exit_command = request_exit

abbrev arm_on_clear : InputAction → ℕ → InputActionRouter → InputActionRouter
arm_on_clear clear_input now r = arm_clear now r
arm_on_clear _ now r = r

-- The key handler `ctrl_c` of app.py: only a clear arms the window.
unfoldable pub ctrl_c : InputView → ℕ → InputActionRouter → InputAction × InputActionRouter
unfolding decide_clear_or_exit arm_clear
ctrl_c v now r = let action = decide_clear_or_exit r v now in (action, arm_on_clear action now r)
