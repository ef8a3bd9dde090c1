-- ===== src/Session/Status.antt =====
-- agent/session.py: stop reasons, statuses, and the status of a subagent's result.
use deep_agent_cli.Prelude.{String, Bool, ◌||◌, nat_comparable, text_comparable, if◌then◌else◌}
use text.Mathlib.Text.{starts_with}
use deep_agent_cli.Python.{Python}

pub data StopReason : Type 0 where
  pending stop error aborted deferred : StopReason

pub data SessionStatus : Type 0 where
  running completed waiting cancelled failed : SessionStatus

unfoldable pub status_for_reason : StopReason → SessionStatus
status_for_reason pending = running
status_for_reason stop = completed
status_for_reason error = failed
status_for_reason aborted = cancelled
status_for_reason deferred = waiting

-- The statuses of a tool card; the empty text is `none` where a status can be missing.
pub data ToolStatus : Type 0 where
  running completed error cancelled waiting interrupted : ToolStatus

-- The envelopes of the runtime decide, never text inside an answer.
unfoldable pub subagent_result_status : Python → String → Bool → ToolStatus
subagent_result_status py content is_error =
    let text = py.lower (py.lstrip content) in
    if starts_with text "subagent cancelled:" || starts_with text "subagent cancelled ("
    then ToolStatus.cancelled
    else if is_error
        || (starts_with text "subagent failed:" || starts_with text "subagent failed (")
    then ToolStatus.error
    else ToolStatus.completed
