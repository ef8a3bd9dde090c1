-- ===== src/Runner/Pending.antt =====
-- agent/runner.py: `_apply_pending_runtime_config`.
use deep_agent_cli.Prelude.{
  String, Bool, true, false, not, ◌&&◌, ◌||◌, Option, none, some, List, [], ◌∷◌, ◌++◌, map, ◌==◌,
  nat_comparable, text_comparable, if◌then◌else◌, is_some, contains,
}
use deep_agent_cli.Session.Catalogue.{touch}
use deep_agent_cli.Runner.Config.{
  profile_in, ConfigEvent, with_store, current_model, if_given, Failure, save_pending_config,
  SandboxMode, Config, config_applied, config_failed, effort_unavailable, mode_unavailable,
  model_unavailable, rebuild_failed, sandbox_failed,
}
use deep_agent_cli.Permission.{
  mode_value, allow_mode_available, ExecutionMode, PermissionMode, ask, allow,
}
use deep_agent_cli.SessionRuntime.Restore.{ModelProfile}
use deep_agent_cli.Python.{Python}

-- What is about to be put in force.
pub record Choice : Type 0 where
  pub profile : Option ModelProfile
  pub model_id : Option String
  pub mode : Option PermissionMode
  pub effort : Option String
  pub failures : List Failure

abbrev pub chosen_model :
    Option ModelProfile → Option ModelProfile → String → Option String → Choice
chosen_model current none id effort = record {
  profile = current;
  model_id = none;
  mode = none;
  effort = none;
  failures = model_unavailable ∷ [];
}
chosen_model current (some p) id effort = record {
  profile = some p;
  model_id = some id;
  mode = none;
  effort = some (if_given effort "default");
  failures = [];
}

-- Pending switches without an effort use the new model's default.
abbrev pub choose_model : Python → Option String → Config → Choice
choose_model py none c = record {
  profile = current_model py c;
  model_id = none;
  mode = none;
  effort = c.pending_reasoning_effort;
  failures = [];
}
choose_model py (some id) c =
    chosen_model (current_model py c) (profile_in py c.settings id) id c.pending_reasoning_effort

abbrev pub has_effort : Option ModelProfile → String → Bool
has_effort none effort = false
has_effort (some p) effort = contains p.reasoning_efforts effort

abbrev pub choose_effort : Choice → Choice
choose_effort ch = elim ch.effort [
  | none ↦ ch
  | some e ↦
      if e == "default" || has_effort ch.profile e
      then ch
      else record ch { effort = some "default"; failures = ch.failures ++ effort_unavailable ∷ [] }
]

abbrev pub choose_mode : Option PermissionMode → ExecutionMode → Choice → Choice
choose_mode none execution_mode ch = ch
choose_mode (some ask) execution_mode ch = record ch { mode = some ask }
choose_mode (some allow) execution_mode ch =
    if allow_mode_available execution_mode
    then record ch { mode = some allow }
    else record ch { failures = ch.failures ++ mode_unavailable ∷ [] }

unfoldable pub choose : Python → Config → Choice
choose py c =
    choose_mode c.pending_permission_mode c.execution_mode
      (choose_effort (choose_model py c.pending_model_id c))

-- After a failed rebuild nothing of the choice is left.
abbrev pub keep_choice : Bool → Choice → Choice
keep_choice false ch = ch
keep_choice true ch = record ch {
  model_id = none;
  mode = none;
  effort = none;
  failures = ch.failures ++ rebuild_failed ∷ [];
}

abbrev pub changes_agent : Bool → Choice → Bool
changes_agent mcp_dirty ch =
    is_some ch.model_id || is_some ch.mode || is_some ch.effort || mcp_dirty

abbrev pub id_of : Option ModelProfile → String → String
id_of none id = id
id_of (some p) id = p.id

abbrev pub model_after : Choice → Config → String
model_after ch c =
    if is_some ch.model_id then id_of ch.profile c.current_model_id else c.current_model_id

-- The catalogue learns of the configuration that was rebuilt.
abbrev pub record_choice : String → Choice → Config → Config
record_choice now ch c =
    with_store
      (touch now c.thread_id (record {
        title = none;
        model_id = some (model_after ch c);
        permission_mode = some (mode_value (if_given ch.mode c.permission_mode));
        last_run_status = none;
        reasoning_effort = some (if_given ch.effort c.reasoning_effort);
      }))
      c

abbrev pub commit : Choice → Config → Config
commit ch c = record c {
  current_model_id = model_after ch c;
  permission_mode = if_given ch.mode c.permission_mode;
  reasoning_effort = if_given ch.effort c.reasoning_effort;
}

-- The sandbox mode that was applied, if it was.
abbrev pub applied_sandbox : Bool → Option SandboxMode → Config → Option SandboxMode
applied_sandbox fails none c = none
applied_sandbox fails (some mode) c = if c.is_bubblewrap && not fails then some mode else none

abbrev pub clear_pending : Option SandboxMode → Config → Config
clear_pending applied c = record c {
  sandbox_mode = if_given applied c.sandbox_mode;
  pending_model_id = none;
  pending_permission_mode = none;
  pending_reasoning_effort = none;
  pending_sandbox_mode = none;
}

abbrev pub sandbox_failures : Option SandboxMode → Option SandboxMode → List Failure
sandbox_failures (some mode) none = sandbox_failed ∷ []
sandbox_failures _ _ = []

abbrev pub applied_event : Choice → Option SandboxMode → Bool → List ConfigEvent
applied_event ch sandbox mcp =
    if is_some ch.model_id || is_some ch.mode || is_some ch.effort || is_some sandbox || mcp
    then config_applied (record {
      reasoning_changed = is_some ch.effort;
      model_changed = is_some ch.model_id;
      permission_changed = is_some ch.mode;
      sandbox_changed = is_some sandbox;
      mcp_changed = mcp;
    })
      ∷ []
    else []

abbrev pub has_pending : Bool → Config → Bool
has_pending mcp_dirty c =
    is_some c.pending_model_id
    || is_some c.pending_permission_mode
    || is_some c.pending_reasoning_effort
    || is_some c.pending_sandbox_mode
    || mcp_dirty

module _ (now : String) (mcp_dirty rebuild_fails sandbox_fails : Bool) where
  abbrev pub failed_rebuild : Choice → Bool
  failed_rebuild ch = changes_agent mcp_dirty ch && rebuild_fails

  abbrev pub after_rebuild : Choice → Config → Config
  after_rebuild ch c =
      if changes_agent mcp_dirty ch && not rebuild_fails then record_choice now ch c else c

  abbrev pub apply_choice : Choice → Config → Config
  apply_choice ch c =
      let ch' = keep_choice (failed_rebuild ch) ch in
      save_pending_config now (
        clear_pending (applied_sandbox sandbox_fails c.pending_sandbox_mode c)
          (commit ch' (after_rebuild ch c)))

  abbrev pub choice_events : Choice → Config → List ConfigEvent
  choice_events ch c =
      let ch' = keep_choice (failed_rebuild ch) ch in
      let sandbox = applied_sandbox sandbox_fails c.pending_sandbox_mode c in
      map config_failed (ch'.failures ++ sandbox_failures c.pending_sandbox_mode sandbox)
      ++ applied_event ch' sandbox (mcp_dirty && not (failed_rebuild ch))

  unfoldable pub apply_pending_runtime_config : Python → Config → Config × List ConfigEvent
  unfolding choose save_pending_config touch
  apply_pending_runtime_config py c =
      if has_pending mcp_dirty c
      then (apply_choice (choose py c) c, choice_events (choose py c) c)
      else (c, [])
