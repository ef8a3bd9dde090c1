-- ===== src/Runner/Config.antt =====
-- agent/runner.py: the model, the permission mode, the effort and the sandbox mode in force, and the
-- changes that wait for a safe point. `build_chat_model` and `build_agent` are other code's: whether
-- they fail is an argument. A method that holds `_pending_config_lock` is one step.
use deep_agent_cli.Prelude.{
  String, ◌⊎◌, inl, inr, Bool, true, false, not, ◌&&◌, ◌||◌, Option, none, some, ◌==◌,
  nat_comparable, text_comparable, if◌then◌else◌, or_else, is_some, contains,
}
use deep_agent_cli.Permission.{
  ExecutionMode, allow_mode_available, PermissionMode, ask, allow, parse_permission_mode,
  mode_value,
}
use deep_agent_cli.SessionRuntime.Restore.{Settings, ModelProfile, get_profile}
use mathlib.Core.Option
use deep_agent_cli.Session.Catalogue.{SessionStore, set_pending_config}
use deep_agent_cli.Python.{Python}

pub data SandboxMode : Type 0 where
  restricted full_access : SandboxMode

-- `owns_session` says whether `_require_active_session` passes.
pub record Config : Type 0 where
  pub closed : Bool
  pub owns_session : Bool
  pub session_store : Option SessionStore
  pub thread_id : String
  pub settings : Option Settings
  pub active_profile : ModelProfile
  pub execution_mode : ExecutionMode
  pub is_bubblewrap : Bool
  pub current_model_id : String
  pub permission_mode : PermissionMode
  pub reasoning_effort : String
  pub sandbox_mode : SandboxMode
  pub pending_model_id : Option String
  pub pending_permission_mode : Option PermissionMode
  pub pending_reasoning_effort : Option String
  pub pending_sandbox_mode : Option SandboxMode

-- The errors of a request.
pub data RequestError : Type 0 where
  runner_closed no_session no_settings unknown_model unknown_mode : RequestError
  unsupported_effort allow_unavailable unknown_sandbox_mode : RequestError

pub data Failure : Type 0 where
  model_unavailable effort_unavailable mode_unavailable rebuild_failed sandbox_failed : Failure

pub record Applied : Type 0 where
  pub reasoning_changed : Bool
  pub model_changed : Bool
  pub permission_changed : Bool
  pub sandbox_changed : Bool
  pub mcp_changed : Bool

-- The events `runtime_config_failed` and `runtime_config_applied`.
pub data ConfigEvent : Type 0 where
  config_failed : Failure → ConfigEvent
  config_applied : Applied → ConfigEvent

abbrev pub same_mode : PermissionMode → PermissionMode → Bool
same_mode ask ask = true
same_mode allow allow = true
same_mode _ _ = false

abbrev pub same_sandbox : SandboxMode → SandboxMode → Bool
same_sandbox restricted restricted = true
same_sandbox full_access full_access = true
same_sandbox _ _ = false

abbrev pub mode_text : Option PermissionMode → Option String
mode_text none = none
mode_text (some m) = some (mode_value m)

abbrev pub with_store : (SessionStore → SessionStore) → Config → Config
with_store f c = record c { session_store = Option.map f c.session_store }

-- `now` is the clock. The database raises no error here.
unfoldable pub save_pending_config : String → Config → Config
unfolding set_pending_config
save_pending_config now c =
    with_store
      (set_pending_config now c.thread_id c.pending_model_id (mode_text c.pending_permission_mode)
        c.pending_reasoning_effort)
      c

abbrev pub profile_in : Python → Option Settings → String → Option ModelProfile
profile_in py none id = none
profile_in py (some settings) id = get_profile py settings id

-- The active profile stands in for a model that is gone.
abbrev pub current_model : Python → Config → Option ModelProfile
current_model py c =
    if is_some c.settings
    then or_else (profile_in py c.settings c.current_model_id) (some c.active_profile)
    else none

abbrev pub if_given {ℓ} : {A : Type ℓ} → Option A → A → A
if_given (some a) b = a
if_given none b = b

-- The effort that a request for the model `p` stands for.
abbrev pub wanted_effort : Option String → ModelProfile → Config → String
wanted_effort effort p c =
    if_given effort (if p.id == c.current_model_id then c.reasoning_effort else "default")

abbrev pub is_supported : ModelProfile → String → Bool
is_supported p effort = effort == "default" || contains p.reasoning_efforts effort

abbrev pub set_pending_model : ModelProfile → String → Config → Config
set_pending_model p effort c =
    let other = not (p.id == c.current_model_id) in
    record c {
      pending_model_id = if other then some p.id else none;
      pending_reasoning_effort =
          if other || not (effort == c.reasoning_effort) then some effort else none;
    }

abbrev pub queue_model :
    String → Option ModelProfile → Option String → Config → RequestError ⊎ Config
queue_model now none effort c = inl unknown_model
queue_model now (some p) effort c =
    if is_supported p (wanted_effort effort p c)
    then inr (save_pending_config now (set_pending_model p (wanted_effort effort p c) c))
    else inl unsupported_effort

unfoldable pub request_model_change :
    Python → String → String → Option String → Config → RequestError ⊎ Config
unfolding save_pending_config
request_model_change py now id effort c =
    if c.closed
    then inl runner_closed
    else if not c.owns_session
    then inl no_session
    else if not (is_some c.settings)
    then inl no_settings
    else queue_model now (profile_in py c.settings id) effort c

abbrev pub set_pending_mode : PermissionMode → Config → Config
set_pending_mode mode c = record c {
  pending_permission_mode = if same_mode mode c.permission_mode then none else some mode;
}

abbrev pub queue_mode : String → Option PermissionMode → Config → RequestError ⊎ Config
queue_mode now none c = inl unknown_mode
queue_mode now (some mode) c =
    if same_mode mode allow && not (allow_mode_available c.execution_mode)
    then inl allow_unavailable
    else inr (save_pending_config now (set_pending_mode mode c))

-- The mode that is asked for, as a text.
unfoldable pub request_permission_change :
    (String → String) → String → String → Config → RequestError ⊎ Config
unfolding save_pending_config
request_permission_change normalize now mode c =
    if c.closed
    then inl runner_closed
    else if not c.owns_session
    then inl no_session
    else queue_mode now (parse_permission_mode normalize mode) c

unfoldable pub parse_sandbox_mode : (String → String) → String → Option SandboxMode
parse_sandbox_mode normalize value =
    let key = normalize value in
    if key == "restricted"
    then some restricted
    else if key == "full-access"
    then some full_access
    else none

abbrev pub set_pending_sandbox : SandboxMode → Config → Config
set_pending_sandbox mode c = record c {
  pending_sandbox_mode = if same_sandbox mode c.sandbox_mode then none else some mode;
}

abbrev pub queue_sandbox : Option SandboxMode → Config → RequestError ⊎ Config
queue_sandbox none c = inl unknown_sandbox_mode
queue_sandbox (some mode) c = inr (set_pending_sandbox mode c)

unfoldable pub request_sandbox_mode : (String → String) → String → Config → RequestError ⊎ Config
request_sandbox_mode normalize mode c =
    if c.closed
    then inl runner_closed
    else if not c.owns_session
    then inl no_session
    else queue_sandbox (parse_sandbox_mode normalize mode) c
