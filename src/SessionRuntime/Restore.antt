-- ===== src/SessionRuntime/Restore.antt =====
-- agent/session_runtime.py: `restore_plan` and `recovery_context`, with `get_profile` of
-- agent/config.py. The texts of the notices are not modelled, only which ones there are.
use deep_agent_cli.Prelude.{
  subst, String, ◌≡◌, ◌⊎◌, inl, inr, refl, Bool, true, false, not, ◌&&◌, ◌||◌, Option, none, some,
  List, [], ◌∷◌, ◌++◌, ◌==◌, nat_comparable, text_comparable, if◌then◌else◌, or_else, keep,
  contains, sym, ap,
}
use deep_agent_cli.Prelude.{eq_iff}
use package.text.Mathlib.Text.{starts_with}
use deep_agent_cli.Permission.{
  ask, allow, sandboxed, custom, parse_permission_mode, PermissionMode, ExecutionMode,
  allow_mode_available,
}
use deep_agent_cli.Session.Status.{StopReason, pending, stop, error, aborted, deferred}
use deep_agent_cli.Python.{Python}
use deep_agent_cli.Session.Catalogue.{Row}

pub record ModelProfile : Type 0 where
  pub id : String
  pub reasoning_efforts : List String

pub record Settings : Type 0 where
  pub llm_profiles : List ModelProfile
  pub llm_default : String

pub data Notice : Type 0 where
  model_unavailable effort_unavailable permission_unavailable : Notice

pub record RestorePlan : Type 0 where
  pub model_id : String
  pub permission_mode : PermissionMode
  pub reasoning_effort : String
  pub notices : List Notice

abbrev pub first_with {ℓ} : {A : Type ℓ} → (A → Bool) → List A → Option A
first_with p [] = none
first_with p (x ∷ xs) = if p x then some x else first_with p xs

abbrev pub single {ℓ} : {A : Type ℓ} → List A → Option A
single (x ∷ []) = some x
single _ = none

-- A key error is `none`.
unfoldable pub get_profile : Python → Settings → String → Option ModelProfile
get_profile py settings id_or_prefix =
    let key = py.strip id_or_prefix in
    if key == ""
    then none
    else or_else (first_with (λ p. p.id == key) settings.llm_profiles)
        (single (keep (λ p. starts_with p.id key) settings.llm_profiles))

abbrev either_profile :
    Bool → ModelProfile → Option ModelProfile → Option ModelProfile × List Notice
either_profile true active found = (some active, [])
either_profile false active (some p) = (some p, [])
either_profile false active none = (some active, model_unavailable ∷ [])

-- The saved model where it is available, else the active one. Without settings there is none.
-- The active profile comes with the settings, which have it.
abbrev pub saved_profile :
    Python → Option (Settings × ModelProfile) → Option String → Option ModelProfile × List Notice
saved_profile py none saved = (none, [])
saved_profile py (some (settings, active)) none = (some active, [])
saved_profile py (some (settings, active)) (some id) =
    either_profile (id == "") active (get_profile py settings id)

abbrev is_model : Option String → String → Bool
is_model none id = false
is_model (some m) id = m == id

abbrev dropped_effort : Row → String × List Notice
dropped_effort row =
    ("default", if row.reasoning_effort == "default" then [] else effort_unavailable ∷ [])

-- The saved effort, where it belongs to the same model and that model has it.
abbrev pub saved_effort : Option ModelProfile → Row → String × List Notice
saved_effort none row = dropped_effort row
saved_effort (some p) row =
    if not (is_model row.model_id p.id)
      || (not (row.reasoning_effort == "default")
          && not (contains p.reasoning_efforts row.reasoning_effort))
    then dropped_effort row
    else (row.reasoning_effort, [])

abbrev pub id_or_empty : Option ModelProfile → String
id_or_empty none = ""
id_or_empty (some p) = p.id

abbrev mode_or_ask : Option PermissionMode → PermissionMode
mode_or_ask none = ask
mode_or_ask (some m) = m

abbrev saved_text : Option String → String
saved_text none = "ask"
saved_text (some t) = if t == "" then "ask" else t

abbrev pub allowed_mode : ExecutionMode → PermissionMode → PermissionMode × List Notice
allowed_mode execution_mode ask = (ask, [])
allowed_mode execution_mode allow =
    if allow_mode_available execution_mode then (allow, []) else (ask, permission_unavailable ∷ [])

unfoldable pub restore_plan :
    Python
    → Option (Settings × ModelProfile)
    → (String → String)
    → ExecutionMode
    → Row
    → RestorePlan
restore_plan py settings normalize execution_mode row =
    let (p, model_notices) = saved_profile py settings row.model_id in
    let (effort, effort_notices) = saved_effort p row in
    let (mode, mode_notices) =
      allowed_mode execution_mode
        (mode_or_ask (parse_permission_mode normalize (saved_text row.permission_mode))) in
    record {
      model_id = id_or_empty p;
      permission_mode = mode;
      reasoning_effort = effort;
      notices = model_notices ++ effort_notices ++ mode_notices;
    }

-- The reasons that a recovery text stands for.
abbrev pub needs_recovery : StopReason → Bool → Bool
needs_recovery aborted has_checkpoint = true
needs_recovery error has_checkpoint = true
needs_recovery pending has_checkpoint = has_checkpoint
needs_recovery stop has_checkpoint = false
needs_recovery deferred has_checkpoint = false

abbrev described : StopReason → Option StopReason
described pending = some pending
described aborted = some aborted
described error = some error
described _ = none

-- The reason that `RecoveryContext.for_stop_reason` describes.
unfoldable pub recovery_context : Row → Bool → Bool → Option StopReason
recovery_context row has_checkpoint interrupt_active =
    if needs_recovery row.last_run_status has_checkpoint && not interrupt_active
    then described row.last_run_status
    else none

allowed_mode-available :
    (e : ExecutionMode) (m : PermissionMode)
    → ((allowed_mode e m).0 ≡ ask) ⊎ (allow_mode_available e ≡ true)
unfolding allow_mode_available
allowed_mode-available e ask = inl refl
allowed_mode-available sandboxed allow = inr refl
allowed_mode-available custom allow = inl refl

-- The effort is the default or one of the profile's own, and then the profile is the saved model.
abbrev pub HasEffort : ModelProfile → Row → String → Type 0
HasEffort p row effort =
    (effort ≡ "default")
    ⊎ ((contains p.reasoning_efforts effort ≡ true)
        × (row.model_id ≡ some p.id)
        × (effort ≡ row.reasoning_effort))

is_model-some : (o : Option String) (id : String) → is_model o id ≡ true → o ≡ some id
is_model-some none id e = absurd (cc e)
is_model-some (some m) id e = ap some ((eq_iff m id).0 e)

saved_effort-HasEffort :
    (p : ModelProfile) (row : Row) → HasEffort p row (saved_effort (some p) row).0
saved_effort-HasEffort p row =
    in_case (is_model row.model_id p.id) (row.reasoning_effort == "default")
      (contains p.reasoning_efforts row.reasoning_effort) refl refl refl
  where
    in_case :
        (m d h : Bool)
        → is_model row.model_id p.id ≡ m
        → (row.reasoning_effort == "default") ≡ d
        → contains p.reasoning_efforts row.reasoning_effort ≡ h
        → HasEffort p row
            (if not m || (not d && not h) then dropped_effort row else (row.reasoning_effort, [])).0
    in_case false d h e f g = inl refl
    in_case true true h e f g = inl ((eq_iff row.reasoning_effort "default").0 f)
    in_case true false true e f g = inr (g, is_model-some row.model_id p.id e, refl)
    in_case true false false e f g = inl refl

-- Where the profile of a plan comes from: it is the active one, or what the settings have for the
-- saved model.
abbrev pub IsPlanned : Python → Settings → ModelProfile → Option String → ModelProfile → Type 0
IsPlanned py settings active none p = p ≡ active
IsPlanned py settings active (some id) p =
    ((id ≡ "") × (p ≡ active))
    ⊎ ((get_profile py settings id ≡ some p) ⊎ ((get_profile py settings id ≡ none) × (p ≡ active)))

saved_profile-IsPlanned :
    (py : Python) (settings : Settings) (active : ModelProfile) (saved : Option String)
    → (p : ModelProfile) × ((saved_profile py (some (settings, active)) saved).0 ≡ some p)
      × IsPlanned py settings active saved p
saved_profile-IsPlanned py settings active none = (active, refl, refl)
saved_profile-IsPlanned py settings active (some id) =
    in_case (id == "") (get_profile py settings id) refl refl
  where
    in_case :
        (t : Bool) (o : Option ModelProfile)
        → (id == "") ≡ t
        → get_profile py settings id ≡ o
        → (p : ModelProfile) × ((either_profile t active o).0 ≡ some p)
          × IsPlanned py settings active (some id) p
    in_case true o e f = (active, refl, inl ((eq_iff id "").0 e, refl))
    in_case false (some p) e f = (p, refl, inr (inl f))
    in_case false none e f = (active, refl, inr (inr (f, refl)))

-- What a plan says of the model and the effort.
abbrev pub PlansModel : Python → Option (Settings × ModelProfile) → Row → RestorePlan → Type 0
PlansModel py none row plan = (plan.model_id ≡ "") × (plan.reasoning_effort ≡ "default")
PlansModel py (some (settings, active)) row plan =
    (p : ModelProfile) × (plan.model_id ≡ p.id)
    × IsPlanned py settings active row.model_id p
    × HasEffort p row plan.reasoning_effort

-- A plan can be run with: it never allows what the execution mode does not. Its model is the one that
-- the settings have for the saved identifier, or the active one where none is saved or it is gone; its
-- effort is the default, or the saved effort, and then the planned model is the saved one and has
-- it. Without settings the plan has no model and the default effort.
pub restore_plan-available :
    (py : Python) (settings : Option (Settings × ModelProfile)) (normalize : String → String)
    (execution_mode : ExecutionMode) (row : Row)
    → (((restore_plan py settings normalize execution_mode row).permission_mode ≡ ask)
        ⊎ (allow_mode_available execution_mode ≡ true))
      × PlansModel py settings row (restore_plan py settings normalize execution_mode row)
unfolding restore_plan
restore_plan-available py none normalize execution_mode row =
    (allowed_mode-available execution_mode _, (refl, refl))
restore_plan-available py (some (settings, active)) normalize execution_mode row =
    let found = saved_profile-IsPlanned py settings active row.model_id in
    (
      allowed_mode-available execution_mode _,
      (
        found.0,
        ap id_or_empty found.1,
        found.2,
        subst (λ o. HasEffort found.0 row (saved_effort o row).0) (sym found.1)
            (saved_effort-HasEffort found.0 row),
      ),
    )
