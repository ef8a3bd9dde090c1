-- ===== src/Runner/Consistent.antt =====
-- What holds of the configuration at every safe point.
use deep_agent_cli.Prelude.{
  ◌||◌, String, ◌≡◌, ◌⊎◌, inl, inr, refl, sym, ap, ◌∙◌, Bool, true, false, not, ◌&&◌, Option, none,
  some, List, arith, ◌==◌, nat_comparable, text_comparable, if◌then◌else◌, is_some,
}
use mathlib.Core.Option
use deep_agent_cli.Session.Catalogue.{pend, find_row, SessionStore, Row, set_pending_config}
use deep_agent_cli.Session.Lookup.{find_row-update_row}
use deep_agent_cli.Prelude.{subst, ==-refl}
use deep_agent_cli.Permission.{
  parse_permission_mode, allow_mode_available, ExecutionMode, PermissionMode, ask, allow,
}
use deep_agent_cli.Runner.Config.{
  ConfigEvent, is_supported, parse_sandbox_mode, profile_in, request_sandbox_mode, wanted_effort,
  request_permission_change, queue_sandbox, queue_mode, queue_model, request_model_change,
  set_pending_mode, set_pending_sandbox, set_pending_model, with_store, mode_text, same_sandbox,
  same_mode, save_pending_config, Config, SandboxMode,
}
use deep_agent_cli.SessionRuntime.Restore.{ModelProfile}
use deep_agent_cli.Runner.Pending.{
  has_pending, apply_pending_runtime_config, apply_choice, choose_mode, Choice, choose,
}
use deep_agent_cli.Python.{Python}

abbrev pub is_allowed : PermissionMode → ExecutionMode → Bool
is_allowed ask execution_mode = true
is_allowed allow execution_mode = allow_mode_available execution_mode

abbrev pub may_be : Option PermissionMode → ExecutionMode → Bool
may_be none execution_mode = true
may_be (some mode) execution_mode = is_allowed mode execution_mode

abbrev pub is_mode : Option PermissionMode → PermissionMode → Bool
is_mode none mode = false
is_mode (some m) mode = same_mode m mode

abbrev pub is_sandbox : Option SandboxMode → SandboxMode → Bool
is_sandbox none mode = false
is_sandbox (some m) mode = same_sandbox m mode

abbrev pub is_text : Option String → String → Bool
is_text none t = false
is_text (some s) t = s == t

-- The modes in force and in waiting are available, and a model, a mode or a sandbox mode that waits is
-- a change. An effort that waits without a model is one, too; with a model it may be the same text.
pub record IsValid (c : Config) : Type 0 where
  pub in_force : is_allowed c.permission_mode c.execution_mode ≡ true
  pub queued : may_be c.pending_permission_mode c.execution_mode ≡ true
  pub changes_model : is_text c.pending_model_id c.current_model_id ≡ false
  pub changes_mode : is_mode c.pending_permission_mode c.permission_mode ≡ false
  pub changes_sandbox : is_sandbox c.pending_sandbox_mode c.sandbox_mode ≡ false
  pub changes_effort :
      is_some c.pending_model_id ≡ false
      → is_text c.pending_reasoning_effort c.reasoning_effort ≡ false

-- The row of the thread holds what waits.
abbrev pub RowSaved : Option Row → Option String → Option String → Option String → Type 0
RowSaved none model mode effort = Unit
RowSaved (some row) model mode effort =
    (row.pending_model_id ≡ model)
    × (row.pending_permission_mode ≡ mode)
    × (row.pending_reasoning_effort ≡ effort)

abbrev pub StoreSaved :
    Option SessionStore → String → Option String → Option String → Option String → Type 0
StoreSaved none id model mode effort = Unit
StoreSaved (some s) id model mode effort = RowSaved (find_row id s.catalogue) model mode effort

abbrev pub IsSaved : Config → Type 0
IsSaved c =
    StoreSaved c.session_store c.thread_id c.pending_model_id (mode_text c.pending_permission_mode)
      c.pending_reasoning_effort

pub record IsConsistent (c : Config) : Type 0 where
  pub valid : IsValid c
  pub saved : IsSaved c

-- What an answer that is no error says of the tests before it.
inr-injective {ℓ} : {A E : Type ℓ} (x y : A) → ◌≡◌ {A = E ⊎ A} (inr x) (inr y) → x ≡ y
inr-injective x y h = cc h

accepted {ℓ} :
    {A E : Type ℓ} (b : Bool) (x y : A) (e : E)
    → (if b then inr x else inl e) ≡ inr y
    → (b ≡ true) × (x ≡ y)
accepted true x y e h = (refl, inr-injective x y h)
accepted false x y e h = absurd (cc h)

rejected {ℓ} :
    {A E : Type ℓ} (b : Bool) (r : E ⊎ A) (y : A) (e : E)
    → (if b then inl e else r) ≡ inr y
    → (b ≡ false) × (r ≡ inr y)
rejected true r y e h = absurd (cc h)
rejected false r y e h = (refl, h)

-- Only the store changes.
frame-with_store :
    (f : SessionStore → SessionStore) (c : Config)
    → with_store f c ≡ record c { session_store = (with_store f c).session_store }
frame-with_store f c = refl

frame-save_pending_config :
    (now : String) (c : Config)
    → save_pending_config now c
      ≡ record c { session_store = (save_pending_config now c).session_store }
unfolding save_pending_config
frame-save_pending_config now c = refl

RowSaved-pend :
    (now : String) (o : Option Row) (model mode effort : Option String)
    → RowSaved (Option.map (pend now model mode effort) o) model mode effort
RowSaved-pend now none model mode effort = tt
RowSaved-pend now (some row) model mode effort = (refl, refl, refl)

StoreSaved-set_pending_config :
    (now id : String) (o : Option SessionStore) (model mode effort : Option String)
    → StoreSaved (Option.map (set_pending_config now id model mode effort) o) id model mode effort
unfolding set_pending_config
StoreSaved-set_pending_config now id none model mode effort = tt
StoreSaved-set_pending_config now id (some s) model mode effort =
    let f = pend now model mode effort in
    subst (λ o. RowSaved o model mode effort)
      (sym (
        find_row-update_row f (λ r. refl) id id s.catalogue
        ∙ ap (λ b. if b then Option.map f (find_row id s.catalogue) else find_row id s.catalogue)
            (==-refl id)))
      (RowSaved-pend now (find_row id s.catalogue) model mode effort)

save_pending_config-IsSaved : (now : String) (c : Config) → IsSaved (save_pending_config now c)
unfolding save_pending_config
save_pending_config-IsSaved now c =
    StoreSaved-set_pending_config now c.thread_id c.session_store c.pending_model_id
      (mode_text c.pending_permission_mode) c.pending_reasoning_effort

save_pending_config-IsValid :
    (now : String) (c : Config) → IsValid c → IsValid (save_pending_config now c)
save_pending_config-IsValid now c i =
    subst IsValid (sym (frame-save_pending_config now c)) (record {
      in_force = i.in_force;
      queued = i.queued;
      changes_model = i.changes_model;
      changes_mode = i.changes_mode;
      changes_sandbox = i.changes_sandbox;
      changes_effort = i.changes_effort;
    })

set_pending_model-IsValid :
    (p : ModelProfile) (effort : String) (c : Config)
    → IsValid c
    → IsValid (set_pending_model p effort c)
set_pending_model-IsValid p effort c i = record {
  in_force = i.in_force;
  queued = i.queued;
  changes_model = ground arith;
  changes_mode = i.changes_mode;
  changes_sandbox = i.changes_sandbox;
  changes_effort =
      λ h. effort_changed (p.id == c.current_model_id) (effort == c.reasoning_effort) refl h;
}
  where
    effort_changed :
        (same kept : Bool)
        → (effort == c.reasoning_effort) ≡ kept
        → is_some (if not same then some p.id else none) ≡ false
        → is_text (if not same || not kept then some effort else none) c.reasoning_effort ≡ false
    effort_changed true true e h = refl
    effort_changed true false e h = e
    effort_changed false kept e h = absurd (cc h)

same_mode-flip : (m n : PermissionMode) → same_mode m n ≡ false → same_mode n m ≡ false
same_mode-flip ask ask h = h
same_mode-flip ask allow h = refl
same_mode-flip allow ask h = refl
same_mode-flip allow allow h = h

set_pending_mode-IsValid :
    (mode : PermissionMode) (c : Config)
    → IsValid c
    → (same_mode mode allow && not (allow_mode_available c.execution_mode)) ≡ false
    → IsValid (set_pending_mode mode c)
set_pending_mode-IsValid mode c i free = record {
  in_force = i.in_force;
  queued = ground (arith, free);
  changes_model = i.changes_model;
  changes_mode = ground arith;
  changes_sandbox = i.changes_sandbox;
  changes_effort = i.changes_effort;
}

set_pending_sandbox-IsValid :
    (mode : SandboxMode) (c : Config) → IsValid c → IsValid (set_pending_sandbox mode c)
set_pending_sandbox-IsValid mode c i = record {
  in_force = i.in_force;
  queued = i.queued;
  changes_model = i.changes_model;
  changes_mode = i.changes_mode;
  changes_sandbox = ground arith;
  changes_effort = i.changes_effort;
}

choose_mode-may_be :
    (o : Option PermissionMode) (e : ExecutionMode) (ch : Choice)
    → ch.mode ≡ none
    → may_be (choose_mode o e ch).mode e ≡ true
choose_mode-may_be none e ch h = ap (λ m. may_be m e) h
choose_mode-may_be (some ask) e ch h = refl
choose_mode-may_be (some allow) e ch h = ground (arith, h)

-- The mode that is chosen is available.
choose-may_be : (py : Python) (c : Config) → may_be (choose py c).mode c.execution_mode ≡ true
unfolding choose
choose-may_be py c = choose_mode-may_be c.pending_permission_mode c.execution_mode _ (ground arith)

-- The choice in force is available, and nothing waits.
apply_choice-IsValid :
    (now : String) (mcp_dirty rebuild_fails sandbox_fails : Bool) (ch : Choice) (c : Config)
    → IsValid c
    → may_be ch.mode c.execution_mode ≡ true
    → IsValid (apply_choice now mcp_dirty rebuild_fails sandbox_fails ch c)
apply_choice-IsValid now mcp_dirty rebuild_fails sandbox_fails ch c i free =
    save_pending_config-IsValid now _ (record {
      in_force = ground (arith, i.in_force, free);
      queued = refl;
      changes_model = refl;
      changes_mode = refl;
      changes_sandbox = refl;
      changes_effort = λ h. refl;
    })

-- The methods that change the configuration. What other code answers is part of a step.
pub data Step : Config → Config → Type 0 where
  model_requested :
      (py : Python) (now id : String) (effort : Option String) (c c' : Config)
      → request_model_change py now id effort c ≡ inr c'
      → Step c c'
  mode_requested :
      (normalize : String → String) (now mode : String) (c c' : Config)
      → request_permission_change normalize now mode c ≡ inr c'
      → Step c c'
  sandbox_requested :
      (normalize : String → String) (mode : String) (c c' : Config)
      → request_sandbox_mode normalize mode c ≡ inr c'
      → Step c c'
  applied :
      (now : String) (mcp_dirty rebuild_fails sandbox_fails : Bool) (py : Python) (c : Config)
      → Step c (apply_pending_runtime_config now mcp_dirty rebuild_fails sandbox_fails py c).0

pub data Reach : Config → Config → Type 0 where
  here : (c : Config) → Reach c c
  next : {c d e : Config} → Reach c d → Step d e → Reach c e

queue_model-IsConsistent :
    (now : String) (p : Option ModelProfile) (effort : Option String) (c c' : Config)
    → IsConsistent c
    → queue_model now p effort c ≡ inr c'
    → IsConsistent c'
queue_model-IsConsistent now none effort c c' i made = ground (arith, made)
queue_model-IsConsistent now (some p) effort c c' i made =
    subst IsConsistent (accepted (is_supported p (wanted_effort effort p c)) _ _ _ made).1 (record {
      valid = save_pending_config-IsValid now _ (set_pending_model-IsValid p _ c i.valid);
      saved = save_pending_config-IsSaved now _;
    })

queue_mode-IsConsistent :
    (now : String) (m : Option PermissionMode) (c c' : Config)
    → IsConsistent c
    → queue_mode now m c ≡ inr c'
    → IsConsistent c'
queue_mode-IsConsistent now none c c' i made = ground (arith, made)
queue_mode-IsConsistent now (some m) c c' i made =
    let r =
      rejected (same_mode m allow && not (allow_mode_available c.execution_mode)) _ _ _ made in
    subst IsConsistent (inr-injective _ _ r.1) (record {
      valid = save_pending_config-IsValid now _ (set_pending_mode-IsValid m c i.valid r.0);
      saved = save_pending_config-IsSaved now _;
    })

queue_sandbox-IsConsistent :
    (m : Option SandboxMode) (c c' : Config)
    → IsConsistent c
    → queue_sandbox m c ≡ inr c'
    → IsConsistent c'
queue_sandbox-IsConsistent none c c' i made = ground (arith, made)
queue_sandbox-IsConsistent (some m) c c' i made =
    subst IsConsistent (inr-injective _ _ made)
      (record { valid = set_pending_sandbox-IsValid m c i.valid; saved = i.saved })

model_requested-IsConsistent :
    (py : Python) (now id : String) (effort : Option String) (c c' : Config)
    → IsConsistent c
    → request_model_change py now id effort c ≡ inr c'
    → IsConsistent c'
unfolding request_model_change
model_requested-IsConsistent py now id effort c c' i made =
    queue_model-IsConsistent now (profile_in py c.settings id) effort c c' i
      (rejected (not (is_some c.settings)) _ _ _
        (rejected (not c.owns_session) _ _ _ (rejected c.closed _ _ _ made).1).1).1

mode_requested-IsConsistent :
    (normalize : String → String) (now mode : String) (c c' : Config)
    → IsConsistent c
    → request_permission_change normalize now mode c ≡ inr c'
    → IsConsistent c'
unfolding request_permission_change
mode_requested-IsConsistent normalize now mode c c' i made =
    queue_mode-IsConsistent now (parse_permission_mode normalize mode) c c' i
      (rejected (not c.owns_session) _ _ _ (rejected c.closed _ _ _ made).1).1

sandbox_requested-IsConsistent :
    (normalize : String → String) (mode : String) (c c' : Config)
    → IsConsistent c
    → request_sandbox_mode normalize mode c ≡ inr c'
    → IsConsistent c'
unfolding request_sandbox_mode
sandbox_requested-IsConsistent normalize mode c c' i made =
    queue_sandbox-IsConsistent (parse_sandbox_mode normalize mode) c c' i
      (rejected (not c.owns_session) _ _ _ (rejected c.closed _ _ _ made).1).1

apply_choice-IsConsistent :
    (now : String) (mcp_dirty rebuild_fails sandbox_fails : Bool) (ch : Choice) (c : Config)
    → IsConsistent c
    → may_be ch.mode c.execution_mode ≡ true
    → IsConsistent (apply_choice now mcp_dirty rebuild_fails sandbox_fails ch c)
apply_choice-IsConsistent now mcp_dirty rebuild_fails sandbox_fails ch c i free = record {
  valid = apply_choice-IsValid now mcp_dirty rebuild_fails sandbox_fails ch c i.valid free;
  saved = save_pending_config-IsSaved now _;
}

-- The two answers of `_apply_pending_runtime_config`.
either-IsConsistent :
    (b : Bool) (x y : Config × List ConfigEvent)
    → IsConsistent x.0
    → IsConsistent y.0
    → IsConsistent (if b then x else y).0
either-IsConsistent true x y i j = i
either-IsConsistent false x y i j = j

applied-IsConsistent :
    (now : String) (mcp_dirty rebuild_fails sandbox_fails : Bool) (py : Python) (c : Config)
    → IsConsistent c
    → IsConsistent (apply_pending_runtime_config now mcp_dirty rebuild_fails sandbox_fails py c).0
unfolding apply_pending_runtime_config
applied-IsConsistent now mcp_dirty rebuild_fails sandbox_fails py c i =
    either-IsConsistent (has_pending mcp_dirty c) _ _
      (apply_choice-IsConsistent now mcp_dirty rebuild_fails sandbox_fails (choose py c) c i
        (choose-may_be py c))
      i

Step-IsConsistent : {c d : Config} → Step c d → IsConsistent c → IsConsistent d
Step-IsConsistent (model_requested py now id effort c c' made) i =
    model_requested-IsConsistent py now id effort c c' i made
Step-IsConsistent (mode_requested normalize now mode c c' made) i =
    mode_requested-IsConsistent normalize now mode c c' i made
Step-IsConsistent (sandbox_requested normalize mode c c' made) i =
    sandbox_requested-IsConsistent normalize mode c c' i made
Step-IsConsistent (applied now mcp_dirty rebuild_fails sandbox_fails py c) i =
    applied-IsConsistent now mcp_dirty rebuild_fails sandbox_fails py c i

-- Whatever is requested and applied in whatever order, where the database raises no error: the
-- permission modes in force and in waiting are available; a model, a permission mode or a sandbox mode
-- that waits differs from the one in force, and so does an effort that waits without a model; and
-- the row of the thread, where there is a store and a row, holds the model, the mode and the effort
-- that wait. So it was at the start.
pub Reach-IsConsistent : {c d : Config} → Reach c d → IsConsistent c → IsConsistent d
Reach-IsConsistent (here c) i = i
Reach-IsConsistent (next r s) i = Step-IsConsistent s (Reach-IsConsistent r i)
