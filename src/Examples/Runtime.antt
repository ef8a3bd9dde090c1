-- ===== src/Examples/Runtime.antt =====
-- Runs of the session runtime.
use deep_agent_cli.Prelude.{
  ℕ, suc, ◌≡◌, ◌⊎◌, true, false, none, some, [], ◌∷◌, ◌==◌, nat_comparable, text_comparable,
}
use deep_agent_cli.Session.Status.{SessionStatus}
use deep_agent_cli.Permission.{ask, custom, allow_mode_available}
use deep_agent_cli.Python.{Python}
use deep_agent_cli.SessionRuntime.Leases.{
  persist_for_message-Persisted, persist_for_message, Persisted, SessionRuntime, LockTable,
}
use deep_agent_cli.Session.Catalogue.{new_row, Row}
use deep_agent_cli.SessionRuntime.Restore.{
  PlansModel, restore_plan-available, restore_plan, RestorePlan, Settings, ModelProfile,
}

abbrev same_text : Python
same_text = record {
  lower = λ s. s;
  lstrip = λ s. s;
  strip = λ s. s;
  is_in = λ s t. s == t;
  to_text = λ v. "";
}

-- Locks that are always free; the state counts the leases.
abbrev free_locks : LockTable ℕ
free_locks = record {
  try_in_process = λ t n. (some n, suc n);
  try_stored = λ t n. (some n, suc n);
  release_lease = λ g n. n;
  lease_thread = λ n g. "s1";
}

abbrev draft_row : Row
draft_row = new_row "s1" "" "09:00" (some "local") (some "allow") "high"

abbrev with_draft : SessionRuntime ℕ
with_draft = record {
  locks = 1;
  store = some (record { catalogue = []; metrics_rows = []; timing_rows = [] });
  persist_on_first_message = true;
  draft = some (record { row = draft_row; status = SessionStatus.running });
  thread_id = some "s1";
  lease = some 0;
  pending_switch = none;
  abort_wait = false;
}

persist_for_message-Persisted_example :
    Persisted free_locks "09:05" "u" "local" "ask" "default" with_draft
      (persist_for_message free_locks "09:05" "u" "local" "ask" "default" with_draft)
persist_for_message-Persisted_example =
    persist_for_message-Persisted free_locks "09:05" "u" "local" "ask" "default" with_draft

abbrev local : ModelProfile
local = record { id = "local"; reasoning_efforts = "low" ∷ "high" ∷ [] }

abbrev one_model : Settings
one_model = record { llm_profiles = local ∷ []; llm_default = "local" }

abbrev planned : RestorePlan
planned = restore_plan same_text (some (one_model, local)) (λ s. s) custom draft_row

restore_plan-available_example :
    ((planned.permission_mode ≡ ask) ⊎ (allow_mode_available custom ≡ true))
    × PlansModel same_text (some (one_model, local)) draft_row planned
restore_plan-available_example =
    restore_plan-available same_text (some (one_model, local)) (λ s. s) custom draft_row
