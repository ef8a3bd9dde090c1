-- ===== src/Examples/Session.antt =====
-- Runs of the session store, of the lease manager and of the decisions on pending calls.
use deep_agent_cli.Prelude.{
  Option, ℕ, String, ◌≡◌, ◌≢◌, refl, true, false, none, some, List, [], ◌∷◌, ◌++◌, ◌==◌,
  nat_comparable, text_comparable, length,
}
use deep_agent_cli.Value.{
  Fields, boolean, int, other, null, array, object, text, field, end, nil, cons, get,
}
use deep_agent_cli.Session.Status
use deep_agent_cli.Session.Catalogue.{Json, Row}
use deep_agent_cli.Session.Lookup.{IsTouched}
use deep_agent_cli.Session.Status.{SessionStatus, aborted, status_for_reason}
use deep_agent_cli.Session.Catalogue
use deep_agent_cli.SessionLock.InProcess
use deep_agent_cli.SessionLock.Threads.{Shared, unlocked, start, next, acquires, held_lease_unique}
use deep_agent_cli.RunEvents.Decisions.{
  tool_decisions-IsComplete, not_decided, IsComplete, decide_each, first_unknown, tool_decisions,
  approve, reject,
}
use deep_agent_cli.Session.Transcript.{messages_to_transcript, Message, human, ai}
use deep_agent_cli.Prelude.Dict.{lookup, insert}
use deep_agent_cli.Python.{Python}
use deep_agent_cli.Session.Catalogue.{
  save_turn_timing, change, session_info, turn_timings, append_model_metrics, touch, new_row,
  find_row, Changes, create_session, SessionInfo, SessionStore,
}
use deep_agent_cli.RunEvents.{PendingToolCall, TurnTiming}
use deep_agent_cli.CliState.Blocks.{CliState, subagent_count}
use deep_agent_cli.RunEvents.Interrupts.{classify_interrupt, is_valid_hitl_interrupt}
use deep_agent_cli.SessionLock.InProcess.{try_acquire, Locks}
use deep_agent_cli.Session.Lookup.{
  save_turn_timing-turn_timings, touch-get, append_model_metrics-history, create_session-get,
}
use deep_agent_cli.CliState.Restore.{restored_idle, load_transcript}
use deep_agent_cli.Session.Restored.{settle_restored_tools}
use deep_agent_cli.RunEvents.Waiting.{confirms, valid_request_waits, action_count}

abbrev plain_python : Python
plain_python = record {
  lower = λ s. s;
  lstrip = λ s. s;
  strip = λ s. s;
  is_in = λ s t. s == t;
  to_text = λ v. "";
}

abbrev nothing_saved : SessionStore
nothing_saved = record { catalogue = []; metrics_rows = []; timing_rows = [] }

abbrev saved : SessionStore
saved = record nothing_saved {
  catalogue = new_row "s1" "Fix the build" "09:00" none (some "ask") "default" ∷ [];
}

abbrev created : SessionInfo × SessionStore
created =
    let row = new_row "s2" "" "10:00" none (some "ask") "default" in
    (session_info row, record saved { catalogue = saved.catalogue ++ row ∷ [] })

create_session-get_example :
    (Catalogue.get "s2" saved ≡ none)
    × (Catalogue.get "s2" created.1 ≡ some created.0)
    × ((created.0.status ≡ SessionStatus.running)
        × (created.0.row.last_run_status ≡ Status.pending))
    × ((j : String) → j ≢ "s2" → Catalogue.get j created.1 ≡ Catalogue.get j saved)
unfolding create_session find_row status_for_reason
create_session-get_example =
    create_session-get "10:00" "s2" "" none none (some "ask") "default" saved created.0 created.1
      refl

abbrev aborted_run : Changes
aborted_run = record {
  title = none;
  model_id = none;
  permission_mode = none;
  last_run_status = some aborted;
  reasoning_effort = none;
}

abbrev saved_row : Row
saved_row = new_row "s1" "Fix the build" "09:00" none (some "ask") "default"

touch-get_example :
    (new : Row) × (find_row "s1" (touch "11:00" "s1" aborted_run saved).catalogue ≡ some new)
    × (saved_row.id ≡ "s1" → IsTouched aborted_run "11:00" saved_row new)
    × (saved_row.id ≢ "s1" → new ≡ saved_row)
unfolding find_row
touch-get_example = (touch-get "11:00" "s1" saved_row.id aborted_run saved).1 saved_row refl

abbrev metrics : Fields
metrics = field "tokens" null end

-- A JSON of one text: only a single null has a text.
abbrev one_dump : Fields → Option String
one_dump (field key null end) = some key
one_dump _ = none

abbrev one_json : Json
one_json = record { dumps = one_dump; loads = λ payload. field payload null end }

no_text {ℓ} : {A : Type ℓ} (payload : String) (x y : A) → none ≡ some payload → x ≡ y
no_text payload x y e = absurd (cc e)

text_read :
    (key payload : String)
    → some key ≡ some payload
    → ◌≡◌ {A = Fields} (field payload null end) (field key null end)
text_read key payload e = cc e

one_json_reads :
    (m : Fields) (payload : String) → one_json.dumps m ≡ some payload → one_json.loads payload ≡ m
one_json_reads end payload e = no_text payload _ _ e
one_json_reads (field key null end) payload e = text_read key payload e
one_json_reads (field key null (field k v rest)) payload e = no_text payload _ _ e
one_json_reads (field key (boolean b) rest) payload e = no_text payload _ _ e
one_json_reads (field key (int n) rest) payload e = no_text payload _ _ e
one_json_reads (field key (text s) rest) payload e = no_text payload _ _ e
one_json_reads (field key (array items) rest) payload e = no_text payload _ _ e
one_json_reads (field key (object fields) rest) payload e = no_text payload _ _ e
one_json_reads (field key (other n) rest) payload e = no_text payload _ _ e

append_model_metrics-history_example :
    (s' : SessionStore) × (append_model_metrics one_json "s1" metrics saved ≡ some s')
    × (Catalogue.model_metrics_history one_json "s1" s'
        ≡ Catalogue.model_metrics_history one_json "s1" saved ++ metrics ∷ [])
unfolding find_row
append_model_metrics-history_example =
    (append_model_metrics-history one_json one_json_reads "s1" "s1" metrics saved).1 "tokens" refl

abbrev turn : TurnTiming
turn = record { elapsed = 5; finished_at = 900 }

save_turn_timing-turn_timings_example :
    lookup "m1" (turn_timings "s1" (save_turn_timing "s1" "m1" turn saved)) ≡ some turn
unfolding find_row
save_turn_timing-turn_timings_example = save_turn_timing-turn_timings "s1" "m1" turn saved

abbrev task_call : Fields
task_call = field "id" (text "call-1") (field "name" (text "task") end)

abbrev conversation : List Message
conversation = human "Fix the build" [] ∷ ai "m1" "" "On it" (task_call ∷ []) ∷ []

abbrev shown : CliState
shown = record {
  blocks = [];
  running = false;
  compacting = false;
  status = "Ready";
  thinking_collapsed = true;
  tools_expanded = false;
  messages_expanded = false;
  active_block = none;
  pending_user_ids = [];
  attachments = [];
  usage = [];
  model_metrics_history = [];
  context_pristine = true;
  next_ref = 0;
}

restored_idle_example :
    subagent_count
      (load_transcript
        (λ n. "u")
        (settle_restored_tools [] false (messages_to_transcript plain_python [] conversation))
        shown).blocks
    ≡ 0
restored_idle_example = restored_idle plain_python (λ n. "u") [] conversation [] false shown

abbrev two_calls : List PendingToolCall
two_calls =
    record { tool_call_id = "c1"; name = "execute"; args = null }
    ∷ record { tool_call_id = "c2"; name = "write_file"; args = null }
    ∷ []

tool_decisions-IsComplete_example :
    IsComplete ("c1" ∷ "c2" ∷ []) ("c2" ∷ []) (reject not_decided ∷ approve ∷ [])
unfolding tool_decisions first_unknown decide_each
tool_decisions-IsComplete_example =
    tool_decisions-IsComplete two_calls "approve" ("c2" ∷ []) none "reject"
      (reject not_decided ∷ approve ∷ []) refl

abbrev request : Fields
request =
    field "action_requests"
      (array (cons (object (field "name" (text "execute") (field "args" (object end) end))) nil))
      (field "review_configs"
        (array (
          cons
            (object
              (field "action_name" (text "execute") (field "allowed_decisions" (array nil) end)))
            nil))
        end)

valid_request_waits_example :
    (tools : List PendingToolCall) × (classify_interrupt plain_python
        (λ n. none)
        (object request)
        none
      ≡ confirms request tools)
    × (length tools ≡ action_count (get "action_requests" request))
unfolding is_valid_hitl_interrupt get
valid_request_waits_example = valid_request_waits plain_python (λ n. none) request none refl refl

abbrev one_lease : Shared
one_lease = record unlocked { locks = (try_acquire false "t" InProcess.init).1 }

held_lease_unique_example : ◌≡◌ {A = ℕ} 0 0
unfolding try_acquire lookup insert
held_lease_unique_example =
    held_lease_unique {s = one_lease} (next start (acquires "t" unlocked)) 0 0 refl refl refl refl
      refl
