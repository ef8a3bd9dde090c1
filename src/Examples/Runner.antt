-- ===== src/Examples/Runner.antt =====
-- Runs of the runner and of the lease manager.
use deep_agent_cli.Prelude.{
  ◌++◌, ℕ, ◌≡◌, inl, inr, refl, Bool, true, false, Option, none, some, List, [], ◌∷◌, ◌==◌,
  nat_comparable, text_comparable,
}
use deep_agent_cli.Permission.{
  parse_permission_mode, allow_mode_available, PermissionMode, ExecutionMode,
}
use deep_agent_cli.Control.State
use deep_agent_cli.Control.Runs.{take_scope, carry_over, retire_streams, retire_each}
use deep_agent_cli.Control.Messages.{follow_up_message}
use deep_agent_cli.Runner.Consistent
use deep_agent_cli.Runner.Config.{
  RequestError, Config, SandboxMode, save_pending_config, request_model_change,
  request_permission_change,
}
use deep_agent_cli.Runner.Pending.{apply_pending_runtime_config, choose}
use deep_agent_cli.Runner.Consistent.{
  model_requested, here, Reach, Step, IsConsistent, Reach-IsConsistent,
}
use deep_agent_cli.Session.Catalogue.{new_row, find_row, update_row, set_pending_config}
use deep_agent_cli.Runner.Rollback.{Keeps, failed_rebuild-Keeps}
use deep_agent_cli.Runner.Loop
use deep_agent_cli.Runner.Drain.{Exhausted, completed_run-Exhausted}
use deep_agent_cli.SessionRuntime.Restore.{get_profile, ModelProfile}
use deep_agent_cli.SessionLock.InProcess
use deep_agent_cli.SessionLock.Refinement.{run_refines, init-IsMade, owners_of}
use deep_agent_cli.SessionLock.Refinement
use deep_agent_cli.SessionLock.Owners
use deep_agent_cli.SessionLock.Owners.{Call}
use deep_agent_cli.RunEvents.{RunResult}
use deep_agent_cli.Prelude.Dict.{lookup, insert}
use deep_agent_cli.Value.{Value}
use deep_agent_cli.RunEvents.Decisions.{Decision}
use deep_agent_cli.Runner.Resume.{GivenDecision, DecideError, decide_tools}
use deep_agent_cli.Runner.Answers.{Answered, decide_tools-Answered}
use deep_agent_cli.Python.{Python}
use deep_agent_cli.Runner.Loop.{queued_text, first_input, run_turns, Runner, Turn}
use deep_agent_cli.Control.Messages.{follow_up_message}
use deep_agent_cli.Control.Runs.{begin_run}
use deep_agent_cli.SessionLock.InProcess.{init}
use deep_agent_cli.RunEvents.Decisions.{completed_result}

abbrev same_text : Python
same_text = record {
  lower = λ s. s;
  lstrip = λ s. s;
  strip = λ s. s;
  is_in = λ s t. s == t;
  to_text = λ v. "";
}

abbrev small : ModelProfile
small = record { id = "small"; reasoning_efforts = [] }

abbrev large : ModelProfile
large = record { id = "large"; reasoning_efforts = "high" ∷ [] }

abbrev idle : Config
idle = record {
  closed = false;
  owns_session = true;
  session_store = some (record {
    catalogue = new_row "s1" "" "09:00" (some "small") (some "ask") "default" ∷ [];
    metrics_rows = [];
    timing_rows = [];
  });
  thread_id = "s1";
  settings = some (record { llm_profiles = small ∷ large ∷ []; llm_default = "small" });
  active_profile = small;
  execution_mode = ExecutionMode.custom;
  is_bubblewrap = false;
  current_model_id = "small";
  permission_mode = PermissionMode.ask;
  reasoning_effort = "default";
  sandbox_mode = SandboxMode.restricted;
  pending_model_id = none;
  pending_permission_mode = none;
  pending_reasoning_effort = none;
  pending_sandbox_mode = none;
}

abbrev waiting : Config
waiting = record idle {
  session_store = some (record {
    catalogue =
        record (new_row "s1" "" "09:00" (some "small") (some "ask") "default") {
          pending_model_id = some "large";
          pending_reasoning_effort = some "high";
          updated_at = "10:00";
        }
        ∷ [];
    metrics_rows = [];
    timing_rows = [];
  });
  pending_model_id = some "large";
  pending_reasoning_effort = some "high";
}

large_requested : request_model_change same_text "10:00" "large" (some "high") idle ≡ inr waiting
unfolding request_model_change save_pending_config get_profile update_row set_pending_config
large_requested = refl

allow_refused :
    request_permission_change (λ s. s) "10:00" "allow" idle ≡ inl RequestError.allow_unavailable
unfolding request_permission_change parse_permission_mode allow_mode_available
allow_refused = refl

large_applied :
    (apply_pending_runtime_config "10:01" false false false same_text waiting).0.current_model_id
    ≡ "large"
unfolding apply_pending_runtime_config choose save_pending_config get_profile
large_applied = refl

abbrev requested : Reach idle waiting
requested =
    Consistent.next (Consistent.here idle)
      (model_requested same_text "10:00" "large" (some "high") idle waiting large_requested)

idle-IsConsistent : IsConsistent idle
unfolding find_row
idle-IsConsistent = record {
  valid = record {
    in_force = refl;
    queued = refl;
    changes_model = refl;
    changes_mode = refl;
    changes_sandbox = refl;
    changes_effort = λ h. refl;
  };
  saved = (refl, refl, refl);
}

Reach-IsConsistent_example : IsConsistent waiting
Reach-IsConsistent_example = Reach-IsConsistent requested idle-IsConsistent

failed_rebuild-Keeps_example :
    Keeps waiting (apply_pending_runtime_config "10:01" true true false same_text waiting).0
failed_rebuild-Keeps_example = failed_rebuild-Keeps "10:01" true false same_text waiting

abbrev never : ℕ → Bool
never s = false

abbrev quiet_turn : Turn
quiet_turn = record {
  meanwhile = λ c. c;
  after_check = λ c. c;
  between_pops = λ c. c;
  uses_recovery = false;
  ending = Loop.finished "done";
  now = "10:02";
  mcp_dirty = false;
  rebuild_fails = false;
  sandbox_fails = false;
}

abbrev turns : List Turn
turns =
    record quiet_turn { meanwhile = λ c. (follow_up_message "then that" 11 c).1 } ∷ quiet_turn ∷ []

abbrev ready : Runner
ready = record {
  control = (begin_run never (State.init (some 0))).1;
  config = waiting;
  busy = true;
  resume_context = none;
  inputs = [];
  events = [];
}

abbrev after_turns : Option (Option RunResult × Runner)
after_turns = run_turns never never never same_text turns first_input ready

abbrev last_runner : Option (Option RunResult × Runner) → Runner
last_runner none = ready
last_runner (some (result, r)) = r

follow_up_sent : (last_runner after_turns).inputs ≡ first_input ∷ queued_text "then that" ∷ []
unfolding run_turns follow_up_message State.update take_scope State.make_scope carry_over
    retire_streams retire_each
follow_up_sent = refl

completed_run-Exhausted_example : Exhausted turns (last_runner after_turns).control
unfolding run_turns follow_up_message State.update take_scope State.make_scope carry_over
    retire_streams retire_each
completed_run-Exhausted_example =
    completed_run-Exhausted never never never same_text turns first_input ready
      (last_runner after_turns) (completed_result "done") refl refl

abbrev calls : List Call
calls =
    Call.acquire "s1"
    ∷ Call.acquire "s1"
    ∷ Call.give_back 0
    ∷ Call.acquire "s1"
    ∷ Call.close_all
    ∷ Call.acquire "s1"
    ∷ []

answers_test :
    Owners.run calls (owners_of InProcess.init) ≡ some 0 ∷ none ∷ none ∷ some 1 ∷ none ∷ some 2 ∷ []
unfolding Owners.run lookup
answers_test = refl

run_refines_example :
    Refinement.run calls InProcess.init ≡ Owners.run calls (owners_of InProcess.init)
run_refines_example = run_refines calls InProcess.init init-IsMade

abbrev given_decisions : List GivenDecision
given_decisions =
    record { tool_call_id = "b"; decision = "reject"; message = Value.text "no" }
    ∷ record { tool_call_id = "a"; decision = "approve"; message = Value.null }
    ∷ []

decided_test :
    decide_tools ("a" ∷ "b" ∷ []) given_decisions
    ≡ inr (Decision.approve ∷ Decision.reject "no" ∷ [])
unfolding decide_tools lookup insert
decided_test = refl

twice_test :
    decide_tools ("a" ∷ []) (given_decisions ++ given_decisions) ≡ inl DecideError.not_exactly_one
unfolding decide_tools lookup insert
twice_test = refl

decide_tools-Answered_example :
    Answered ("a" ∷ "b" ∷ []) given_decisions (decide_tools ("a" ∷ "b" ∷ []) given_decisions)
decide_tools-Answered_example = decide_tools-Answered ("a" ∷ "b" ∷ []) given_decisions
