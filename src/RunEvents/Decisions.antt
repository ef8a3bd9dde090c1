-- ===== src/RunEvents/Decisions.antt =====
-- agent/run_events.py: the decisions that a person makes on pending tool calls, and results.
use deep_agent_cli.Prelude.{
  suc, String, ◌≡◌, ◌≢◌, ◌⊎◌, inl, inr, refl, ap, ◌∙◌, Bool, true, false, not, ◌||◌, Option, none,
  some, List, [], ◌∷◌, map, arith, ◌==◌, nat_comparable, text_comparable, if◌then◌else◌, length,
  any, All, keep, contains, Option-cases,
}
use deep_agent_cli.Value.{Fields, end}
use deep_agent_cli.RunEvents.{RunResult, PendingToolCall}

pub data Decision : Type 0 where
  approve : Decision
  reject : String → Decision

pub data DecisionError : Type 0 where
  bad_decision no_target : DecisionError
  not_pending : String → DecisionError

-- The reason that goes with every call the person did not decide.
abbrev pub not_decided : String
not_decided = "另一个并发的待确认调用未包含在本次人工决策中，按拒绝处理"

abbrev pub filled : String → Bool
filled s = not (s == "")

-- The first target that is not pending.
unfoldable pub first_unknown : List String → List String → Option String
first_unknown pending [] = none
first_unknown pending (t ∷ targets) =
    let rest = first_unknown pending targets in if contains pending t then rest else some t

abbrev pub item : Bool → Option String → Decision
item true message = approve
item false none = reject ""
item false (some m) = reject m

unfoldable pub decide_each : Decision → List String → List String → List Decision
decide_each decision chosen [] = []
decide_each decision chosen (id ∷ ids) =
    (if contains chosen id then decision else reject not_decided) ∷ decide_each decision chosen ids

abbrev decide_for : Decision → List String → List String → List Decision
decide_for decision chosen [] = decision ∷ []
decide_for decision chosen (id ∷ []) = decision ∷ []
decide_for decision chosen ids = decide_each decision chosen ids

abbrev targeted :
    Bool → Bool → Option String → List String → List String → DecisionError ⊎ List Decision
targeted is_approval same message pending [] = inl no_target
targeted is_approval same message pending (t ∷ targets) =
    elim (first_unknown pending (t ∷ targets)) [
      | some unknown ↦ inl (not_pending unknown)
      | none ↦
          inr (decide_for (item is_approval message) (if same then t ∷ targets else t ∷ []) pending)
    ]

unfoldable pub tool_decisions :
    List PendingToolCall
    → String
    → List String
    → Option String
    → String
    → DecisionError ⊎ List Decision
tool_decisions pending decision_type tool_call_ids message others =
    if decision_type == "approve" || decision_type == "reject"
    then targeted (decision_type == "approve") (others == "same") message
        (map (λ c. c.tool_call_id) pending) (keep filled tool_call_ids)
    else inl bad_decision

abbrev pub empty_result : String → RunResult
empty_result status = record {
  status = status;
  output = "";
  pending_tool_calls = [];
  human_input = end;
  error = "";
}

unfoldable pub completed_result : String → RunResult
completed_result output = record (empty_result "completed") { output = output }

unfoldable pub interaction_result : String → List PendingToolCall → Fields → RunResult
interaction_result status pending human_input = record (empty_result status) {
  pending_tool_calls = pending;
  human_input = human_input;
}

unfoldable pub failed_result : String → RunResult
failed_result error = record (empty_result "failed") { error = error }

unfoldable pub cancelled_result : Bool → String → String × RunResult
cancelled_result model_stream_closed unclosed_message =
    let error = if model_stream_closed then "" else unclosed_message in
    (error, record (empty_result "cancelled") { error = error })

first_unknown-none :
    (pending targets : List String)
    → first_unknown pending targets ≡ none
    → All (λ t. contains pending t ≡ true) targets
unfolding first_unknown
first_unknown-none pending [] h = tt
first_unknown-none pending (t ∷ targets) h =
    (ground (arith, h), first_unknown-none pending targets (ground (arith, h)))

length-decide_each :
    (d : Decision) (chosen ids : List String) → length (decide_each d chosen ids) ≡ length ids
unfolding decide_each
length-decide_each d chosen [] = refl
length-decide_each d chosen (id ∷ ids) = ap suc (length-decide_each d chosen ids)

length-decide_for :
    (d : Decision) (chosen ids : List String) (t : String)
    → contains ids t ≡ true
    → length (decide_for d chosen ids) ≡ length ids
length-decide_for d chosen [] t h = ground (arith, h)
length-decide_for d chosen (id ∷ []) t h = refl
length-decide_for d chosen (id ∷ other ∷ ids) t h = length-decide_each d chosen (id ∷ other ∷ ids)

-- What an accepted decision is about: some target, all of them pending, and one decision for each
-- pending call.
abbrev pub IsComplete : List String → List String → List Decision → Type 0
IsComplete pending targets ds =
    (targets ≢ []) × All (λ t. contains pending t ≡ true) targets × (length ds ≡ length pending)

targeted-IsComplete :
    (is_approval same : Bool) (message : Option String) (pending targets : List String)
    (ds : List Decision)
    → targeted is_approval same message pending targets ≡ inr ds
    → IsComplete pending targets ds
targeted-IsComplete is_approval same message pending [] ds h = ground (arith, h)
targeted-IsComplete is_approval same message pending (t ∷ targets) ds h =
    elim (Option-cases (first_unknown pending (t ∷ targets))) [
      | inl e ↦
          let known = first_unknown-none pending (t ∷ targets) e in
          let decided : ds
              ≡ decide_for (item is_approval message) (if same then t ∷ targets else t ∷ [])
                  pending =
            ground (arith, h, e) in
          (ground arith, known, ap length decided ∙ length-decide_for _ _ pending t known.0)
      | inr (unknown, e) ↦ ground (arith, h, e)
    ]

-- A decision that is accepted names at least one call, names only calls that are pending, and
-- gives exactly one decision for each pending call. Calls without an id are not named.
pub tool_decisions-IsComplete :
    (pending : List PendingToolCall) (decision_type : String) (ids : List String)
    (message : Option String) (others : String) (ds : List Decision)
    → tool_decisions pending decision_type ids message others ≡ inr ds
    → IsComplete (map (λ c. c.tool_call_id) pending) (keep filled ids) ds
unfolding tool_decisions
tool_decisions-IsComplete pending decision_type ids message others ds h =
    targeted-IsComplete (decision_type == "approve") (others == "same") message
      (map (λ c. c.tool_call_id) pending) (keep filled ids) ds (ground (arith, h))

abbrev pub is_approve : Decision → Bool
is_approve approve = true
is_approve (reject m) = false

decide_each-reject :
    (d : Decision) (chosen ids : List String)
    → is_approve d ≡ false
    → any is_approve (decide_each d chosen ids) ≡ false
unfolding decide_each
decide_each-reject d chosen [] h = refl
decide_each-reject d chosen (id ∷ ids) h = ground (arith, h, decide_each-reject d chosen ids h)

decide_for-reject :
    (d : Decision) (chosen ids : List String)
    → is_approve d ≡ false
    → any is_approve (decide_for d chosen ids) ≡ false
decide_for-reject d chosen [] h = ground (arith, h)
decide_for-reject d chosen (id ∷ []) h = ground (arith, h)
decide_for-reject d chosen (id ∷ other ∷ ids) h = decide_each-reject d chosen (id ∷ other ∷ ids) h
