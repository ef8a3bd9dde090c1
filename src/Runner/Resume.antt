-- ===== src/Runner/Resume.antt =====
-- agent/runner.py: decide_tools, and how a run goes on after an interrupt.
use deep_agent_cli.Prelude.{
  Bool, String, ◌⊎◌, inl, inr, true, false, not, ◌&&◌, ◌||◌, Option, none, some, List, [], ◌∷◌,
  ◌==◌, nat_comparable, text_comparable, if◌then◌else◌, is_some, all, contains,
}
use deep_agent_cli.RunEvents.Interrupts.{
  InterruptKind, InterruptState, paused, waiting_human, waiting_confirmation,
  runtime_config_boundary,
}
use deep_agent_cli.Value.{Value, null, text}
use deep_agent_cli.Prelude.Dict.{Dict, lookup, insert, keys}
use deep_agent_cli.RunEvents.Interrupts.{InterruptState, InterruptKind}
use deep_agent_cli.RunEvents.Decisions.{reject, approve, Decision}

-- One of the decisions that a client passes on.
pub record GivenDecision : Type 0 where
  pub tool_call_id : String
  pub decision : String
  pub message : Value

-- The errors of `decide_tools`, of which the last would be a missing key.
pub data DecideError : Type 0 where
  not_exactly_one message_not_text not_covered missing_key : DecideError

abbrev pub same_kind : InterruptKind → InterruptKind → Bool
same_kind paused paused = true
same_kind waiting_human waiting_human = true
same_kind waiting_confirmation waiting_confirmation = true
same_kind runtime_config_boundary runtime_config_boundary = true
same_kind _ _ = false

-- None is the error that another interrupt, or no interrupt, is current.
unfoldable pub require_interrupt : InterruptKind → Option InterruptState → Option InterruptState
require_interrupt expected none = none
require_interrupt expected (some s) = if same_kind s.kind expected then some s else none

abbrev pub decision_with : String → String → Decision
decision_with kind message = if kind == "approve" then approve else reject message

-- What one given decision stands for. A message that is empty is none.
abbrev pub decision_of : GivenDecision → Option Decision
decision_of g = elim g.message [
  | null ↦ some (decision_with g.decision "")
  | text message ↦ some (decision_with g.decision message)
  | _ ↦ none
]

abbrev pub is_refused : List String → GivenDecision → Dict String Decision → Bool
is_refused pending g by_id =
    not (contains pending g.tool_call_id)
    || is_some (lookup g.tool_call_id by_id)
    || not (g.decision == "approve" || g.decision == "reject")

abbrev pub add_decision :
    Option Decision → String → Dict String Decision → DecideError ⊎ Dict String Decision
add_decision none id by_id = inl message_not_text
add_decision (some d) id by_id = inr (insert id d by_id)

abbrev pub decide_one :
    List String → GivenDecision → Dict String Decision → DecideError ⊎ Dict String Decision
decide_one pending g by_id =
    if is_refused pending g by_id
    then inl not_exactly_one
    else add_decision (decision_of g) g.tool_call_id by_id

abbrev pub and_then :
    (Dict String Decision → DecideError ⊎ Dict String Decision)
    → DecideError ⊎ Dict String Decision
    → DecideError ⊎ Dict String Decision
and_then f (inl error) = inl error
and_then f (inr by_id) = f by_id

unfoldable pub decide_all :
    List String → List GivenDecision → Dict String Decision → DecideError ⊎ Dict String Decision
decide_all pending [] by_id = inr by_id
decide_all pending (g ∷ given) by_id =
    and_then (decide_all pending given) (decide_one pending g by_id)

abbrev pub and_rest : Option Decision → Option (List Decision) → Option (List Decision)
and_rest none ds = none
and_rest (some d) none = none
and_rest (some d) (some ds) = some (d ∷ ds)

-- `[by_id[call_id] for call_id in pending_ids]`
unfoldable pub in_order : Dict String Decision → List String → Option (List Decision)
in_order by_id [] = some []
in_order by_id (id ∷ ids) = and_rest (lookup id by_id) (in_order by_id ids)

-- The two sets of identifiers are equal.
abbrev pub covers : List String → Dict String Decision → Bool
covers pending by_id =
    all (λ id. is_some (lookup id by_id)) pending && all (contains pending) (keys by_id)

abbrev pub listed : Option (List Decision) → DecideError ⊎ List Decision
listed none = inl missing_key
listed (some ds) = inr ds

abbrev pub finish_decisions :
    List String → DecideError ⊎ Dict String Decision → DecideError ⊎ List Decision
finish_decisions pending (inl error) = inl error
finish_decisions pending (inr by_id) =
    if covers pending by_id then listed (in_order by_id pending) else inl not_covered

-- The decisions that `decide_tools` resumes the run with.
unfoldable pub decide_tools : List String → List GivenDecision → DecideError ⊎ List Decision
unfolding decide_all in_order
decide_tools pending given = finish_decisions pending (decide_all pending given [])
