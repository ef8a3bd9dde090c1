-- ===== src/Session/Catalogue.antt =====
-- agent/session.py: `SessionStore`, the catalogue of sessions with the metrics and the times of
-- turns, as the tables that the SQL statements read and write. A locked method is one step. Times
-- are stamps; `now` is the clock, `uuid` a fresh identifier.
use deep_agent_cli.Prelude.{
  ℕ, String, Bool, not, ◌&&◌, Option, none, some, List, [], ◌∷◌, ◌++◌, map, ◌==◌, nat_comparable,
  text_comparable, if◌then◌else◌, or_else, is_some, keep,
}
use Prim.Native.String.{◌++◌ as ◌<>◌}
use deep_agent_cli.Session.Status.{pending, SessionStatus, StopReason, status_for_reason}
use mathlib.Core.Option
use deep_agent_cli.Prelude.{take}
use deep_agent_cli.RunEvents.{TurnTiming}
use deep_agent_cli.Value.{Fields}
use deep_agent_cli.Prelude.Dict.{Dict}
use deep_agent_cli.Python.{Python}

-- A row of `session_catalog`.
pub record Row : Type 0 where
  pub id : String
  pub title : String
  pub created_at : String
  pub updated_at : String
  pub model_id : Option String
  pub permission_mode : Option String
  pub pending_model_id : Option String
  pub pending_permission_mode : Option String
  pub reasoning_effort : String
  pub pending_reasoning_effort : Option String
  pub last_run_status : StopReason

pub record SessionInfo : Type 0 where
  pub row : Row
  pub status : SessionStatus

-- A row of `session_turn_timings`.
pub record TimingRow : Type 0 where
  pub session_id : String
  pub message_id : String
  pub turn : TurnTiming

-- Python's `json.dumps` with `allow_nan=False`, where none is the error that it raises, and
-- `json.loads`.
pub record Json : Type 0 where
  pub dumps : Fields → Option String
  pub loads : String → Fields

-- A row of `session_model_metrics`, in the order of its key.
pub record MetricsRow : Type 0 where
  pub session_id : String
  pub metrics_json : String

pub record SessionStore : Type 0 where
  pub catalogue : List Row
  pub metrics_rows : List MetricsRow
  pub timing_rows : List TimingRow

-- `_session_info`
abbrev pub session_info : Row → SessionInfo
session_info row = record { row = row; status = status_for_reason row.last_run_status }

-- `SELECT … WHERE id = ?` and `fetchone`
unfoldable pub find_row : String → List Row → Option Row
find_row id [] = none
find_row id (row ∷ rows) = if row.id == id then some row else find_row id rows

-- `UPDATE … WHERE id = ?`
unfoldable pub update_row : (Row → Row) → String → List Row → List Row
update_row f id [] = []
update_row f id (row ∷ rows) =
    let rest = update_row f id rows in if row.id == id then f row ∷ rest else row ∷ rest

abbrev pub has_session : String → SessionStore → Bool
has_session id s = is_some (find_row id s.catalogue)

-- `text or default`
abbrev pub text_else : Option String → String → String
text_else none default = default
text_else (some t) default = if t == "" then default else t

abbrev pub if_given {ℓ} : {A : Type ℓ} → Option A → A → A
if_given (some a) b = a
if_given none b = b

abbrev pub new_row : String → String → String → Option String → Option String → String → Row
new_row id title now model_id permission_mode reasoning_effort = record {
  id = id;
  title = if title == "" then "New session" else title;
  created_at = now;
  updated_at = now;
  model_id = model_id;
  permission_mode = permission_mode;
  pending_model_id = none;
  pending_permission_mode = none;
  reasoning_effort = reasoning_effort;
  pending_reasoning_effort = none;
  last_run_status = pending;
}

-- A second row with the same primary key is an integrity error, and then nothing is inserted.
unfoldable pub create_session :
    String
    → String
    → String
    → Option String
    → Option String
    → Option String
    → String
    → SessionStore
    → Option (SessionInfo × SessionStore)
unfolding find_row
create_session now uuid title session_id model_id permission_mode reasoning_effort s =
    let row =
      new_row (text_else session_id uuid) title now model_id permission_mode reasoning_effort in
    if has_session row.id s
    then none
    else some (
      record { row = row; status = SessionStatus.running },
      record s { catalogue = s.catalogue ++ row ∷ [] },
    )

-- The arguments of `touch` that may be left out.
pub record Changes : Type 0 where
  pub title : Option String
  pub model_id : Option String
  pub permission_mode : Option String
  pub last_run_status : Option StopReason
  pub reasoning_effort : Option String

abbrev pub change : Changes → String → Row → Row
change ch now row = record row {
  title = if_given ch.title row.title;
  updated_at = now;
  model_id = or_else ch.model_id row.model_id;
  permission_mode = or_else ch.permission_mode row.permission_mode;
  last_run_status = if_given ch.last_run_status row.last_run_status;
  reasoning_effort = if_given ch.reasoning_effort row.reasoning_effort;
}

unfoldable pub touch : String → String → Changes → SessionStore → SessionStore
touch now id ch s =
    if has_session id s
    then record s { catalogue = update_row (change ch now) id s.catalogue }
    else s

abbrev pub pend : String → Option String → Option String → Option String → Row → Row
pend now model_id permission_mode reasoning_effort row = record row {
  pending_model_id = model_id;
  pending_permission_mode = permission_mode;
  pending_reasoning_effort = reasoning_effort;
  updated_at = now;
}

unfoldable pub set_pending_config :
    String → String → Option String → Option String → Option String → SessionStore → SessionStore
set_pending_config now id model_id permission_mode reasoning_effort s = record s {
  catalogue = update_row (pend now model_id permission_mode reasoning_effort) id s.catalogue;
}

-- Metrics of a session that is not in the catalogue are dropped.
abbrev pub insert_metrics : String → String → SessionStore → SessionStore
insert_metrics id payload s =
    if has_session id s
    then record s {
      metrics_rows = s.metrics_rows ++ record { session_id = id; metrics_json = payload } ∷ [];
    }
    else s

-- None is the error of metrics that have no JSON text; then nothing is stored.
unfoldable pub append_model_metrics : Json → String → Fields → SessionStore → Option SessionStore
append_model_metrics json id metrics s =
    Option.map (λ payload. insert_metrics id payload s) (json.dumps metrics)

abbrev pub metrics_of : String → List MetricsRow → List String
metrics_of id [] = []
metrics_of id (r ∷ rows) =
    let rest = metrics_of id rows in if r.session_id == id then r.metrics_json ∷ rest else rest

unfoldable pub model_metrics_history : Json → String → SessionStore → List Fields
model_metrics_history json id s = map json.loads (metrics_of id s.metrics_rows)

abbrev pub other_turn : String → String → TimingRow → Bool
other_turn id message_id r = not (r.session_id == id && r.message_id == message_id)

-- `INSERT OR REPLACE` by the key of session and message.
unfoldable pub save_turn_timing : String → String → TurnTiming → SessionStore → SessionStore
save_turn_timing id message_id turn s =
    if has_session id s
    then record s {
      timing_rows =
          keep (other_turn id message_id) s.timing_rows
          ++ record { session_id = id; message_id = message_id; turn = turn } ∷ [];
    }
    else s

abbrev pub timings_of : String → List TimingRow → Dict String TurnTiming
timings_of id [] = []
timings_of id (r ∷ rows) =
    let rest = timings_of id rows in
    if r.session_id == id then (r.message_id, r.turn) ∷ rest else rest

unfoldable pub turn_timings : String → SessionStore → Dict String TurnTiming
turn_timings id s = timings_of id s.timing_rows

unfoldable pub get : String → SessionStore → Option SessionInfo
unfolding find_row
get id s = Option.map session_info (find_row id s.catalogue)

-- The stamps are compared as texts, by `before`; rows with the same stamp have no promised order.
module _ (before : String → String → Bool) where
  unfoldable pub insert_newest : Row → List Row → List Row
  insert_newest row [] = row ∷ []
  insert_newest row (r ∷ rows) =
      if before row.updated_at r.updated_at then r ∷ insert_newest row rows else row ∷ r ∷ rows

  unfoldable pub newest_first : List Row → List Row
  newest_first [] = []
  newest_first (row ∷ rows) = insert_newest row (newest_first rows)

  unfoldable pub list_sessions : ℕ → SessionStore → List SessionInfo
  list_sessions limit s = map session_info (take limit (newest_first s.catalogue))

abbrev pub only {ℓ} : {A : Type ℓ} → List A → Option A
only (a ∷ []) = some a
only _ = none

-- `like pattern id` is SQLite's `id LIKE pattern`.
unfoldable pub resolve_prefix :
    Python → (String → String → Bool) → String → SessionStore → Option SessionInfo
resolve_prefix py like prefix s =
    let p = py.strip prefix in
    if p == ""
    then none
    else or_else (get p s)
        (Option.map session_info (only (keep (λ row. like (p <> "%") row.id) s.catalogue)))
