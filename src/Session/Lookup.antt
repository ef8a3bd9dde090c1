-- ===== src/Session/Lookup.antt =====
-- What a session's row is after each operation on the catalogue.
use mathlib.Core.Option
use deep_agent_cli.Prelude.{
  ==-refl, eq_iff, String, ◌≡◌, ◌≢◌, refl, sym, ap, ◌∙◌, ◌&&◌, Option, none, some, List, [], ◌∷◌,
  ◌++◌, arith, ◌==◌, nat_comparable, text_comparable, if◌then◌else◌, or_else, keep, Bool, true,
  false, map,
}
use deep_agent_cli.Session.Catalogue.{
  text_else, Json, insert_metrics, if_given, session_info, timings_of, metrics_of, other_turn,
  TimingRow, MetricsRow, change, has_session, SessionInfo, SessionStore, turn_timings,
  model_metrics_history, Changes, get, update_row, Row, save_turn_timing, append_model_metrics,
  touch, create_session, find_row,
}
use deep_agent_cli.Value.{Fields}
use deep_agent_cli.RunEvents.{TurnTiming}
use deep_agent_cli.Prelude.Dict.{lookup}
use deep_agent_cli.Session.Status.{status_for_reason, pending, running}

true-false : true ≡ false → ⊥
true-false h = cc h

pub find_row-append :
    (id : String) (rows others : List Row)
    → find_row id (rows ++ others) ≡ or_else (find_row id rows) (find_row id others)
unfolding find_row
find_row-append id [] others = refl
find_row-append id (row ∷ rows) others = ground (arith, find_row-append id rows others)

-- `update_row` rewrites the row it finds, if `f` keeps the key, and no other.
pub find_row-update_row :
    (f : Row → Row) (keeps : (r : Row) → (f r).id ≡ r.id) (id j : String) (rows : List Row)
    → find_row j (update_row f id rows)
      ≡ (if j == id then Option.map f (find_row j rows) else find_row j rows)
unfolding find_row update_row
find_row-update_row f keeps id j [] = ground arith
find_row-update_row f keeps id j (row ∷ rows) = ground (
  arith,
  find_row-update_row f keeps id j rows,
  keeps row,
  eq_iff j id,
  eq_iff row.id id,
  eq_iff row.id j,
)

or_else-none {ℓ} : {A : Type ℓ} (o : Option A) → or_else o none ≡ o
or_else-none none = refl
or_else-none (some a) = refl

find_row_self : (row : Row) → find_row row.id (row ∷ []) ≡ some row
unfolding find_row
find_row_self row = ground (arith, ==-refl row.id)

find_row_other : (j : String) (row : Row) → j ≢ row.id → find_row j (row ∷ []) ≡ none
unfolding find_row
find_row_other j row other = ground (arith, eq_iff row.id j)

pub create_session-shape :
    (now uuid title : String) (session_id model_id mode : Option String) (effort : String)
    (s : SessionStore) (info : SessionInfo) (s' : SessionStore)
    → create_session now uuid title session_id model_id mode effort s ≡ some (info, s')
    → (find_row info.row.id s.catalogue ≡ none)
      × (s'.catalogue ≡ s.catalogue ++ info.row ∷ [])
      × (info ≡ session_info info.row)
      × (info.row.last_run_status ≡ pending)
      × (info.status ≡ running)
unfolding create_session status_for_reason
create_session-shape now uuid title session_id model_id mode effort s info s' made =
    (ground arith, ground arith, ground arith, ground arith, ground arith)

-- A session is created only if its id is free. Then it is found with its row, it counts as
-- running, its last run as pending, and every other session is found as before.
pub create_session-get :
    (now uuid title : String) (session_id model_id mode : Option String) (effort : String)
    (s : SessionStore) (info : SessionInfo) (s' : SessionStore)
    → create_session now uuid title session_id model_id mode effort s ≡ some (info, s')
    → (get info.row.id s ≡ none)
      × (get info.row.id s' ≡ some info)
      × ((info.status ≡ running) × (info.row.last_run_status ≡ pending))
      × ((j : String) → j ≢ info.row.id → get j s' ≡ get j s)
unfolding get
create_session-get now uuid title session_id model_id mode effort s info s' made =
    let shape =
      create_session-shape now uuid title session_id model_id mode effort s info s' made in
    (
      ap (Option.map session_info) shape.0,
      ap (λ rows. Option.map session_info (find_row info.row.id rows)) shape.1
          ∙ ap (Option.map session_info) (
              find_row-append info.row.id s.catalogue (info.row ∷ [])
              ∙ ap (λ o. or_else o (find_row info.row.id (info.row ∷ []))) shape.0
              ∙ find_row_self info.row)
          ∙ ap some (sym shape.2),
      (shape.4, shape.3),
      λ j other.
          ap (λ rows. Option.map session_info (find_row j rows)) shape.1
          ∙ ap (Option.map session_info) (
              find_row-append j s.catalogue (info.row ∷ [])
              ∙ ap (or_else (find_row j s.catalogue)) (find_row_other j info.row other)
              ∙ or_else-none (find_row j s.catalogue)),
    )

-- What a session that is created consists of, and why one is refused.
pub create_session-row :
    (now uuid title : String) (session_id model_id mode : Option String) (effort : String)
    (s : SessionStore) (info : SessionInfo) (s' : SessionStore)
    → create_session now uuid title session_id model_id mode effort s ≡ some (info, s')
    → (info.row.id ≡ text_else session_id uuid)
      × (info.row.model_id ≡ model_id)
      × (info.row.permission_mode ≡ mode)
      × (info.row.reasoning_effort ≡ effort)
unfolding create_session
create_session-row now uuid title session_id model_id mode effort s info s' made =
    (ground arith, ground arith, ground arith, ground arith)

pub create_session-none :
    (now uuid title : String) (session_id model_id mode : Option String) (effort : String)
    (s : SessionStore)
    → create_session now uuid title session_id model_id mode effort s ≡ none
    → has_session (text_else session_id uuid) s ≡ true
unfolding create_session
create_session-none now uuid title session_id model_id mode effort s refused = ground arith

pub find_row-create_session :
    (now uuid title : String) (session_id model_id mode : Option String) (effort : String)
    (s : SessionStore) (info : SessionInfo) (s' : SessionStore)
    → create_session now uuid title session_id model_id mode effort s ≡ some (info, s')
    → find_row info.row.id s'.catalogue ≡ some info.row
find_row-create_session now uuid title session_id model_id mode effort s info s' made =
    let shape =
      create_session-shape now uuid title session_id model_id mode effort s info s' made in
    ap (find_row info.row.id) shape.1
    ∙ find_row-append info.row.id s.catalogue (info.row ∷ [])
    ∙ ap (λ o. or_else o (find_row info.row.id (info.row ∷ []))) shape.0
    ∙ find_row_self info.row

-- A field is what it was, or what was given for it.
abbrev pub Given {ℓ} : {A : Type ℓ} → Option A → A → A → Type ℓ
Given none old new = new ≡ old
Given (some a) old new = new ≡ a

abbrev pub GivenText : Option String → Option String → Option String → Type 0
GivenText none old new = new ≡ old
GivenText (some a) old new = new ≡ some a

-- Each field that is given is replaced, the time of the update is new, and all else stays.
pub record IsTouched (ch : Changes) (now : String) (old new : Row) : Type 0 where
  pub same_id : new.id ≡ old.id
  pub same_created_at : new.created_at ≡ old.created_at
  pub same_pending_model : new.pending_model_id ≡ old.pending_model_id
  pub same_pending_mode : new.pending_permission_mode ≡ old.pending_permission_mode
  pub same_pending_effort : new.pending_reasoning_effort ≡ old.pending_reasoning_effort
  pub new_updated_at : new.updated_at ≡ now
  pub given_title : Given ch.title old.title new.title
  pub given_model : GivenText ch.model_id old.model_id new.model_id
  pub given_mode : GivenText ch.permission_mode old.permission_mode new.permission_mode
  pub given_status : Given ch.last_run_status old.last_run_status new.last_run_status
  pub given_effort : Given ch.reasoning_effort old.reasoning_effort new.reasoning_effort

if_given-Given {ℓ} : {A : Type ℓ} (o : Option A) (old : A) → Given o old (if_given o old)
if_given-Given none old = refl
if_given-Given (some a) old = refl

or_else-GivenText : (o old : Option String) → GivenText o old (or_else o old)
or_else-GivenText none old = refl
or_else-GivenText (some a) old = refl

change-IsTouched : (ch : Changes) (now : String) (r : Row) → IsTouched ch now r (change ch now r)
change-IsTouched ch now r = record {
  same_id = refl;
  same_created_at = refl;
  same_pending_model = refl;
  same_pending_mode = refl;
  same_pending_effort = refl;
  new_updated_at = refl;
  given_title = if_given-Given ch.title r.title;
  given_model = or_else-GivenText ch.model_id r.model_id;
  given_mode = or_else-GivenText ch.permission_mode r.permission_mode;
  given_status = if_given-Given ch.last_run_status r.last_run_status;
  given_effort = if_given-Given ch.reasoning_effort r.reasoning_effort;
}

find_row-touch :
    (now id j : String) (ch : Changes) (s : SessionStore)
    → find_row j (touch now id ch s).catalogue ≡ (
        if j == id
        then Option.map (change ch now) (find_row j s.catalogue)
        else find_row j s.catalogue)
unfolding touch
find_row-touch now id j ch s =
    ground (arith, find_row-update_row (change ch now) (λ r. refl) id j s.catalogue, eq_iff j id)

-- `touch` on a session that is found replaces exactly the fields that are given and the time of its
-- update, and every other field of its row stays; the row of another session stays whole. A session
-- that is not found is not found afterwards either.
pub touch-get :
    (now id j : String) (ch : Changes) (s : SessionStore)
    → (find_row j s.catalogue ≡ none → find_row j (touch now id ch s).catalogue ≡ none)
      × ((r : Row)
          → find_row j s.catalogue ≡ some r
          → (new : Row) × (find_row j (touch now id ch s).catalogue ≡ some new)
            × (j ≡ id → IsTouched ch now r new)
            × (j ≢ id → new ≡ r))
touch-get now id j ch s = (
  λ e. find_row-touch now id j ch s ∙ absent (j == id) (find_row j s.catalogue) e,
  λ r e. present r e (j == id) refl,
)
  where
    absent :
        (t : Bool) (o : Option Row)
        → o ≡ none
        → (if t then Option.map (change ch now) o else o) ≡ none
    absent true o e = ap (Option.map (change ch now)) e
    absent false o e = e

    present :
        (r : Row)
        → find_row j s.catalogue ≡ some r
        → (t : Bool) → (j == id) ≡ t
        → (new : Row) × (find_row j (touch now id ch s).catalogue ≡ some new)
          × (j ≡ id → IsTouched ch now r new)
          × (j ≢ id → new ≡ r)
    present r e true same = (
      change ch now r,
      find_row-touch now id j ch s
          ∙ ap
              (λ t.
                if t
                then Option.map (change ch now) (find_row j s.catalogue)
                else find_row j s.catalogue)
              same
          ∙ ap (Option.map (change ch now)) e,
      λ x. change-IsTouched ch now r,
      λ other. absurd (other ((eq_iff j id).0 same)),
    )
    present r e false same = (
      r,
      find_row-touch now id j ch s
          ∙ ap
              (λ t.
                if t
                then Option.map (change ch now) (find_row j s.catalogue)
                else find_row j s.catalogue)
              same
          ∙ e,
      λ x. absurd (true-false (sym ((eq_iff j id).1 x) ∙ same)),
      λ other. refl,
    )

append_nil {ℓ} : {A : Type ℓ} (xs : List A) → xs ++ [] ≡ xs
append_nil [] = refl
append_nil (x ∷ xs) = ap (λ ys. x ∷ ys) (append_nil xs)

metrics_of-append :
    (id : String) (rows others : List MetricsRow)
    → metrics_of id (rows ++ others) ≡ metrics_of id rows ++ metrics_of id others
metrics_of-append id [] others = refl
metrics_of-append id (r ∷ rows) others = ground (arith, metrics_of-append id rows others)

map-append_one {ℓ} :
    {A B : Type ℓ} (f : A → B) (xs : List A) (x : A) → map f (xs ++ x ∷ []) ≡ map f xs ++ f x ∷ []
map-append_one f [] x = refl
map-append_one f (y ∷ xs) x = ap (λ l. f y ∷ l) (map-append_one f xs x)

metrics_of-insert_metrics :
    (id j payload : String) (s : SessionStore)
    → metrics_of j (insert_metrics id payload s).metrics_rows ≡ (
        if has_session id s && id == j
        then metrics_of j s.metrics_rows ++ payload ∷ []
        else metrics_of j s.metrics_rows)
metrics_of-insert_metrics id j payload s = ground (
  arith,
  metrics_of-append j s.metrics_rows (record { session_id = id; metrics_json = payload } ∷ []),
  append_nil (metrics_of j s.metrics_rows),
)

-- Metrics are stored just where they have a JSON text, and an error stores nothing. Where `json.loads`
-- reads back what `json.dumps` has written, they are then read back, in the order in which they came,
-- for the sessions of the catalogue and apart from each other.
pub append_model_metrics-history :
    (json : Json)
    → ((m : Fields) (payload : String) → json.dumps m ≡ some payload → json.loads payload ≡ m)
    → (id j : String) (metrics : Fields) (s : SessionStore)
    → (json.dumps metrics ≡ none → append_model_metrics json id metrics s ≡ none)
      × ((payload : String)
          → json.dumps metrics ≡ some payload
          → (s' : SessionStore) × (append_model_metrics json id metrics s ≡ some s')
            × (model_metrics_history json j s' ≡ (
                if has_session id s && id == j
                then model_metrics_history json j s ++ metrics ∷ []
                else model_metrics_history json j s)))
unfolding append_model_metrics model_metrics_history
append_model_metrics-history json reads id j metrics s = (
  λ e. ap (Option.map (λ payload. insert_metrics id payload s)) e,
  λ payload e. (
    insert_metrics id payload s,
    ap (Option.map (λ p. insert_metrics id p s)) e,
    ap (map json.loads) (metrics_of-insert_metrics id j payload s)
        ∙ read_back payload (reads metrics payload e) (has_session id s && id == j),
  ),
)
  where
    read_back :
        (payload : String)
        → json.loads payload ≡ metrics
        → (t : Bool)
        → map json.loads
            (if t then metrics_of j s.metrics_rows ++ payload ∷ [] else metrics_of j s.metrics_rows)
          ≡ (if t
              then map json.loads (metrics_of j s.metrics_rows) ++ metrics ∷ []
              else map json.loads (metrics_of j s.metrics_rows))
    read_back payload e true =
        map-append_one json.loads (metrics_of j s.metrics_rows) payload
        ∙ ap (λ m. map json.loads (metrics_of j s.metrics_rows) ++ m ∷ []) e
    read_back payload e false = refl

lookup-timings_of-append :
    (id k : String) (rows others : List TimingRow)
    → lookup k (timings_of id (rows ++ others))
      ≡ or_else (lookup k (timings_of id rows)) (lookup k (timings_of id others))
unfolding lookup
lookup-timings_of-append id k [] others = refl
lookup-timings_of-append id k (r ∷ rows) others =
    ground (arith, lookup-timings_of-append id k rows others)

lookup-timings_of-keep :
    (id m : String) (rows : List TimingRow)
    → lookup m (timings_of id (keep (other_turn id m) rows)) ≡ none
unfolding lookup
lookup-timings_of-keep id m [] = refl
lookup-timings_of-keep id m (r ∷ rows) =
    grind (arith, lookup-timings_of-keep id m rows, eq_iff r.message_id m, eq_iff m r.message_id)

-- The saved time of a turn is read back, whatever was saved for it before. A session that is not
-- in the catalogue saves none.
pub save_turn_timing-turn_timings :
    (id m : String) (turn : TurnTiming) (s : SessionStore)
    → lookup m (turn_timings id (save_turn_timing id m turn s))
      ≡ (if has_session id s then some turn else lookup m (turn_timings id s))
unfolding save_turn_timing turn_timings lookup
save_turn_timing-turn_timings id m turn s = ground (
  arith,
  lookup-timings_of-append id m (keep (other_turn id m) s.timing_rows)
      (record { session_id = id; message_id = m; turn = turn } ∷ []),
  lookup-timings_of-keep id m s.timing_rows,
  ==-refl m,
  ==-refl id,
)
