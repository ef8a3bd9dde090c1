-- ===== src/SessionRuntime/Leases.antt =====
-- agent/session_runtime.py: `SessionRuntime`. The two lock managers are an interface over the state
-- of all locks, of which the runtime is a client; `now` and `uuid` are the clock and a fresh
-- identifier.
use deep_agent_cli.Prelude.{
  ℕ, String, ◌≡◌, refl, ap, Bool, true, false, not, ◌||◌, Option, none, some, ◌==◌, nat_comparable,
  text_comparable, if◌then◌else◌, is_some, sym, ◌∙◌,
}
use deep_agent_cli.Session.Status.{SessionStatus}
use Prim.Native.String.{◌++◌ as ◌<>◌}
use deep_agent_cli.Session.Lookup.{
  create_session-none, create_session-row, create_session-shape, find_row-create_session,
}
use deep_agent_cli.Session.Catalogue.{
  find_row, has_session, text_else, Row, new_row, create_session, SessionInfo, SessionStore,
}

pub record LockTable (L : Type 0) : Type 0 where
  pub try_in_process : String → L → Option ℕ × L
  pub try_stored : String → L → Option ℕ × L
  pub release_lease : ℕ → L → L
  pub lease_thread : L → ℕ → String

pub record SessionRuntime (L : Type 0) : Type 0 where
  pub locks : L
  pub store : Option SessionStore
  pub persist_on_first_message : Bool
  pub draft : Option SessionInfo
  pub thread_id : Option String
  pub lease : Option ℕ
  pub pending_switch : Option String
  pub abort_wait : Bool

-- What a method returns or raises: `busy` is `SessionLockBusyError`, `duplicate` the database's error
-- for an id that is taken.
pub data Outcome (A : Type 0) : Type 0 where
  done : A → Outcome A
  busy : String → Outcome A
  duplicate : Outcome A

abbrev pub is_id : String → Option SessionInfo → Bool
is_id thread none = false
is_id thread (some info) = info.row.id == thread

module _ {L : Type 0} (table : LockTable L) where
  abbrev pub owns : String → SessionRuntime L → Bool
  owns thread r = holds_thread r.lease
    where
      holds_thread : Option ℕ → Bool
      holds_thread none = false
      holds_thread (some g) = table.lease_thread r.locks g == thread

  abbrev acquire_with :
      (String → L → Option ℕ × L) → String → SessionRuntime L → Option ℕ × SessionRuntime L
  acquire_with acquire thread r =
      let (g, locks) = acquire thread r.locks in (g, record r { locks = locks })

  unfoldable pub try_acquire : String → SessionRuntime L → Option ℕ × SessionRuntime L
  try_acquire thread r =
      acquire_with
        (if is_id thread r.draft || not (is_some r.store)
          then table.try_in_process
          else table.try_stored)
        thread r

  abbrev release_some : Option ℕ → L → L
  release_some none locks = locks
  release_some (some g) locks = table.release_lease g locks

  -- The new lease is bound before the previous one goes.
  unfoldable pub adopt : String → ℕ → SessionRuntime L → SessionRuntime L
  adopt thread g r = record r {
    thread_id = some thread;
    lease = some g;
    draft = if is_id thread r.draft then r.draft else none;
    pending_switch = none;
    locks = release_some r.lease r.locks;
  }

  abbrev adopt_acquired :
      {A : Type 0} → A → String → Option ℕ × SessionRuntime L → Outcome A × SessionRuntime L
  adopt_acquired a thread (none, r) = (busy thread, r)
  adopt_acquired a thread (some g, r) = (done a, adopt thread g r)

  unfoldable pub adopt_new :
      {A : Type 0} → A → String → SessionRuntime L → Outcome A × SessionRuntime L
  unfolding try_acquire adopt
  adopt_new a thread r = adopt_acquired a thread (try_acquire thread r)

  unfoldable pub bind : String → SessionRuntime L → SessionRuntime L
  bind thread r = record r { thread_id = some thread; pending_switch = none }

  unfoldable pub detach_for_wait : String → SessionRuntime L → SessionRuntime L
  detach_for_wait target r = record r {
    lease = none;
    locks = release_some r.lease r.locks;
    pending_switch = some target;
  }

  unfoldable pub clear_pending : SessionRuntime L → SessionRuntime L
  clear_pending r = record r { pending_switch = none }

  unfoldable pub release : SessionRuntime L → SessionRuntime L
  release r = record r { lease = none; locks = release_some r.lease r.locks }

  unfoldable pub abort : SessionRuntime L → SessionRuntime L
  abort r = record r { abort_wait = true }

  unfoldable pub close : SessionRuntime L → SessionRuntime L
  unfolding release abort
  close r = release (abort r)

  abbrev draft_acquired :
      SessionInfo → Option ℕ × SessionRuntime L → Outcome SessionInfo × SessionRuntime L
  draft_acquired info (none, r) = (busy info.row.id, r)
  draft_acquired info (some g, r) =
      (done info, record (adopt info.row.id g r) { draft = some info })

  -- A draft is in memory only: no row and no lock file.
  unfoldable pub create_draft :
      SessionInfo → SessionRuntime L → Outcome SessionInfo × SessionRuntime L
  unfolding adopt
  create_draft info r = draft_acquired info (acquire_with table.try_in_process info.row.id r)

  abbrev adopt_created :
      Option (SessionInfo × SessionStore)
      → SessionRuntime L
      → Outcome SessionInfo × SessionRuntime L
  adopt_created none r = (duplicate, r)
  adopt_created (some (info, s)) r = adopt_new info info.row.id (record r { store = some s })

  abbrev draft_info : String → String → String → String → String → String → SessionInfo
  draft_info now id title model_id mode effort = record {
    row = new_row id title now (some model_id) (some mode) effort;
    status = SessionStatus.running;
  }

  abbrev create_in :
      Option SessionStore
      → Bool
      → String
      → String
      → String
      → String
      → String
      → String
      → SessionRuntime L
      → Outcome SessionInfo × SessionRuntime L
  create_in (some s) false now uuid title model_id mode effort r =
      adopt_created (create_session now uuid title none (some model_id) (some mode) effort s) r
  create_in (some s) true now uuid title model_id mode effort r =
      create_draft (draft_info now uuid title model_id mode effort) r
  create_in none persist now uuid title model_id mode effort r =
      create_draft (draft_info now ("cli-" <> uuid) title model_id mode effort) r

  unfoldable pub create_new :
      String
      → String
      → String
      → String
      → String
      → String
      → SessionRuntime L
      → Outcome SessionInfo × SessionRuntime L
  unfolding create_session create_draft adopt_new
  create_new now uuid title model_id mode effort r =
      create_in r.store r.persist_on_first_message now uuid title model_id mode effort r

  abbrev promote :
      Option (SessionInfo × SessionStore)
      → String
      → ℕ
      → SessionRuntime L
      → Outcome Unit × SessionRuntime L
  promote none id g r = (duplicate, record r { locks = table.release_lease g r.locks })
  promote (some (info, s)) id g r =
      (done tt, record (adopt id g (record r { store = some s })) { draft = none })

  abbrev persist_acquired :
      String
      → String
      → String
      → String
      → String
      → SessionStore
      → SessionInfo
      → Option ℕ × SessionRuntime L
      → Outcome Unit × SessionRuntime L
  persist_acquired now uuid model_id mode effort s d (none, r) = (busy d.row.id, r)
  persist_acquired now uuid model_id mode effort s d (some g, r) =
      promote
        (create_session now uuid d.row.title (some d.row.id) (some model_id) (some mode) effort s)
        d.row.id g r

  abbrev persist_draft :
      Option SessionStore
      → Option SessionInfo
      → String
      → String
      → String
      → String
      → String
      → SessionRuntime L
      → Outcome Unit × SessionRuntime L
  persist_draft (some s) (some d) now uuid model_id mode effort r =
      persist_acquired now uuid model_id mode effort s d (acquire_with table.try_stored d.row.id r)
  persist_draft _ _ now uuid model_id mode effort r = (done tt, r)

  unfoldable pub persist_for_message :
      String
      → String
      → String
      → String
      → String
      → SessionRuntime L
      → Outcome Unit × SessionRuntime L
  unfolding create_session adopt
  persist_for_message now uuid model_id mode effort r =
      persist_draft r.store r.draft now uuid model_id mode effort r

  -- What a runtime is but for the locks, which other runners share.
  abbrev pub KeepsAll : SessionRuntime L → SessionRuntime L → Type 0
  KeepsAll r r' = r' ≡ record r { locks = r'.locks }

  -- The identifier that the row of a draft gets; that of a draft is never empty.
  abbrev pub stored_id : String → SessionInfo → String
  stored_id uuid d = text_else (some d.row.id) uuid

  abbrev with_locks : L → SessionRuntime L → SessionRuntime L
  with_locks locks r = record r { locks = locks }

  module _ (now uuid model_id mode effort : String) where
    -- The draft `d` is a row of the store with the given values, its thread is the runtime's, with
    -- the lease that the store's locks gave, and it is a draft no longer.
    pub record IsStored (s : SessionStore) (d : SessionInfo) (r r' : SessionRuntime L)
        : Type 0 where
      pub stored : SessionStore
      pub row : Row
      pub in_store : r'.store ≡ some stored
      pub was_free : find_row (stored_id uuid d) s.catalogue ≡ none
      pub found : find_row (stored_id uuid d) stored.catalogue ≡ some row
      pub same_model : row.model_id ≡ some model_id
      pub same_mode : row.permission_mode ≡ some mode
      pub same_effort : row.reasoning_effort ≡ effort
      pub no_draft : r'.draft ≡ none
      pub same_thread : r'.thread_id ≡ some d.row.id
      pub same_lease : r'.lease ≡ (table.try_stored d.row.id r.locks).0
      pub is_leased : is_some r'.lease ≡ true

    abbrev pub PersistedFor :
        Option SessionStore
        → Option SessionInfo
        → SessionRuntime L
        → Outcome Unit
        → SessionRuntime L
        → Type 0
    PersistedFor (some s) (some d) r (done u) r' = IsStored s d r r'
    PersistedFor (some s) (some d) r (busy thread) r' =
        (thread ≡ d.row.id) × ((table.try_stored d.row.id r.locks).0 ≡ none) × KeepsAll r r'
    PersistedFor (some s) (some d) r duplicate r' =
        (has_session (stored_id uuid d) s ≡ true) × KeepsAll r r'
    PersistedFor (some s) none r o r' = (o ≡ done tt) × (r' ≡ r)
    PersistedFor none d r o r' = (o ≡ done tt) × (r' ≡ r)

    abbrev pub Persisted : SessionRuntime L → Outcome Unit × SessionRuntime L → Type 0
    Persisted r (o, r') = PersistedFor r.store r.draft r o r'

    promote-Persisted :
        (s : SessionStore) (d : SessionInfo) (r : SessionRuntime L) (g : ℕ)
        (made : Option (SessionInfo × SessionStore)) (locks : L)
        → (table.try_stored d.row.id r.locks).0 ≡ some g
        → create_session now uuid d.row.title (some d.row.id) (some model_id) (some mode) effort s
          ≡ made
        → let (o, r') = promote made d.row.id g (record r { locks = locks }) in
          PersistedFor (some s) (some d) r o r'
    unfolding adopt
    promote-Persisted s d r g none locks leased made = (
      create_session-none now uuid d.row.title (some d.row.id) (some model_id) (some mode) effort s
          made,
      refl,
    )
    promote-Persisted s d r g (some (info, s')) locks leased made =
        let row =
          create_session-row now uuid d.row.title (some d.row.id) (some model_id) (some mode) effort
            s info s' made in
        let shape =
          create_session-shape now uuid d.row.title (some d.row.id) (some model_id) (some mode)
            effort s info s' made in
        record {
          stored = s';
          row = info.row;
          in_store = refl;
          was_free = ap (λ id. find_row id s.catalogue) (sym row.0) ∙ shape.0;
          found =
              ap (λ id. find_row id s'.catalogue) (sym row.0)
              ∙ find_row-create_session now uuid d.row.title (some d.row.id) (some model_id)
                  (some mode) effort s info s' made;
          same_model = row.1;
          same_mode = row.2;
          same_effort = row.3;
          no_draft = refl;
          same_thread = refl;
          same_lease = sym leased;
          is_leased = refl;
        }

    persist_acquired-Persisted :
        (s : SessionStore) (d : SessionInfo) (r : SessionRuntime L) (o : Option ℕ) (locks : L)
        → (table.try_stored d.row.id r.locks).0 ≡ o
        → let (answer, r') =
            persist_acquired now uuid model_id mode effort s d (o, record r { locks = locks }) in
          PersistedFor (some s) (some d) r answer r'
    persist_acquired-Persisted s d r none locks e = (refl, e, refl)
    persist_acquired-Persisted s d r (some g) locks e = promote-Persisted s d r g _ locks e refl

    persist_draft-Persisted :
        (store : Option SessionStore) (draft : Option SessionInfo) (r : SessionRuntime L)
        → let (o, r') = persist_draft store draft now uuid model_id mode effort r in
          PersistedFor store draft r o r'
    persist_draft-Persisted (some s) (some d) r =
        persist_acquired-Persisted s d r (table.try_stored d.row.id r.locks).0
          (table.try_stored d.row.id r.locks).1 refl
    persist_draft-Persisted (some s) none r = (refl, refl)
    persist_draft-Persisted none draft r = (refl, refl)

    -- With a store and a draft, storing succeeds as a whole or changes nothing but the locks. On success
    -- the draft's identifier was free in the store and now has a row with the given values, and the
    -- runtime has no draft, and its thread under a lease of the store's locks. It raises only where
    -- the thread has no lease to give, or its identifier is in the store; the runtime then keeps
    -- its thread, lease, draft and store. Without a store or a draft it does nothing.
    pub persist_for_message-Persisted :
        (r : SessionRuntime L) → Persisted r (persist_for_message now uuid model_id mode effort r)
    unfolding persist_for_message
    persist_for_message-Persisted r = persist_draft-Persisted r.store r.draft r
