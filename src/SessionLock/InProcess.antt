-- ===== src/SessionLock/InProcess.antt =====
-- agent/session_lock.py: `InProcessSessionLockManager` for one checkpointer. Leases are objects,
-- named by numbers in the order in which they are made; an owner is a weak reference to one, and
-- `collected` says which leases nobody holds any more. Calls are whole here; Threads has their parts.
use deep_agent_cli.Prelude.{
  ℕ, suc, String, Bool, true, false, not, ◌&&◌, Option, none, some, List, [], ◌∷◌, ◌==◌,
  nat_comparable, text_comparable, if◌then◌else◌,
}
use deep_agent_cli.Prelude.Dict.{Dict, lookup, insert, erase, values}

pub record Lease : Type 0 where
  pub thread_id : String
  pub released : Bool

pub record Locks : Type 0 where
  pub owners : Dict String ℕ
  pub leases : ℕ → Lease
  pub collected : ℕ → Bool
  pub next_lease : ℕ

abbrev pub init : Locks
init = record {
  owners = [];
  leases = λ g. record { thread_id = ""; released = true };
  collected = λ g. false;
  next_lease = 0;
}

abbrev pub set_lease : ℕ → Lease → (ℕ → Lease) → ℕ → Lease
set_lease g lease leases h = if h == g then lease else leases h

-- `held()` is a lease that is not released.
abbrev pub holds : Locks → ℕ → Bool
holds l g = not (l.collected g) && not (l.leases g).released

abbrev pub is_held : Option ℕ → Locks → Bool
is_held none l = false
is_held (some g) l = holds l g

abbrev make_lease : String → Locks → Locks
make_lease thread l = record l {
  leases = set_lease l.next_lease (record { thread_id = thread; released = false }) l.leases;
  next_lease = suc l.next_lease;
}

-- The new lease is the owner of its thread.
abbrev pub grant : String → Locks → Locks
grant thread l = record (make_lease thread l) { owners = insert thread l.next_lease l.owners }

-- Without a checkpointer nothing is shared: `alone` is its absence.
unfoldable pub try_acquire : Bool → String → Locks → Option ℕ × Locks
try_acquire true thread l = (some l.next_lease, make_lease thread l)
try_acquire false thread l =
    if is_held (lookup thread l.owners) l then (none, l) else (some l.next_lease, grant thread l)

abbrev pub refers : Option ℕ → ℕ → Bool
refers none g = false
refers (some h) g = h == g

-- `release` sets its flag, and then takes the owner's own entry out, under the guard.
abbrev pub mark_released : ℕ → Locks → Locks
mark_released g l = record l {
  leases = set_lease g (record (l.leases g) { released = true }) l.leases;
}

abbrev pub drop_entry : ℕ → Locks → Locks
drop_entry g l = record l {
  owners =
      if refers (lookup (l.leases g).thread_id l.owners) g
      then erase (l.leases g).thread_id l.owners
      else l.owners;
}

-- Only the owner's own entry goes. A lease that runs this method is not collected.
unfoldable pub release : ℕ → Locks → Locks
release g l = if (l.leases g).released then l else record l {
  leases = set_lease g (record (l.leases g) { released = true }) l.leases;
  owners =
      if refers (lookup (l.leases g).thread_id l.owners) g
      then erase (l.leases g).thread_id l.owners
      else l.owners;
}

pub data Poll : Type 0 where
  gave_up : Poll
  acquired : ℕ → Poll
  still_waiting : Poll

-- One round of `wait_acquire`: the answers of its two calls of `cancelled`.
unfoldable pub poll : Bool → Bool → Bool → String → Locks → Poll × Locks
poll true after alone thread l = (gave_up, l)
poll false after alone thread l = keep_or_release after (try_acquire alone thread l)
  where
    keep_or_release : Bool → Option ℕ × Locks → Poll × Locks
    keep_or_release after (none, l) = (still_waiting, l)
    keep_or_release true (some g, l) = (gave_up, release g l)
    keep_or_release false (some g, l) = (acquired g, l)

unfoldable pub release_each : List ℕ → Locks → Locks
release_each [] l = l
release_each (g ∷ leases) l = release_each leases (if l.collected g then l else release g l)

-- The guarded part of `close`, whose leases are released after it.
abbrev pub clear_owners : Locks → Locks
clear_owners l = record l { owners = [] }

unfoldable pub close : Bool → Locks → Locks
close true l = l
close false l = release_each (values l.owners) (clear_owners l)

-- The last holder of a lease lets go of it.
abbrev pub collect : ℕ → Locks → Locks
collect g l = record l { collected = λ h. if h == g then true else l.collected h }
