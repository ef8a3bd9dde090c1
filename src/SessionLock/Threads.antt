-- ===== src/SessionLock/Threads.antt =====
-- Threads that call one manager at the same time: each section under the guard, and each part of a
-- call outside of it, is a step. A `close` that has taken leases out of the table releases them later,
-- and they are held until then.
use deep_agent_cli.SessionLock.Exclusive.{
  IsExclusive, grant-IsExclusive, init-IsExclusive, contains-values,
}
use deep_agent_cli.SessionLock.InProcess.{
  Locks, try_acquire, mark_released, drop_entry, collect, clear_owners, init, holds, is_held, grant,
}
use deep_agent_cli.Prelude.{eq_iff, nat_beq_iff}
use deep_agent_cli.Prelude.Dict.{lookup, values, lookup-erase}
use deep_agent_cli.Prelude.{
  Bool, ℕ, ◌<◌, String, ◌≡◌, refl, ap, ◌∙◌, true, false, not, ◌&&◌, ◌||◌, Option, none, some, List,
  [], ◌∷◌, ◌++◌, arith, nat_comparable, text_comparable, if◌then◌else◌, contains,
}

-- `cleared` has the leases that a `close` has taken out of the table, which it releases afterwards.
pub record Shared : Type 0 where
  pub locks : Locks
  pub cleared : List ℕ

-- A lease that runs `release` is not collected, and its entry goes once its flag is set.
pub data Step : Shared → Shared → Type 0 where
  acquires :
      (thread : String) (s : Shared)
      → Step s (record s { locks = (try_acquire false thread s.locks).1 })
  marks :
      (g : ℕ) (s : Shared)
      → g < s.locks.next_lease
      → Step s (record s { locks = mark_released g s.locks })
  drops :
      (g : ℕ) (s : Shared)
      → (s.locks.leases g).released ≡ true
      → Step s (record s { locks = drop_entry g s.locks })
  collects : (g : ℕ) (s : Shared) → Step s (record s { locks = collect g s.locks })
  clears :
      (s : Shared)
      → Step s
          (record { locks = clear_owners s.locks; cleared = values s.locks.owners ++ s.cleared })

abbrev pub unlocked : Shared
unlocked = record { locks = init; cleared = [] }

pub data Reach : Shared → Type 0 where
  start : Reach unlocked
  next : {s s' : Shared} → Reach s → Step s s' → Reach s'

-- The locks as they are but for the leases that a `close` has taken out.
abbrev hide : List ℕ → Locks → Locks
hide cleared l = record l { collected = λ g. l.collected g || contains cleared g }

holds-hide :
    (cleared : List ℕ) (l : Locks) (g : ℕ)
    → holds (hide cleared l) g ≡ (holds l g && not (contains cleared g))
holds-hide cleared l g = ground arith

-- Fewer leases are held, and all else that counts stays.
shrinks :
    (l l' : Locks)
    → IsExclusive l
    → ((g : ℕ) → holds l' g ≡ true → holds l g ≡ true)
    → ((g : ℕ) → (l'.leases g).thread_id ≡ (l.leases g).thread_id)
    → ((g : ℕ) → (l.leases g).released ≡ true → (l'.leases g).released ≡ true)
    → l'.owners ≡ l.owners
    → l'.next_lease ≡ l.next_lease
    → IsExclusive l'
shrinks l l' i fewer same released owners made = record {
  owned = λ g held.
      ap (lookup (l'.leases g).thread_id) owners
      ∙ ap (λ t. lookup t l.owners) (same g)
      ∙ i.owned g (fewer g held);
  fresh = λ g le. released g (i.fresh g (omega (arith, le, made)));
}

is_held-hide :
    (cleared : List ℕ) (l : Locks) (o : Option ℕ)
    → is_held o l ≡ false
    → is_held o (hide cleared l) ≡ false
is_held-hide cleared l none e = refl
is_held-hide cleared l (some g) e = ground (arith, e, holds-hide cleared l g)

abbrev outcome : String → Locks → Bool → Option ℕ × Locks
outcome thread l busy = if busy then (none, l) else (some l.next_lease, grant thread l)

acquires-IsExclusive :
    (thread : String) (cleared : List ℕ) (l : Locks)
    → IsExclusive (hide cleared l)
    → IsExclusive (hide cleared (try_acquire false thread l).1)
unfolding try_acquire
acquires-IsExclusive thread cleared l i = either (is_held (lookup thread l.owners) l) refl
  where
    either :
        (busy : Bool)
        → is_held (lookup thread l.owners) l ≡ busy
        → IsExclusive (hide cleared (outcome thread l busy).1)
    either true e = i
    either false e =
        grant-IsExclusive thread (hide cleared l) i
          (is_held-hide cleared l (lookup thread l.owners) e)

marks-IsExclusive :
    (g : ℕ) (cleared : List ℕ) (l : Locks)
    → IsExclusive (hide cleared l)
    → IsExclusive (hide cleared (mark_released g l))
marks-IsExclusive g cleared l i =
    shrinks (hide cleared l) (hide cleared (mark_released g l)) i (λ h held. ground (arith, held))
      (λ h. ground (arith, nat_beq_iff h g)) (λ h r. ground (arith, r)) refl refl

drops-IsExclusive :
    (g : ℕ) (cleared : List ℕ) (l : Locks)
    → (l.leases g).released ≡ true
    → IsExclusive (hide cleared l)
    → IsExclusive (hide cleared (drop_entry g l))
drops-IsExclusive g cleared l r i = record {
  owned = λ h held. grind (
    arith,
    held,
    r,
    lookup-erase (l.leases h).thread_id (l.leases g).thread_id l.owners,
    i.owned h held,
    eq_iff (l.leases h).thread_id (l.leases g).thread_id,
  );
  fresh = i.fresh;
}

contains-append :
    (xs ys : List ℕ) (g : ℕ) → contains (xs ++ ys) g ≡ (contains xs g || contains ys g)
contains-append [] ys g = refl
contains-append (x ∷ xs) ys g = ground (arith, contains-append xs ys g)

clears-IsExclusive :
    (cleared : List ℕ) (l : Locks)
    → IsExclusive (hide cleared l)
    → IsExclusive (hide (values l.owners ++ cleared) (clear_owners l))
clears-IsExclusive cleared l i = record {
  owned = λ h held.
      let before : holds (hide cleared l) h ≡ true =
        ground (arith, held, contains-append (values l.owners) cleared h) in
      ground (
        arith,
        held,
        contains-append (values l.owners) cleared h,
        contains-values (l.leases h).thread_id h l.owners (i.owned h before),
      );
  fresh = i.fresh;
}

Step-IsExclusive :
    {s s' : Shared}
    → Step s s'
    → IsExclusive (hide s.cleared s.locks)
    → IsExclusive (hide s'.cleared s'.locks)
Step-IsExclusive (acquires thread s) i = acquires-IsExclusive thread s.cleared s.locks i
Step-IsExclusive (marks g s made) i = marks-IsExclusive g s.cleared s.locks i
Step-IsExclusive (drops g s released) i = drops-IsExclusive g s.cleared s.locks released i
Step-IsExclusive (collects g s) i =
    shrinks (hide s.cleared s.locks) (hide s.cleared (collect g s.locks)) i
      (λ h held. ground (arith, held)) (λ h. refl) (λ h r. r) refl refl
Step-IsExclusive (clears s) i = clears-IsExclusive s.cleared s.locks i

Reach-IsExclusive : {s : Shared} → Reach s → IsExclusive (hide s.cleared s.locks)
Reach-IsExclusive start = init-IsExclusive
Reach-IsExclusive (next r s) = Step-IsExclusive s (Reach-IsExclusive r)

-- Whatever threads call at the same time, two leases of one thread that are both held, and that no
-- `close` has taken out of the table, are the same lease.
pub held_lease_unique :
    {s : Shared} (r : Reach s) (g h : ℕ)
    → holds s.locks g ≡ true
    → holds s.locks h ≡ true
    → contains s.cleared g ≡ false
    → contains s.cleared h ≡ false
    → (s.locks.leases g).thread_id ≡ (s.locks.leases h).thread_id
    → g ≡ h
held_lease_unique {s} r g h held_g held_h out_g out_h same =
    let i = Reach-IsExclusive r in
    ground (
      arith,
      i.owned g (ground (arith, held_g, out_g, holds-hide s.cleared s.locks g)),
      i.owned h (ground (arith, held_h, out_h, holds-hide s.cleared s.locks h)),
      ap (λ t. lookup t s.locks.owners) same,
    )
