-- ===== src/SessionLock/Refinement.antt =====
-- The lease manager in the process behaves as the owners of its threads.
use deep_agent_cli.Prelude.{
  ltb→lt, ℕ, ◌≤◌, ◌<◌, String, ◌≡◌, refl, ap, ◌∙◌, Bool, true, false, Option, none, some, List, [],
  ◌∷◌, arith, ltb, nat_comparable, text_comparable, if◌then◌else◌,
}
use deep_agent_cli.SessionLock.Owners
use deep_agent_cli.SessionLock.Owners.{
  acquire, give_back, drop, close_all, free, set_owner, Owners, Call,
}
use deep_agent_cli.SessionLock.Exclusive.{
  collect-IsExclusive, close-IsExclusive, release_each-next, release-next, grant-IsExclusive,
  release-IsExclusive, IsExclusive, init-IsExclusive,
}
use deep_agent_cli.SessionLock.InProcess.{
  release_each, grant, is_held, Locks, release, try_acquire, close, init, collect,
}
use deep_agent_cli.Prelude.{eq_iff}
use mathlib.Core.Path.{fun_ext, ap₂}
use deep_agent_cli.Prelude.Dict.{Dict, values, lookup, lookup-insert, lookup-erase}

-- The owner of a thread is its entry, if that lease is still held.
abbrev pub held_owner : Option ℕ → Locks → Option ℕ
held_owner o l = if is_held o l then o else none

abbrev pub owner : Locks → String → Option ℕ
owner l thread = held_owner (lookup thread l.owners) l

abbrev pub owners_of : Locks → Owners
owners_of l = record { owner = owner l; next_lease = l.next_lease }

-- The calls on the manager. Only a lease that was made can be given back or dropped.
unfoldable pub call : Call → Locks → Option ℕ × Locks
unfolding try_acquire release close
call (acquire thread) l = try_acquire false thread l
call (give_back g) l = (none, if ltb g l.next_lease then release g l else l)
call (drop g) l = (none, if ltb g l.next_lease then collect g l else l)
call close_all l = (none, close false l)

unfoldable pub run : List Call → Locks → List (Option ℕ)
unfolding call
run [] l = []
run (c ∷ calls) l = let (answer, l') = call c l in answer ∷ run calls l'

-- Every lease that the state knows of was made.
pub record IsMade (l : Locks) : Type 0 where
  pub exclusive : IsExclusive l
  pub owned : (thread : String) (g : ℕ) → lookup thread l.owners ≡ some g → g < l.next_lease
  pub young : (g : ℕ) → l.next_lease ≤ g → l.collected g ≡ false

pub init-IsMade : IsMade init
unfolding lookup
init-IsMade = record {
  exclusive = init-IsExclusive;
  owned = λ thread g h. ground (arith, h);
  young = λ g h. refl;
}

grant-IsMade :
    (thread : String) (l : Locks)
    → IsMade l
    → is_held (lookup thread l.owners) l ≡ false
    → IsMade (grant thread l)
grant-IsMade thread l i free = record {
  exclusive = grant-IsExclusive thread l i.exclusive free;
  owned = λ t g h. grind (arith, h, lookup-insert t thread l.next_lease l.owners, i.owned t g);
  young = λ g h. i.young g (omega (arith, h));
}

release-owned :
    (g : ℕ) (l : Locks) (thread : String) (h : ℕ)
    → lookup thread (release g l).owners ≡ some h
    → lookup thread l.owners ≡ some h
unfolding release
release-owned g l thread h found =
    grind (arith, found, lookup-erase thread (l.leases g).thread_id l.owners)

release-collected : (g : ℕ) (l : Locks) → (release g l).collected ≡ l.collected
unfolding release
release-collected g l = ground arith

release-IsMade : (g : ℕ) (l : Locks) → IsMade l → IsMade (release g l)
release-IsMade g l i = record {
  exclusive = release-IsExclusive g l i.exclusive;
  owned = λ thread h found.
      omega (arith, release-next g l, i.owned thread h (release-owned g l thread h found));
  young = λ h le.
      ap (λ (c : ℕ → Bool). c h) (release-collected g l)
      ∙ i.young h (omega (arith, le, release-next g l));
}

-- How the owners change.
grant-owner :
    (thread : String) (l : Locks)
    → IsMade l
    → (j : String) → owner (grant thread l) j ≡ set_owner thread l.next_lease (owner l) j
grant-owner thread l i j = grind (
  arith,
  lookup-insert j thread l.next_lease l.owners,
  i.owned j,
  i.young l.next_lease,
  i.exclusive.fresh l.next_lease,
)

release-owner : (g : ℕ) (l : Locks) (j : String) → owner (release g l) j ≡ free g (owner l) j
unfolding release
release-owner g l j = ground (
  arith,
  lookup-erase j (l.leases g).thread_id l.owners,
  eq_iff j (l.leases g).thread_id,
  λ (e : j ≡ (l.leases g).thread_id). ap (λ t. lookup t l.owners) e,
)

collect-owner : (g : ℕ) (l : Locks) (j : String) → owner (collect g l) j ≡ free g (owner l) j
collect-owner g l j = ground arith

release_each-owners : (gs : List ℕ) (l : Locks) → l.owners ≡ [] → (release_each gs l).owners ≡ []
unfolding release_each release lookup
release_each-owners [] l h = h
release_each-owners (g ∷ gs) l h =
    release_each-owners gs (if l.collected g then l else release g l) (ground (arith, h))

release_each-collected : (gs : List ℕ) (l : Locks) → (release_each gs l).collected ≡ l.collected
unfolding release_each
release_each-collected [] l = refl
release_each-collected (g ∷ gs) l =
    release_each-collected gs (if l.collected g then l else release g l)
    ∙ ground (arith, release-collected g l)

close-owners : (l : Locks) → (close false l).owners ≡ []
unfolding close
close-owners l = release_each-owners (values l.owners) (record l { owners = [] }) refl

close-next : (l : Locks) → (close false l).next_lease ≡ l.next_lease
unfolding close
close-next l = release_each-next (values l.owners) (record l { owners = [] })

close-owner : (l : Locks) (j : String) → owner (close false l) j ≡ none
unfolding lookup
close-owner l j = ap (λ o. held_owner (lookup j o) (close false l)) (close-owners l)

close-collected : (l : Locks) → (close false l).collected ≡ l.collected
unfolding close
close-collected l = release_each-collected (values l.owners) (record l { owners = [] })

no_entry :
    (thread : String) (g n : ℕ) (owners : Dict String ℕ)
    → owners ≡ []
    → lookup thread owners ≡ some g
    → g < n
unfolding lookup
no_entry thread g n owners empty found = ground (arith, found, ap (lookup thread) empty)

close-IsMade : (l : Locks) → IsMade l → IsMade (close false l)
close-IsMade l i = record {
  exclusive = close-IsExclusive l i.exclusive;
  owned = λ thread g found. no_entry thread g _ _ (close-owners l) found;
  young = λ g le.
      ap (λ (c : ℕ → Bool). c g) (close-collected l) ∙ i.young g (omega (arith, le, close-next l));
}

-- One call: the same answer, and the owners after it.
abbrev Agrees : Option ℕ × Locks → Option ℕ × Owners → Type 0
Agrees (answer, l) (expected, s) =
    (answer ≡ expected)
    × IsMade l
    × ((j : String) → owner l j ≡ s.owner j)
    × (l.next_lease ≡ s.next_lease)

collect-IsMade : (g : ℕ) (l : Locks) → IsMade l → g < l.next_lease → IsMade (collect g l)
collect-IsMade g l i made = record {
  exclusive = collect-IsExclusive g l i.exclusive;
  owned = i.owned;
  young = λ h le. ground (arith, i.young h le, made, le);
}

abbrev outcome : String → Locks → Bool → Option ℕ × Locks
outcome thread l busy = if busy then (none, l) else (some l.next_lease, grant thread l)

held_without : (l : Locks) (o : Option ℕ) → is_held o l ≡ true → held_owner o l ≡ none → ⊥
held_without l none e f = ground (arith, e)
held_without l (some g) e f = ground (arith, e, f)

acquire-Agrees :
    (thread : String) (l : Locks) (busy : Bool) (o : Option ℕ)
    → IsMade l
    → is_held (lookup thread l.owners) l ≡ busy
    → owner l thread ≡ o
    → Agrees (outcome thread l busy) (Owners.acquired o thread (owners_of l))
acquire-Agrees thread l true (some g) i e f = (refl, i, λ j. refl, refl)
acquire-Agrees thread l false none i e f =
    (refl, grant-IsMade thread l i e, grant-owner thread l i, refl)
acquire-Agrees thread l true none i e f = absurd (held_without l (lookup thread l.owners) e f)
acquire-Agrees thread l false (some g) i e f = absurd (ground (arith, e, f))

-- A thread without an entry has no owner, so a call on a lease that was not made changes nothing.
unmade-owner :
    (g : ℕ) (l : Locks)
    → IsMade l
    → ltb g l.next_lease ≡ false
    → (j : String) → owner l j ≡ free g (owner l) j
unmade-owner g l i e j = grind (arith, e, i.owned j g)

give_back-Agrees :
    (g : ℕ) (l : Locks) (made : Bool)
    → IsMade l
    → ltb g l.next_lease ≡ made
    → Agrees (none, if made then release g l else l) (Owners.call (give_back g) (owners_of l))
unfolding Owners.call
give_back-Agrees g l true i e = (refl, release-IsMade g l i, release-owner g l, release-next g l)
give_back-Agrees g l false i e = (refl, i, unmade-owner g l i e, refl)

drop-Agrees :
    (g : ℕ) (l : Locks) (made : Bool)
    → IsMade l
    → ltb g l.next_lease ≡ made
    → Agrees (none, if made then collect g l else l) (Owners.call (drop g) (owners_of l))
unfolding Owners.call
drop-Agrees g l true i e =
    (refl, collect-IsMade g l i (ltb→lt g l.next_lease e), collect-owner g l, refl)
drop-Agrees g l false i e = (refl, i, unmade-owner g l i e, refl)

call-Agrees : (c : Call) (l : Locks) → IsMade l → Agrees (call c l) (Owners.call c (owners_of l))
unfolding call Owners.call try_acquire
call-Agrees (acquire thread) l i =
    acquire-Agrees thread l (is_held (lookup thread l.owners) l) (owner l thread) i refl refl
call-Agrees (give_back g) l i = give_back-Agrees g l (ltb g l.next_lease) i refl
call-Agrees (drop g) l i = drop-Agrees g l (ltb g l.next_lease) i refl
call-Agrees close_all l i = (refl, close-IsMade l i, close-owner l, close-next l)

make_owners : (String → Option ℕ) → ℕ → Owners
make_owners owner next = record { owner = owner; next_lease = next }

same_owners :
    (a b : Owners) → ((j : String) → a.owner j ≡ b.owner j) → a.next_lease ≡ b.next_lease → a ≡ b
unfolding make_owners
same_owners a b p q = ap₂ make_owners (fun_ext p) q

-- No sequence of calls tells the manager from the owners of its threads: every acquisition has the
-- same answer, the same lease included. Leases that are not made yet are not given back or dropped.
pub run_refines :
    (calls : List Call) (l : Locks) → IsMade l → run calls l ≡ Owners.run calls (owners_of l)
unfolding run Owners.run
run_refines [] l i = refl
run_refines (c ∷ calls) l i =
    let step = call-Agrees c l i in
    ap₂ ◌∷◌ step.0 (
      run_refines calls (call c l).1 step.1
      ∙ ap (Owners.run calls) (same_owners (owners_of (call c l).1) _ step.2 step.3))
