-- ===== src/SessionLock/Exclusive.antt =====
-- A lease that is held owns its thread, after each whole call.
use deep_agent_cli.Prelude.{
  Bool-cases, ℕ, ◌≤◌, String, ◌≡◌, inl, inr, refl, sym, ◌∙◌, Bool, true, false, Option, none, some,
  List, [], ◌∷◌, arith, ◌==◌, nat_comparable, text_comparable, if◌then◌else◌, contains,
}
use deep_agent_cli.Prelude.{==-refl, Bool-cases, subst, eq_iff}
use deep_agent_cli.Prelude.Dict.{Dict, lookup, values, lookup-insert, lookup-erase}
use deep_agent_cli.SessionLock.InProcess.{
  grant, is_held, collect, holds, close, release_each, release, try_acquire, init, Locks,
}

-- A lease that is held is the owner of its thread, and leases to come are held by nobody.
pub record IsExclusive (l : Locks) : Type 0 where
  pub owned : (g : ℕ) → holds l g ≡ true → lookup (l.leases g).thread_id l.owners ≡ some g
  pub fresh : (g : ℕ) → l.next_lease ≤ g → (l.leases g).released ≡ true

pub init-IsExclusive : IsExclusive init
init-IsExclusive = record { owned = λ g h. ground (arith, h); fresh = λ g h. refl }

abbrev outcome : String → Locks → Bool → Option ℕ × Locks
outcome thread l busy = if busy then (none, l) else (some l.next_lease, grant thread l)

pub grant-IsExclusive :
    (thread : String) (l : Locks)
    → IsExclusive l
    → is_held (lookup thread l.owners) l ≡ false
    → IsExclusive (grant thread l)
grant-IsExclusive thread l i free = record {
  owned = λ g held. grind (
    arith,
    held,
    free,
    lookup-insert ((grant thread l).leases g).thread_id thread l.next_lease l.owners,
    i.owned g,
    eq_iff (l.leases g).thread_id thread,
    ==-refl thread,
  );
  fresh = λ g le. ground (arith, le, i.fresh g (omega (arith, le)));
}

try_acquire-IsExclusive :
    (thread : String) (l : Locks) → IsExclusive l → IsExclusive (try_acquire false thread l).1
unfolding try_acquire
try_acquire-IsExclusive thread l i = elim (Bool-cases (is_held (lookup thread l.owners) l)) [
  | inl busy ↦ subst (λ b. IsExclusive (outcome thread l b).1) (sym busy) i
  | inr free ↦
      subst (λ b. IsExclusive (outcome thread l b).1) (sym free) (grant-IsExclusive thread l i free)
]

pub release-next : (g : ℕ) (l : Locks) → (release g l).next_lease ≡ l.next_lease
unfolding release
release-next g l = ground arith

release-fresh :
    (g : ℕ) (l : Locks) (h : ℕ)
    → (l.leases h).released ≡ true
    → ((release g l).leases h).released ≡ true
unfolding release
release-fresh g l h r = ground (arith, r)

release-holds :
    (g : ℕ) (l : Locks) (h : ℕ) → holds (release g l) h ≡ (if h == g then false else holds l h)
unfolding release
release-holds g l h = ground arith

pub release-IsExclusive : (g : ℕ) (l : Locks) → IsExclusive l → IsExclusive (release g l)
unfolding release
release-IsExclusive g l i = record {
  owned = λ h held. grind (
    arith,
    held,
    lookup-erase (l.leases h).thread_id (l.leases g).thread_id l.owners,
    i.owned h,
    i.owned g,
    eq_iff (l.leases h).thread_id (l.leases g).thread_id,
    i.owned g,
    eq_iff (l.leases h).thread_id (l.leases g).thread_id,
  );
  fresh = λ h le. release-fresh g l h (i.fresh h (omega (arith, le, release-next g l)));
}

pub collect-IsExclusive : (g : ℕ) (l : Locks) → IsExclusive l → IsExclusive (collect g l)
collect-IsExclusive g l i = record {
  owned = λ h held. i.owned h (ground (arith, held));
  fresh = λ h le. i.fresh h le;
}

-- Which leases are still held after some were released.
pub release_each-holds :
    (gs : List ℕ) (l : Locks) (h : ℕ)
    → holds (release_each gs l) h ≡ true
    → (holds l h ≡ true) × (contains gs h ≡ false)
unfolding release_each
release_each-holds [] l h held = (held, refl)
release_each-holds (g ∷ gs) l h held =
    let rest = release_each-holds gs (if l.collected g then l else release g l) h held in
    ground (arith, rest.0, rest.1, release-holds g l h)

pub release_each-fresh :
    (gs : List ℕ) (l : Locks) (h : ℕ)
    → (l.leases h).released ≡ true
    → ((release_each gs l).leases h).released ≡ true
unfolding release_each
release_each-fresh [] l h r = r
release_each-fresh (g ∷ gs) l h r =
    release_each-fresh gs (if l.collected g then l else release g l) h
      (ground (arith, r, release-fresh g l h r))

pub release_each-next : (gs : List ℕ) (l : Locks) → (release_each gs l).next_lease ≡ l.next_lease
unfolding release_each release
release_each-next [] l = refl
release_each-next (g ∷ gs) l =
    release_each-next gs (if l.collected g then l else release g l) ∙ ground arith

pub contains-values :
    (k : String) (g : ℕ) (d : Dict String ℕ) → lookup k d ≡ some g → contains (values d) g ≡ true
unfolding lookup
contains-values k g [] h = ground (arith, h)
contains-values k g ((j, w) ∷ d) h = grind (arith, h, contains-values k g d)

pub close-IsExclusive : (l : Locks) → IsExclusive l → IsExclusive (close false l)
unfolding close
close-IsExclusive l i = record {
  owned = λ h held.
      let still = release_each-holds (values l.owners) (record l { owners = [] }) h held in
      ground
        (arith, still.1, contains-values (l.leases h).thread_id h l.owners (i.owned h still.0));
  fresh = λ h le.
      release_each-fresh (values l.owners) (record l { owners = [] }) h
        (i.fresh h
          (omega (arith, le, release_each-next (values l.owners) (record l { owners = [] }))));
}
