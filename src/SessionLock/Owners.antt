-- ===== src/SessionLock/Owners.antt =====
-- What the lease manager promises: each thread has at most one owner. The abstract state is the owner
-- of each thread, and the lease that comes next.
use deep_agent_cli.Prelude.{
  ℕ, suc, String, Bool, false, Option, none, some, List, [], ◌∷◌, ◌==◌, nat_comparable,
  text_comparable, if◌then◌else◌,
}

pub record Owners : Type 0 where
  pub owner : String → Option ℕ
  pub next_lease : ℕ

-- A client's calls on one manager: `drop` is the last holder letting go of a lease.
pub data Call : Type 0 where
  acquire : String → Call
  give_back : ℕ → Call
  drop : ℕ → Call
  close_all : Call

abbrev pub set_owner : String → ℕ → (String → Option ℕ) → String → Option ℕ
set_owner thread g owner j = if j == thread then some g else owner j

abbrev pub refers : Option ℕ → ℕ → Bool
refers none g = false
refers (some h) g = h == g

-- The lease `g` owns nothing any more.
abbrev pub free : ℕ → (String → Option ℕ) → String → Option ℕ
free g owner j = if refers (owner j) g then none else owner j

-- A thread that is owned is refused; a free one goes to a new lease.
abbrev pub acquired : Option ℕ → String → Owners → Option ℕ × Owners
acquired (some g) thread s = (none, s)
acquired none thread s = (
  some s.next_lease,
  record { owner = set_owner thread s.next_lease s.owner; next_lease = suc s.next_lease },
)

unfoldable pub call : Call → Owners → Option ℕ × Owners
call (acquire thread) s = acquired (s.owner thread) thread s
call (give_back g) s = (none, record s { owner = free g s.owner })
call (drop g) s = (none, record s { owner = free g s.owner })
call close_all s = (none, record s { owner = λ j. none })

-- The answers of a sequence of calls.
unfoldable pub run : List Call → Owners → List (Option ℕ)
unfolding call
run [] s = []
run (c ∷ calls) s = let (answer, s') = call c s in answer ∷ run calls s'
