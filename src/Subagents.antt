-- ===== src/Subagents.antt =====
-- agent/subagents/manager.py: which subagents run beside a parent run, and for how long. Children are
-- run controllers of their own, in the store `controllers`; the parent knows them by number.
use deep_agent_cli.Prelude.{
  ℕ, suc, ◌≤◌, ◌<◌, ◌≡◌, ◌⊎◌, inl, inr, refl, sym, ◌∙◌, Bool, true, false, none, List, [], ◌∷◌,
  ◌++◌, arith, leb, ◌==◌, nat_comparable, text_comparable, if◌then◌else◌, length, All, contains,
  add, discard,
}
use deep_agent_cli.Prelude.{
  ==-refl, Bool-cases, subst, contains-add, All-append, All-mono, length-append,
}
use deep_agent_cli.Control.State.{say}
use deep_agent_cli.Prelude.Dict.{erase}
use deep_agent_cli.Control.State.{Controller, init, update, cancel_requested}
use deep_agent_cli.Control.Runs.{begin_run, end_run, cancel, register_child, unregister_child}

pub record SubAgentManager : Type 0 where
  pub parent : Controller
  pub max_concurrent : ℕ
  pub active : List (ℕ × ℕ)
  pub retired : List ℕ
  pub controllers : ℕ → Controller
  pub next_child : ℕ
  pub counts : List ℕ

abbrev pub active_count : SubAgentManager → ℕ
active_count m = length m.active

-- The errors of an admission: the parent is cancelled, or the limit is reached.
pub data Refusal : Type 0 where
  parent_cancelled limit_reached : Refusal

abbrev set_controller : ℕ → Controller → SubAgentManager → SubAgentManager
set_controller child c m = record m { controllers = update m.controllers child c }

-- The event `subagents_changed` with the number of active children.
abbrev pub announce : SubAgentManager → SubAgentManager
announce m = record m { counts = m.counts ++ length m.active ∷ [] }

module _ (closed : ℕ → Bool) where
  abbrev pub admitted : ℕ → SubAgentManager → SubAgentManager
  admitted run_id m = announce (record m {
    controllers = update m.controllers m.next_child (begin_run closed (init none)).1;
    parent = register_child m.next_child m.parent;
    active = m.active ++ (run_id, m.next_child) ∷ [];
    next_child = suc m.next_child;
  })

  -- The locked part before the `yield` of `running`: the number of the child that is admitted.
  unfoldable pub admit : ℕ → SubAgentManager → Refusal ⊎ (ℕ × SubAgentManager)
  unfolding cancel_requested
  admit run_id m =
      if cancel_requested m.parent
      then inl parent_cancelled
      else if leb m.max_concurrent (length m.active)
      then inl limit_reached
      else inr (m.next_child, admitted run_id m)

  abbrev pub retire : ℕ → ℕ → SubAgentManager → SubAgentManager
  retire run_id child m =
      announce (record m { active = erase run_id m.active; retired = m.retired ++ child ∷ [] })

  -- The child stays with its parent until its requests have closed; `all_closed` is what its wait
  -- answers.
  abbrev pub detach_closed : Bool → ℕ → SubAgentManager → SubAgentManager
  detach_closed false child m = m
  detach_closed true child m = record m {
    parent = unregister_child child m.parent;
    retired = discard child m.retired;
  }

  -- The `finally` of `running`.
  unfoldable pub finish : (ℕ → Bool) → Bool → ℕ → ℕ → SubAgentManager → SubAgentManager
  unfolding erase
  finish killpg_fails all_closed run_id child m = detach_closed all_closed child (
      retire run_id child
        (set_controller child (end_run closed (cancel killpg_fails (m.controllers child))) m))

-- What holds between the calls of `running`: the limit, and that each active child is known to the
-- parent, so that a cancel of the parent reaches it.
pub record IsAdmitted (m : SubAgentManager) : Type 0 where
  pub within : length m.active ≤ m.max_concurrent
  pub known : All (λ a. contains m.parent.children a.1 ≡ true) m.active

children-register_child :
    (n : ℕ) (c : Controller) → (register_child n c).children ≡ add n c.children
unfolding register_child say
children-register_child n c = ground arith

children-unregister_child :
    (n : ℕ) (c : Controller) → (unregister_child n c).children ≡ discard n c.children
unfolding unregister_child
children-unregister_child n c = refl

contains-discard :
    (n a : ℕ) (xs : List ℕ) → (a == n) ≡ false → contains (discard n xs) a ≡ contains xs a
contains-discard n a [] other = refl
contains-discard n a (x ∷ xs) other = ground (arith, other, contains-discard n a xs other)

length-erase : (k : ℕ) (d : List (ℕ × ℕ)) → length (erase k d) ≤ length d
unfolding erase
length-erase k [] = omega arith
length-erase k ((j, w) ∷ d) = ground (arith, length-erase k d)

All-erase : (P : ℕ × ℕ → Type 0) (k : ℕ) (d : List (ℕ × ℕ)) → All P d → All P (erase k d)
unfolding erase
All-erase P k [] h = tt
All-erase P k ((j, w) ∷ d) h = elim (Bool-cases (k == j)) [
  | inl same ↦
      subst (λ b. All P (if b then erase k d else (j, w) ∷ erase k d)) (sym same)
        (All-erase P k d h.1)
  | inr other ↦
      subst (λ b. All P (if b then erase k d else (j, w) ∷ erase k d)) (sym other)
        (h.0, All-erase P k d h.1)
]

admit-shape :
    (closed : ℕ → Bool) (run_id child : ℕ) (m m' : SubAgentManager)
    → admit closed run_id m ≡ inr (child, m')
    → (length m.active < m.max_concurrent) × (m' ≡ admitted closed run_id m)
unfolding admit
admit-shape closed run_id child m m' made = elim (Bool-cases (cancel_requested m.parent)) [
  | inl h ↦ ground (arith, h, made)
  | inr h ↦ (ground (arith, h, made), ground (arith, h, made))
]

admitted-IsAdmitted :
    (closed : ℕ → Bool) (run_id : ℕ) (m : SubAgentManager)
    → IsAdmitted m
    → length m.active < m.max_concurrent
    → IsAdmitted (admitted closed run_id m)
admitted-IsAdmitted closed run_id m i free = record {
  within = omega (arith, free, length-append m.active ((run_id, m.next_child) ∷ []));
  known =
      subst (λ xs. All (λ a. contains xs a.1 ≡ true) (m.active ++ (run_id, m.next_child) ∷ []))
        (sym (children-register_child m.next_child m.parent))
        (All-append _ m.active ((run_id, m.next_child) ∷ [])
          (All-mono _ _ (λ a h. ground (arith, h, contains-add m.parent.children m.next_child a.1))
            m.active i.known)
          (
            ground (
              arith,
              contains-add m.parent.children m.next_child m.next_child,
              ==-refl m.next_child,
            ),
            tt,
          ));
}

pub admit-IsAdmitted :
    (closed : ℕ → Bool) (run_id child : ℕ) (m m' : SubAgentManager)
    → IsAdmitted m
    → admit closed run_id m ≡ inr (child, m')
    → IsAdmitted m'
unfolding admit
admit-IsAdmitted closed run_id child m m' i made =
    let shape = admit-shape closed run_id child m m' made in
    subst IsAdmitted (sym shape.1) (admitted-IsAdmitted closed run_id m i shape.0)

known_after :
    (m : SubAgentManager) (n : ℕ) (kept : List (ℕ × ℕ))
    → All (λ a. contains m.parent.children a.1 ≡ true) kept
    → All (λ a. (a.1 == n) ≡ false) kept
    → All (λ a. contains (discard n m.parent.children) a.1 ≡ true) kept
known_after m n [] h other = tt
known_after m n (a ∷ kept) h other =
    (contains-discard n a.1 m.parent.children other.0 ∙ h.0, known_after m n kept h.1 other.1)

-- The end of a subagent keeps the limit, and the parent keeps every other active child, whether the
-- requests of the ended one have closed or not. No other active run has the same child.
pub finish-IsAdmitted :
    (closed killpg_fails : ℕ → Bool) (all_closed : Bool) (run_id child : ℕ) (m : SubAgentManager)
    → IsAdmitted m
    → All (λ a. (a.1 == child) ≡ false) (erase run_id m.active)
    → IsAdmitted (finish closed killpg_fails all_closed run_id child m)
unfolding finish
finish-IsAdmitted closed killpg_fails false run_id child m i other = record {
  within = omega (arith, i.within, length-erase run_id m.active);
  known = All-erase _ run_id m.active i.known;
}
finish-IsAdmitted closed killpg_fails true run_id child m i other = record {
  within = omega (arith, i.within, length-erase run_id m.active);
  known =
      subst (λ xs. All (λ a. contains xs a.1 ≡ true) (erase run_id m.active))
        (sym (children-unregister_child child m.parent))
        (known_after m child (erase run_id m.active) (All-erase _ run_id m.active i.known) other);
}
