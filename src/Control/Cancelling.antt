-- ===== src/Control/Cancelling.antt =====
-- control.py: what `cancel` reaches, and what it leaves alone.
use deep_agent_cli.Prelude.{
  ℕ, ◌<◌, ◌≡◌, ◌≢◌, Bool, true, false, none, some, [], ◌∷◌, ◌++◌, ==-refl, ◌==◌, nat_comparable,
  arith, if◌then◌else◌,
}
use deep_agent_cli.Control.State.{Controller, drained, make_scope}
use deep_agent_cli.Control.Frame.{update_ne, cancel_scope-frame, scopes-cancel_scope}
use deep_agent_cli.Control.Runs.{take_scope, begin_run, cancel_target, cancel_scope, cancel}
use deep_agent_cli.Control.Begin.{cancel_event-begin_run, begin_run-refs, log-begin_run}

module _ (killpg_fails : ℕ → Bool) where
  cancel_scope-done :
      (g : ℕ) (c : Controller)
      → (c.scopes g).cancel_event ≡ true
      → cancel_scope killpg_fails g c ≡ c
  unfolding cancel_scope
  cancel_scope-done g c h = rw h

  cancel_event-cancel_scope :
      (g : ℕ) (c : Controller) → ((cancel_scope killpg_fails g c).scopes g).cancel_event ≡ true
  cancel_event-cancel_scope g c = rw (scopes-cancel_scope killpg_fails g g c, ==-refl g)

  cancel_scope-again :
      (g : ℕ) (c : Controller)
      → cancel_scope killpg_fails g (cancel_scope killpg_fails g c) ≡ cancel_scope killpg_fails g c
  cancel_scope-again g c = cancel_scope-done g _ (cancel_event-cancel_scope g c)

  -- A cancelled target is found again.
  cancel_target-again :
      (c d : Controller)
      → d.reserved ≡ (cancel_target c).1.reserved
      → d.active ≡ (cancel_target c).1.active
      → d.last ≡ (cancel_target c).1.last
      → cancel_target d ≡ ((cancel_target c).0, d)
  unfolding cancel_target make_scope
  cancel_target-again c d r a l = ground arith

  module _ (c : Controller) where
    cancel_target-reserved : (g : ℕ) → c.reserved ≡ some g → cancel_target c ≡ (g, c)
    unfolding cancel_target
    cancel_target-reserved g p = rw p

    -- The references after a cancel: only `last` can be new.
    pub cancel-refs :
        let d = cancel killpg_fails c in
        (d.reserved ≡ c.reserved) × (d.active ≡ c.active) × (d.last ≡ (cancel_target c).1.last)
    unfolding cancel cancel_target make_scope
    cancel-refs = grind (arith, cancel_scope-frame)

    pub generations-cancel : (cancel killpg_fails c).generations ≡ (cancel_target c).1.generations
    unfolding cancel
    generations-cancel = grind (arith, cancel_scope-frame)

    pub scopes-cancel :
        (j : ℕ)
        → let (g, before) = cancel_target c in
          (cancel killpg_fails c).scopes j
          ≡ (if j == g then record (before.scopes g) { cancel_event = true } else before.scopes j)
    unfolding cancel
    scopes-cancel j = scopes-cancel_scope killpg_fails _ j _

  -- A second `cancel` with nothing between does nothing.
  pub cancel_again :
      (c : Controller) → cancel killpg_fails (cancel killpg_fails c) ≡ cancel killpg_fails c
  unfolding cancel
  cancel_again c =
      let (g, before) = cancel_target c in
      let next = record before { pause_requested = false } in
      let d = cancel_scope killpg_fails g next in
      grind (
        arith,
        cancel_target-again c d,
        cancel_scope-frame killpg_fails g next,
        cancel_scope-again g next,
      )

  -- `cancel` leaves every run alone but its target: no other scope changes, and the references to
  -- the active and the reserved run stay.
  pub cancel-isolated :
      (c : Controller) (j : ℕ)
      → j < c.generations
      → j ≢ (cancel_target c).0
      → let d = cancel killpg_fails c in
        (d.scopes j ≡ c.scopes j) × (d.active ≡ c.active) × (d.reserved ≡ c.reserved)
  unfolding cancel cancel_target make_scope
  cancel-isolated c j h p = grind (arith, cancel_scope-frame, scopes-cancel_scope, update_ne)

  -- A cancel that is issued while a run is reserved is kept for it: when that run begins, it is the
  -- reserved one, it is cancelled, and its control has been asked to drain.
  pub cancel_before_begin :
      (closed : ℕ → Bool) (c : Controller) (g : ℕ)
      → c.reserved ≡ some g
      → let d = cancel killpg_fails c in
        let (h, e) = begin_run closed d in
        (h ≡ g)
        × (e.active ≡ some g)
        × (e.reserved ≡ none)
        × ((e.scopes g).cancel_event ≡ true)
        × (e.log ≡ d.log ++ drained g ∷ [])
  unfolding take_scope
  cancel_before_begin closed c g p =
      let d = cancel killpg_fails c in
      let taken : take_scope d.reserved d ≡ (g, d) = grind (arith, cancel-refs c) in
      grind (
        arith,
        taken,
        cancel_target-reserved c g p,
        scopes-cancel c g,
        begin_run-refs closed d,
        cancel_event-begin_run closed d g,
        log-begin_run closed d,
      )
