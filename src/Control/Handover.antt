-- ===== src/Control/Handover.antt =====
-- control.py: no model stream is lost when a run ends.
use deep_agent_cli.Prelude.{
  Bool-cases, contains-add, ℕ, ◌≡◌, inl, inr, Bool, true, false, none, some, List, [], ◌∷◌, arith,
  ◌==◌, nat_comparable, text_comparable, if◌then◌else◌, contains,
}
use deep_agent_cli.Control.Runs.{refers, retire_streams, retire_active, end_run, retire_each}
use deep_agent_cli.Control.State.{update, Controller}
use deep_agent_cli.Control.References.{IsSound}
use deep_agent_cli.Control.Frame.{retire_streams-frame}

module _ (closed : ℕ → Bool) (s : ℕ) (is_open : closed s ≡ false) where
  retire_each-kept :
      (streams : List ℕ) (c : Controller)
      → contains c.unclosed_streams s ≡ true
      → contains (retire_each closed streams c).unclosed_streams s ≡ true
  unfolding retire_each
  retire_each-kept [] c h = h
  retire_each-kept (x ∷ streams) c h =
      retire_each-kept streams _ (ground (arith, h, contains-add c.unclosed_streams x s))

  retire_each-contains :
      (streams : List ℕ) (c : Controller)
      → contains streams s ≡ true
      → contains (retire_each closed streams c).unclosed_streams s ≡ true
  unfolding retire_each
  retire_each-contains [] c h = absurd (ground arith)
  retire_each-contains (x ∷ streams) c h = elim (Bool-cases (s == x)) [
    | inl same ↦
        retire_each-kept streams _
          (ground (arith, same, is_open, contains-add c.unclosed_streams x s))
    | inr other ↦ retire_each-contains streams _ (ground (arith, other))
  ]

  end_run-unclosed :
      (c : Controller) (g : ℕ)
      → c.active ≡ some g
      → contains (c.scopes g).model_streams s ≡ true
      → contains (end_run closed c).unclosed_streams s ≡ true
  unfolding end_run retire_active retire_streams
  end_run-unclosed c g a h =
      let idle = record c { active = none; active_tools = [] } in
      ground (arith, a, retire_each-contains (c.scopes g).model_streams idle h)

  end_run-streams :
      (c : Controller) (j : ℕ)
      → ((end_run closed c).scopes j).model_streams
        ≡ (if refers c.active j then [] else (c.scopes j).model_streams)
  unfolding end_run retire_active update
  end_run-streams c j = grind (arith, retire_streams-frame)

  active-end_run : (c : Controller) → (end_run closed c).active ≡ none
  unfolding end_run retire_active
  active-end_run c = grind (arith, retire_streams-frame)

  -- A stream of the active run whose request is still open when the run ends is counted among the
  -- unclosed streams, and no run holds a stream any more.
  pub end_run_tracks_streams :
      (c : Controller) (g : ℕ)
      → IsSound c
      → c.active ≡ some g
      → contains (c.scopes g).model_streams s ≡ true
      → let d = end_run closed c in
        (contains d.unclosed_streams s ≡ true)
        × (d.active ≡ none)
        × ((j : ℕ) → (d.scopes j).model_streams ≡ [])
  end_run_tracks_streams c g v a h = (
    end_run-unclosed c g a h,
    active-end_run c,
    λ j. ground (arith, end_run-streams c j, v.idle j),
  )
