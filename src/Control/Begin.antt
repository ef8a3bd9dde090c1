-- ===== src/Control/Begin.antt =====
-- control.py: what `begin_run` makes of the reserved and of the previous run.
use deep_agent_cli.Prelude.{
  [], refl, ap, Option, nat_comparable, arith, ◌||◌, none, ◌==◌, ◌++◌, some, if◌then◌else◌, ◌≡◌,
  Bool, ℕ,
}
use deep_agent_cli.Control.State.{scope_cancelled, make_scope, say, update, Controller}
use deep_agent_cli.Control.Runs.{refers, drain, take_scope, begin_run}
use deep_agent_cli.Control.Frame.{
  model_streams-carry_over, cancel_event-carry_over, carry_over-frame,
}
use mathlib.Core.List.{append-nil}

module _ (closed : ℕ → Bool) (c : Controller) where
  -- The cancel event of every scope after `begin_run`: the run that begins has the one of its
  -- reservation, or takes over the one of the run that was active.
  pub cancel_event-begin_run :
      (j : ℕ)
      → let (g, before) = take_scope c.reserved c in
        ((begin_run closed c).1.scopes j).cancel_event ≡ (
          if j == g
          then (before.scopes g).cancel_event || scope_cancelled before c.active
          else (before.scopes j).cancel_event)
  unfolding begin_run update say
  cancel_event-begin_run j = grind (arith, cancel_event-carry_over)

  pub begin_run-refs :
      let g = (take_scope c.reserved c).0 in
      let (h, d) = begin_run closed c in
      (h ≡ g) × (d.active ≡ some g) × (d.reserved ≡ none) × (d.last ≡ some g)
  unfolding begin_run say
  begin_run-refs = grind (arith, carry_over-frame)

  log-take_scope : (o : Option ℕ) → (take_scope o c).1.log ≡ c.log
  unfolding take_scope make_scope
  log-take_scope none = refl
  log-take_scope (some g) = refl

  -- Nothing leaves the controller but a request to drain, which a cancelled run gets at once.
  pub log-begin_run :
      let (g, d) = begin_run closed c in d.log ≡ c.log ++ drain (d.scopes g).cancel_event g
  unfolding begin_run say
  log-begin_run =
      let (g, before) = take_scope c.reserved c in
      let next = record before { reserved = none } in
      grind (
        arith,
        log-take_scope c.reserved,
        ap (λ (d : Controller). d.log) (carry_over-frame closed c.active g next),
        append-nil c.log,
      )

  pub generations-begin_run :
      (begin_run closed c).1.generations ≡ (take_scope c.reserved c).1.generations
  unfolding begin_run say
  generations-begin_run = grind (arith, carry_over-frame)

  -- The streams of the run that was active are taken away from it.
  pub model_streams-begin_run :
      (j : ℕ)
      → ((begin_run closed c).1.scopes j).model_streams
        ≡ (if refers c.active j then [] else ((take_scope c.reserved c).1.scopes j).model_streams)
  unfolding begin_run update say take_scope make_scope
  model_streams-begin_run j = grind (arith, model_streams-carry_over)
