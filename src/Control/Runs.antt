-- ===== src/Control/Runs.antt =====
-- RunController: reservations, the begin and end of a run, cancellation, and children.
-- `closed s` says whether the HTTP request of the stream `s` has closed when the method asks.
use deep_agent_cli.Prelude.{
  ℕ, Bool, true, false, Option, none, some, List, [], ◌∷◌, ◌++◌, map, ◌==◌, nat_comparable,
  text_comparable, or_else, add, discard, if◌then◌else◌,
}
use deep_agent_cli.Prelude.Dict.{values, erase}
use deep_agent_cli.Cancel
use deep_agent_cli.Control.State.{
  Controller, Effect, RunScope, drained, stream_cancelled, child_cancelled, tool, run_cancelling,
  update, say, emit, make_scope, set_cancel_event, cancel_requested,
}

-- The reserved scope, or a new one.
unfoldable pub take_scope : Option ℕ → Controller → ℕ × Controller
take_scope (some g) c = (g, c)
take_scope none c = make_scope c

unfoldable pub reserve_run : Controller → ℕ × Controller
reserve_run c = let (g, c') = take_scope c.reserved c in (g, record c' { reserved = some g })

abbrev pub reserved_generation : Controller → Option ℕ
reserved_generation c = c.reserved

abbrev pub run_generation : Controller → Option ℕ
run_generation c = c.active

abbrev pub refers : Option ℕ → ℕ → Bool
refers none generation = false
refers (some g) generation = g == generation

unfoldable pub release_reservation : ℕ → Controller → Controller
release_reservation generation c =
    if refers c.reserved generation then record c { reserved = none } else c

module _ (closed : ℕ → Bool) where
  -- The loop of `_retire_streams`.
  unfoldable pub retire_each : List ℕ → Controller → Controller
  unfolding erase
  retire_each [] c = c
  retire_each (s ∷ streams) c = retire_each streams (record c {
    stream_scopes = erase s c.stream_scopes;
    unclosed_streams = if closed s then c.unclosed_streams else add s c.unclosed_streams;
  })

  abbrev pub clear_streams : ℕ → Controller → Controller
  clear_streams g c = record c {
    scopes = update c.scopes g (record (c.scopes g) { model_streams = [] });
  }

  unfoldable pub retire_streams : ℕ → Controller → Controller
  retire_streams g c = clear_streams g (retire_each (c.scopes g).model_streams c)

  -- A cancel that the previous run accepted goes over to the run that follows it.
  unfoldable pub carry_over : Option ℕ → ℕ → Controller → Controller
  carry_over none g c = c
  carry_over (some p) g c =
      retire_streams p (if (c.scopes p).cancel_event then set_cancel_event g c else c)

  abbrev pub activate : ℕ → Controller → Controller
  activate g c = record c {
    scopes = update c.scopes g (record (c.scopes g) { run_control = true });
    active = some g;
    last = some g;
    active_tools = [];
  }

  -- The generation of the run, whose control object is returned.
  unfoldable pub begin_run : Controller → ℕ × Controller
  begin_run c =
      let (g, c₁) = take_scope c.reserved c in
      let c₂ = activate g (carry_over c.active g (record c₁ { reserved = none })) in
      (g, if (c₂.scopes g).cancel_event then say (drained g ∷ []) c₂ else c₂)

  unfoldable pub retire_active : Option ℕ → Controller → Controller
  retire_active none c = c
  retire_active (some g) c = retire_streams g c

  unfoldable pub end_run : Controller → Controller
  end_run c = retire_active c.active (record c { active = none; active_tools = [] })

-- The scope that a cancel is meant for: the reservation, else the active run, else the last one.
unfoldable pub cancel_target : Controller → ℕ × Controller
cancel_target c = elim (or_else c.reserved (or_else c.active c.last)) [
  | some g ↦ (g, c)
  | none ↦ let (g, c') = make_scope c in (g, record c' { last = some g })
]

abbrev pub drain : Bool → ℕ → List Effect
drain true g = drained g ∷ []
drain false g = []

module _ (killpg_fails : ℕ → Bool) where
  -- `ctx.request_cancel()` for each tool.
  unfoldable pub cancel_tools : List ℕ → Controller → Controller
  unfolding update Cancel.request_cancel say
  cancel_tools [] c = c
  cancel_tools (t ∷ tools) c =
      let (ctx, es) = Cancel.request_cancel killpg_fails (c.contexts t) in
      cancel_tools tools (say (map tool es) (record c { contexts = update c.contexts t ctx }))

  abbrev pub notices : Controller → RunScope → ℕ → List Effect
  notices c scope g =
      map child_cancelled c.children
      ++ map stream_cancelled scope.model_streams
      ++ drain scope.run_control g

  unfoldable pub cancel_scope : ℕ → Controller → Controller
  cancel_scope g c =
      if (c.scopes g).cancel_event
      then c
      else emit run_cancelling (
          cancel_tools (values c.active_tools)
            (say (notices c (c.scopes g) g) (set_cancel_event g c)))

  unfoldable pub cancel : Controller → Controller
  cancel c = let (g, c') = cancel_target c in cancel_scope g (record c' { pause_requested = false })

-- A child that is registered after the cancel is cancelled at once.
unfoldable pub register_child : ℕ → Controller → Controller
unfolding say cancel_requested
register_child child c =
    let c' = record c { children = add child c.children } in
    if cancel_requested c then say (child_cancelled child ∷ []) c' else c'

unfoldable pub unregister_child : ℕ → Controller → Controller
unregister_child child c = record c { children = discard child c.children }
