-- ===== src/Control/Stopping.antt =====
-- control.py: what the cancel of an active run stops: tools, streams, children, the graph.
use deep_agent_cli.Cancel
use mathlib.Core.List.{map-append, append_assoc, append-nil}
use deep_agent_cli.Prelude.{
  false, arith, some, ◌∷◌, none, true, All, ◌≡◌, List, Bool, ℕ, ap, ◌∙◌, [], ◌++◌, map,
  nat_comparable, text_comparable,
}
use deep_agent_cli.Control.Runs.{notices, drain, cancel_scope, cancel_target, cancel, cancel_tools}
use deep_agent_cli.Control.State.{
  run_cancelling, emission, stream_cancelled, child_cancelled, tool, set_cancel_event, emit,
  Controller, say, update,
}
use deep_agent_cli.Prelude.Dict.{values}
use deep_agent_cli.Control.Frame.{cancel_tools-frame}

module _ (killpg_fails : ℕ → Bool) where
  -- A context that is cancelled stays so.
  cancel_flag-kept :
      (tools : List ℕ) (t : ℕ) (c : Controller)
      → (c.contexts t).cancel_flag ≡ true
      → ((cancel_tools killpg_fails tools c).contexts t).cancel_flag ≡ true
  unfolding cancel_tools update Cancel.request_cancel say
  cancel_flag-kept [] t c h = h
  cancel_flag-kept (x ∷ tools) t c h = cancel_flag-kept tools t _ (ground arith)

  cancel_flag-cancel_tools :
      (tools : List ℕ) (c : Controller)
      → All (λ t. ((cancel_tools killpg_fails tools c).contexts t).cancel_flag ≡ true) tools
  unfolding cancel_tools update Cancel.request_cancel say
  cancel_flag-cancel_tools [] c = tt
  cancel_flag-cancel_tools (t ∷ tools) c =
      (cancel_flag-kept tools t _ (ground arith), cancel_flag-cancel_tools tools _)

  log-cancel_tools :
      (tools : List ℕ) (c : Controller)
      → (es : List Cancel.Effect) × ((cancel_tools killpg_fails tools c).log ≡ c.log ++ map tool es)
  unfolding cancel_tools say
  log-cancel_tools [] c = ([], rw append-nil)
  log-cancel_tools (t ∷ tools) c =
      let (ctx, fs) = Cancel.request_cancel killpg_fails (c.contexts t) in
      let next = say (map tool fs) (record c { contexts = update c.contexts t ctx }) in
      let (es, e) = log-cancel_tools tools next in (fs ++ es, e ∙ simp (append_assoc, map-append))

  abbrev noticed : ℕ → Controller → Controller
  noticed g c =
      say (notices killpg_fails c (c.scopes g) g)
        (set_cancel_event g (record c { pause_requested = false }))

  cancel-active :
      (c : Controller) (g : ℕ)
      → c.reserved ≡ none
      → c.active ≡ some g
      → (c.scopes g).cancel_event ≡ false
      → cancel killpg_fails c
        ≡ emit run_cancelling (cancel_tools killpg_fails (values c.active_tools) (noticed g c))
  unfolding cancel cancel_target cancel_scope
  cancel-active c g r a h = ground arith

  -- Cancelling an active run that was not cancelled before cancels every registered tool, and sends
  -- in this order: the cancel of every child, the cancel of every stream of the run, the request
  -- to drain its graph if it has a control, what the tools do, and the event `run_cancelling`.
  pub cancel_stops_everything :
      (c : Controller) (g : ℕ)
      → c.reserved ≡ none
      → c.active ≡ some g
      → (c.scopes g).cancel_event ≡ false
      → let d = cancel killpg_fails c in
        All (λ t. (d.contexts t).cancel_flag ≡ true) (values c.active_tools)
        × ((es : List Cancel.Effect) × (d.log
              ≡ c.log
                ++ (map child_cancelled c.children
                    ++ map stream_cancelled (c.scopes g).model_streams
                    ++ drain (c.scopes g).run_control g)
                ++ map tool es
                ++ emission c.on_control_event run_cancelling))
  unfolding emit say set_cancel_event
  cancel_stops_everything c g r a h =
      let tools = values c.active_tools in
      let flags = cancel_flag-cancel_tools tools (noticed g c) in
      let (es, logged) = log-cancel_tools tools (noticed g c) in
      let handler =
        ap (λ (d : Controller). d.on_control_event)
          (cancel_tools-frame killpg_fails tools (noticed g c)) in
      rw (cancel-active c g r a h) (flags, (es, rw (logged, handler) (simp append_assoc)))
