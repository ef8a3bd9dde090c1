-- ===== src/Control/References.antt =====
-- control.py: the references to run scopes, and where model streams may be held.
use deep_agent_cli.Prelude.{
  ℕ, ◌<◌, ◌≡◌, ◌≢◌, refl, Bool, Option, none, some, [], arith, nat_comparable, text_comparable,
}
use deep_agent_cli.Control.State.{
  emit, say, set_pending_config_check, set_defer_steering, set_event_handler, init, clear_pause,
  request_pause, make_scope, update, Controller,
}
use deep_agent_cli.Control.Runs.{
  unregister_child, register_child, release_reservation, cancel_target, retire_active, take_scope,
  cancel, end_run, begin_run, reserve_run,
}
use deep_agent_cli.Control.Streams.{
  wait_model_streams_closed, unclosed_model_streams, detach, unregister_model_stream,
  register_model_stream,
}
use deep_agent_cli.Control.Frame.{retire_streams-frame}
use deep_agent_cli.Control.Begin.{model_streams-begin_run, generations-begin_run, begin_run-refs}
use deep_agent_cli.Control.Cancelling.{scopes-cancel, generations-cancel, cancel-refs}
use deep_agent_cli.Control.Steps.{
  unregisters_stream, registers_stream, cancels, ends, begins, releases, reserves, Step, here, next,
  Reach,
}
use deep_agent_cli.Control.Messages.{
  take_unapplied, pop_follow_up, pop_steering, follow_up_message, steer_message,
}
use deep_agent_cli.Control.Tools.{
  close_tool_context, open_tool_context, unregister_tool, register_tool,
}

abbrev pub Known : ℕ → Option ℕ → Type 0
Known n none = Unit
Known n (some g) = g < n

abbrev pub Differ : Option ℕ → Option ℕ → Type 0
Differ (some g) (some h) = g ≢ h
Differ _ _ = Unit

-- Every reference names a run that was made, the reserved run is not the active one, and only the
-- active run holds model streams.
pub record IsSound (c : Controller) : Type 0 where
  pub active_known : Known c.generations c.active
  pub reserved_known : Known c.generations c.reserved
  pub last_known : Known c.generations c.last
  pub distinct : Differ c.active c.reserved
  pub idle : (g : ℕ) → c.active ≢ some g → (c.scopes g).model_streams ≡ []

IsSound-same :
    {c d : Controller}
    → d.active ≡ c.active
    → d.reserved ≡ c.reserved
    → d.last ≡ c.last
    → d.generations ≡ c.generations
    → d.scopes ≡ c.scopes
    → IsSound c
    → IsSound d
IsSound-same a r l n s v = record {
  active_known = rw (a, n) v.active_known;
  reserved_known = rw (r, n) v.reserved_known;
  last_known = rw (l, n) v.last_known;
  distinct = rw (a, r) v.distinct;
  idle = λ g p. rw s (v.idle g (rw a at p));
}

reserve_run-IsSound : (c : Controller) → IsSound c → IsSound (reserve_run c).1
unfolding reserve_run take_scope make_scope update
reserve_run-IsSound c v = record {
  active_known = ground (arith, v.active_known);
  reserved_known = ground (arith, v.reserved_known);
  last_known = ground (arith, v.last_known);
  distinct = ground (arith, v.distinct, v.active_known);
  idle = λ g p. ground (arith, v.idle g);
}

begin_run-IsSound :
    (closed : ℕ → Bool) (c : Controller) → IsSound c → IsSound (begin_run closed c).1
unfolding take_scope make_scope update
begin_run-IsSound closed c v =
    let refs = begin_run-refs closed c in
    let count = generations-begin_run closed c in
    record {
      active_known = ground (arith, refs, count, v.reserved_known);
      reserved_known = ground (arith, refs);
      last_known = ground (arith, refs, count, v.reserved_known);
      distinct = ground (arith, refs);
      idle = λ g p. ground (arith, refs, model_streams-begin_run closed c g, v.idle g);
    }

end_run-IsSound : (closed : ℕ → Bool) (c : Controller) → IsSound c → IsSound (end_run closed c)
unfolding end_run retire_active
end_run-IsSound closed c v = record {
  active_known = grind (arith, retire_streams-frame);
  reserved_known = grind (arith, retire_streams-frame, v.reserved_known);
  last_known = grind (arith, retire_streams-frame, v.last_known);
  distinct = grind (arith, retire_streams-frame);
  idle = λ g p. unfold update in grind (arith, retire_streams-frame, v.idle g);
}

cancel-IsSound :
    (killpg_fails : ℕ → Bool) (c : Controller) → IsSound c → IsSound (cancel killpg_fails c)
unfolding cancel_target make_scope update
cancel-IsSound killpg_fails c v =
    let refs = cancel-refs killpg_fails c in
    let count = generations-cancel killpg_fails c in
    record {
      active_known = ground (arith, refs, count, v.active_known);
      reserved_known = ground (arith, refs, count, v.reserved_known);
      last_known = ground (arith, refs, count, v.last_known, v.active_known, v.reserved_known);
      distinct = ground (arith, refs, v.distinct);
      idle = λ g p. ground (arith, refs, scopes-cancel killpg_fails c g, v.idle g);
    }

register_model_stream-IsSound :
    (s : ℕ) (c : Controller) → IsSound c → IsSound (register_model_stream s c).1
unfolding register_model_stream update
register_model_stream-IsSound s c v = record {
  active_known = ground (arith, v.active_known);
  reserved_known = ground (arith, v.reserved_known);
  last_known = ground (arith, v.last_known);
  distinct = ground (arith, v.distinct);
  idle = λ g p. ground (arith, v.idle g);
}

unregister_model_stream-IsSound :
    (closed : ℕ → Bool) (s : ℕ) (c : Controller)
    → IsSound c
    → IsSound (unregister_model_stream closed s c)
unfolding unregister_model_stream detach update
unregister_model_stream-IsSound closed s c v = record {
  active_known = ground (arith, v.active_known);
  reserved_known = ground (arith, v.reserved_known);
  last_known = ground (arith, v.last_known);
  distinct = ground (arith, v.distinct);
  idle = λ g p. ground (arith, v.idle g);
}

release_reservation-IsSound :
    (g : ℕ) (c : Controller) → IsSound c → IsSound (release_reservation g c)
unfolding release_reservation
release_reservation-IsSound g c v = record {
  active_known = ground (arith, v.active_known);
  reserved_known = ground (arith, v.reserved_known);
  last_known = ground (arith, v.last_known);
  distinct = ground (arith, v.distinct);
  idle = λ j p. ground (arith, v.idle j);
}

module _ (killpg_fails : ℕ → Bool) where
  Step-IsSound : {c d : Controller} → Step killpg_fails c d → IsSound c → IsSound d
  unfolding request_pause clear_pause set_event_handler set_defer_steering set_pending_config_check
      steer_message follow_up_message pop_steering pop_follow_up take_unapplied register_child
      unregister_child unclosed_model_streams wait_model_streams_closed register_tool
      unregister_tool open_tool_context close_tool_context say emit
  Step-IsSound (reserves c) v = reserve_run-IsSound c v
  Step-IsSound (releases c g) v = release_reservation-IsSound g c v
  Step-IsSound (begins c closed) v = begin_run-IsSound closed c v
  Step-IsSound (ends c closed) v = end_run-IsSound closed c v
  Step-IsSound (cancels c) v = cancel-IsSound killpg_fails c v
  Step-IsSound (registers_stream c s) v = register_model_stream-IsSound s c v
  Step-IsSound (unregisters_stream c closed s) v = unregister_model_stream-IsSound closed s c v
  Step-IsSound _ v =
      IsSound-same (ground arith) (ground arith) (ground arith) (ground arith) (ground arith) v

  Reach-IsSound : {c d : Controller} → IsSound c → Reach killpg_fails c d → IsSound d
  Reach-IsSound v here = v
  Reach-IsSound v (next r s) = Step-IsSound s (Reach-IsSound v r)

  -- From a new controller on, whatever is called in whatever order: the references name runs that
  -- were made, the reserved run is another than the active one, and a run that is not active holds
  -- no model stream.
  pub references_stay-IsSound :
      (handler : Option ℕ) {c : Controller} → Reach killpg_fails (init handler) c → IsSound c
  references_stay-IsSound handler r =
      Reach-IsSound
        (record {
          active_known = tt;
          reserved_known = tt;
          last_known = tt;
          distinct = tt;
          idle = λ g p. refl;
        })
        r
