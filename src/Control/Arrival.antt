-- ===== src/Control/Arrival.antt =====
-- control.py: the queues stay in the order of arrival, whatever is called.
use deep_agent_cli.Prelude.{
  Bool-cases, All-append, All-mono, ℕ, suc, ◌≤◌, String, ◌≡◌, ◌≢◌, inl, inr, refl, sym, Bool, ◌||◌,
  Option, List, [], ◌∷◌, ◌++◌, arith, nat_comparable, text_comparable, All,
}
use deep_agent_cli.Control.State.{
  cancel_requested, set_pending_config_check, set_defer_steering, set_event_handler, clear_pause,
  request_pause, make_scope, init, follow_up, steer, say, emit, QueuedMessage, Controller,
}
use deep_agent_cli.Control.Messages.{
  take_unapplied, pop_follow_up, pop_steering, is_behind, pop_follow_from, pop_from, message,
  follow_up_message, steer_message,
}
use deep_agent_cli.Control.Queue.{Apart, Rising, IsOrdered}
use deep_agent_cli.Control.Runs.{
  unregister_child, register_child, release_reservation, cancel_target, retire_active, take_scope,
  reserve_run, cancel, end_run, begin_run,
}
use deep_agent_cli.Control.Streams.{
  wait_model_streams_closed, unclosed_model_streams, register_model_stream, unregister_model_stream,
}
use deep_agent_cli.Control.Steps.{
  here, reserves, unregisters_stream, takes_unapplied, pops_follow_up, pops_steering, follows_up,
  steers, cancels, ends, begins, Step, next, Reach,
}
use deep_agent_cli.Control.Frame.{cancel_scope-frame, carry_over-frame, retire_streams-frame}
use deep_agent_cli.Control.Tools.{
  close_tool_context, open_tool_context, unregister_tool, register_tool,
}

-- Steps that leave the queues alone.
IsOrdered-same :
    {c d : Controller}
    → d.steering ≡ c.steering
    → d.follow_ups ≡ c.follow_ups
    → d.queue_order ≡ c.queue_order
    → IsOrdered c
    → IsOrdered d
IsOrdered-same {c} {d} s f q v = record {
  steering = rw (s, q) v.steering;
  follow_ups = rw (f, q) v.follow_ups;
  apart = rw (s, f) v.apart;
}

Rising-weaken : (lo hi : ℕ) (ms : List QueuedMessage) → Rising lo hi ms → Rising lo (suc hi) ms
Rising-weaken lo hi [] h = tt
Rising-weaken lo hi (m ∷ ms) h = (h.0, omega arith, Rising-weaken (suc m.order) hi ms h.2)

Rising-lower :
    (lo lo' hi : ℕ) (ms : List QueuedMessage) → lo' ≤ lo → Rising lo hi ms → Rising lo' hi ms
Rising-lower lo lo' hi [] le h = tt
Rising-lower lo lo' hi (m ∷ ms) le h = (omega arith, h.1, h.2)

Rising-append :
    (lo hi : ℕ) (ms : List QueuedMessage) (m : QueuedMessage)
    → lo ≤ hi
    → m.order ≡ hi
    → Rising lo hi ms
    → Rising lo (suc hi) (ms ++ m ∷ [])
Rising-append lo hi [] m le e h = (omega arith, omega arith, tt)
Rising-append lo hi (x ∷ ms) m le e h =
    (h.0, omega arith, Rising-append (suc x.order) hi ms m h.1 e h.2)

-- All orders of a rising list differ from its bound.
Rising-Apart :
    (lo hi : ℕ) (ms : List QueuedMessage) (m : QueuedMessage)
    → m.order ≡ hi
    → Rising lo hi ms
    → Apart ms m
Rising-Apart lo hi [] m e h = tt
Rising-Apart lo hi (x ∷ ms) m e h = (omega arith, Rising-Apart (suc x.order) hi ms m e h.2)

Rising-apart_each :
    (lo hi : ℕ) (ms : List QueuedMessage) (m : QueuedMessage)
    → m.order ≡ hi
    → Rising lo hi ms
    → All (λ x. m.order ≢ x.order) ms
Rising-apart_each lo hi ms m e h =
    All-mono _ _ (λ x p q. p (sym q)) ms (Rising-Apart lo hi ms m e h)

Apart-append :
    (fs : List QueuedMessage) (f : QueuedMessage) (ms : List QueuedMessage)
    → All (Apart fs) ms
    → All (λ x. f.order ≢ x.order) ms
    → All (Apart (fs ++ f ∷ [])) ms
Apart-append fs f [] h k = tt
Apart-append fs f (m ∷ ms) h k =
    (All-append _ fs (f ∷ []) h.0 (k.0, tt), Apart-append fs f ms h.1 k.1)

Apart-tail :
    (f : QueuedMessage) (fs ms : List QueuedMessage) → All (Apart (f ∷ fs)) ms → All (Apart fs) ms
Apart-tail f fs ms h = All-mono _ _ (λ x p. p.1) ms h

steer_message-IsOrdered :
    (text : String) (id : ℕ) (c : Controller) → IsOrdered c → IsOrdered (steer_message text id c).1
unfolding steer_message emit say
steer_message-IsOrdered text id c v =
    let n = c.queue_order in
    let m = message text steer n id in
    record {
      steering = Rising-append 0 n c.steering m (omega arith) refl v.steering;
      follow_ups = Rising-weaken 0 n c.follow_ups v.follow_ups;
      apart =
          All-append _ c.steering (m ∷ []) v.apart
            (Rising-Apart 0 n c.follow_ups m refl v.follow_ups, tt);
    }

follow_up_message-IsOrdered :
    (text : String) (id : ℕ) (c : Controller)
    → IsOrdered c
    → IsOrdered (follow_up_message text id c).1
unfolding follow_up_message emit say
follow_up_message-IsOrdered text id c v =
    let n = c.queue_order in
    let m = message text follow_up n id in
    record {
      steering = Rising-weaken 0 n c.steering v.steering;
      follow_ups = Rising-append 0 n c.follow_ups m (omega arith) refl v.follow_ups;
      apart =
          Apart-append c.follow_ups m c.steering v.apart
            (Rising-apart_each 0 n c.steering m refl v.steering);
    }

pop_from-IsOrdered :
    (ms : List QueuedMessage) (c : Controller)
    → c.steering ≡ ms
    → IsOrdered c
    → IsOrdered (pop_from ms c).1
unfolding emit say
pop_from-IsOrdered [] c e v = v
pop_from-IsOrdered (m ∷ ms) c e v = elim (Bool-cases (is_behind c.follow_ups m)) [
  | inl behind ↦ rw behind v
  | inr ahead ↦
      let rising : Rising 0 c.queue_order (m ∷ ms) = rw e at v.steering in
      let apart : All (Apart c.follow_ups) (m ∷ ms) = rw e at v.apart in
      rw ahead (record {
        steering = Rising-lower (suc m.order) 0 c.queue_order ms (omega arith) rising.2;
        follow_ups = v.follow_ups;
        apart = apart.1;
      })
]

pop_follow_from-IsOrdered :
    (fs : List QueuedMessage) (c : Controller)
    → c.follow_ups ≡ fs
    → IsOrdered c
    → IsOrdered (pop_follow_from fs c).1
unfolding emit say
pop_follow_from-IsOrdered [] c e v = v
pop_follow_from-IsOrdered (f ∷ fs) c e v =
    let rising : Rising 0 c.queue_order (f ∷ fs) = rw e at v.follow_ups in
    record {
      steering = v.steering;
      follow_ups = Rising-lower (suc f.order) 0 c.queue_order fs (omega arith) rising.2;
      apart = Apart-tail f fs c.steering (rw e at v.apart);
    }

module _ (closed : ℕ → Bool) where
  begin_run-IsOrdered : (c : Controller) → IsOrdered c → IsOrdered (begin_run closed c).1
  unfolding begin_run take_scope make_scope say
  begin_run-IsOrdered c =
      IsOrdered-same (grind (arith, carry_over-frame)) (grind (arith, carry_over-frame))
        (grind (arith, carry_over-frame))

  end_run-IsOrdered : (c : Controller) → IsOrdered c → IsOrdered (end_run closed c)
  unfolding end_run retire_active
  end_run-IsOrdered c =
      IsOrdered-same (grind (arith, retire_streams-frame)) (grind (arith, retire_streams-frame))
        (grind (arith, retire_streams-frame))

  unregister_model_stream-IsOrdered :
      (s : ℕ) (c : Controller) → IsOrdered c → IsOrdered (unregister_model_stream closed s c)
  unfolding unregister_model_stream
  unregister_model_stream-IsOrdered s c =
      IsOrdered-same (ground arith) (ground arith) (ground arith)

module _ (killpg_fails : ℕ → Bool) where
  cancel-IsOrdered : (c : Controller) → IsOrdered c → IsOrdered (cancel killpg_fails c)
  unfolding cancel cancel_target make_scope
  cancel-IsOrdered c =
      IsOrdered-same (grind (arith, cancel_scope-frame)) (grind (arith, cancel_scope-frame))
        (grind (arith, cancel_scope-frame))

  Step-IsOrdered : {c d : Controller} → Step killpg_fails c d → IsOrdered c → IsOrdered d
  unfolding reserve_run take_scope make_scope release_reservation request_pause clear_pause
      set_event_handler set_defer_steering set_pending_config_check pop_steering pop_follow_up
      take_unapplied register_child unregister_child register_model_stream unclosed_model_streams
      wait_model_streams_closed register_tool unregister_tool open_tool_context close_tool_context
      say
  Step-IsOrdered (begins c closed) v = begin_run-IsOrdered closed c v
  Step-IsOrdered (ends c closed) v = end_run-IsOrdered closed c v
  Step-IsOrdered (cancels c) v = cancel-IsOrdered c v
  Step-IsOrdered (steers c text id) v = steer_message-IsOrdered text id c v
  Step-IsOrdered (follows_up c text id) v = follow_up_message-IsOrdered text id c v
  Step-IsOrdered (pops_steering c) v = elim (Bool-cases (c.defer_steering || cancel_requested c)) [
    | inl held ↦ rw held v
    | inr free ↦ rw free (pop_from-IsOrdered c.steering c refl v)
  ]
  Step-IsOrdered (pops_follow_up c) v = pop_follow_from-IsOrdered c.follow_ups c refl v
  Step-IsOrdered (takes_unapplied c) v = record { steering = tt; follow_ups = tt; apart = tt }
  Step-IsOrdered (unregisters_stream c closed s) v = unregister_model_stream-IsOrdered closed s c v
  Step-IsOrdered (reserves c) v = IsOrdered-same (ground arith) (ground arith) (ground arith) v
  Step-IsOrdered _ v = IsOrdered-same (ground arith) (ground arith) (ground arith) v

  Reach-IsOrdered : {c d : Controller} → IsOrdered c → Reach killpg_fails c d → IsOrdered d
  Reach-IsOrdered v here = v
  Reach-IsOrdered v (next r s) = Step-IsOrdered s (Reach-IsOrdered v r)

  -- From a new controller on, whatever is called in whatever order: both queues keep the order of
  -- arrival, below the next order number, and no order number is used twice.
  pub queues_stay-IsOrdered :
      (handler : Option ℕ) {c : Controller} → Reach killpg_fails (init handler) c → IsOrdered c
  queues_stay-IsOrdered handler r =
      Reach-IsOrdered (record { steering = tt; follow_ups = tt; apart = tt }) r
