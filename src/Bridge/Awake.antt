-- ===== src/Bridge/Awake.antt =====
-- A consumer does not wait for ever once the request has been cancelled.
use deep_agent_cli.Prelude.{
  Bool, ℕ, zero, suc, ◌≡◌, refl, sym, ap, true, false, not, ◌&&◌, ◌||◌, List, [], ◌∷◌, ◌++◌, arith,
  nat_comparable, text_comparable, if◌then◌else◌,
}
use deep_agent_cli.Bridge.State.{
  with_lock, set_cancel, start_locked, finish_gone, finish_start_in, finish_start, refuse_task,
  finishing, not_started, begins, ends, gets_slot, is_cancelled, puts_outcome, begins, asking,
  item_of, holding, was_cancelled, done, closing, read_in, fails, running, stopped, gives,
  scheduled, fresh, failed, pump_in, create_in, start_in, error, chunk, unstarted, StreamState,
  abandoned, result_of, exhausted, ended, take_slot, finish, over, read_item, finish_in,
  cancel_pump, cancelled, wake, abandon_in, leave_in, Reason, release_in, Task, PumpEvent,
  is_pending, put, start_fresh, wake_now, is_running, leaving, reading, abandon, leave, read,
  release_slot, task_done, pump, cancel_task, create_task, start, wake_consumer, close,
  request_cancel, Bridge, Item, Consumer,
}
use deep_agent_cli.Bridge.Steps.{
  finishes_start, abandons, leaves, closes, reads, releases_slot, ends_task, pumps, cancels_task,
  creates_task, starts, made, wakes_consumer, next, requests_cancel, Reach, Step,
}

abbrev is_reading : Consumer → Bool
is_reading reading = true
is_reading _ = false

abbrev pub is_leaving : Consumer → Bool
is_leaving (leaving why) = true
is_leaving _ = false

true-false : true ≡ false → ⊥
true-false h = cc h

module _ {A : Type 0} where
  abbrev is_empty : List (Item A) → Bool
  is_empty [] = true
  is_empty (item ∷ queue) = false

  -- The consumer waits, the request is cancelled, and nobody is about to wake the consumer.
  abbrev sleeps : Bool → Bool → List (Item A) → Consumer → Bool
  sleeps cancelling waking queue c = cancelling && (not waking && (is_empty queue && is_reading c))

  abbrev IsAwake : Bridge A → Type 0
  IsAwake b = sleeps b.cancel_requested b.waking b.queue b.consumer ≡ false

  awake_by_queue :
      (cancelling waking : Bool) (queue : List (Item A)) (c : Consumer)
      → is_empty queue ≡ false
      → sleeps cancelling waking queue c ≡ false
  awake_by_queue cancelling waking queue c e = ground (arith, e)

  awake_by_consumer :
      (cancelling waking : Bool) (queue : List (Item A)) (c : Consumer)
      → is_reading c ≡ false
      → sleeps cancelling waking queue c ≡ false
  awake_by_consumer cancelling waking queue c e = ground (arith, e)

  awake_uncancelled :
      (cancelling waking : Bool) (queue : List (Item A)) (c : Consumer)
      → cancelling ≡ false
      → sleeps cancelling waking queue c ≡ false
  awake_uncancelled cancelling waking queue c e = ground (arith, e)

  is_empty-append : (q : List (Item A)) (item : Item A) → is_empty (q ++ item ∷ []) ≡ false
  is_empty-append [] item = refl
  is_empty-append (x ∷ q) item = refl

  awake_put :
      (cancelling waking : Bool) (q : List (Item A)) (item : Item A) (c : Consumer)
      → sleeps cancelling waking (q ++ item ∷ []) c ≡ false
  awake_put cancelling waking q item c =
      awake_by_queue cancelling waking (q ++ item ∷ []) c (is_empty-append q item)

  locked-IsAwake :
      (section : Bridge A → Bridge A) (b : Bridge A)
      → IsAwake b
      → IsAwake (section b)
      → IsAwake (with_lock section b)
  locked-IsAwake section b i s = either b.lock_held
    where
      either : (t : Bool) → IsAwake (if t then b else section b)
      either true = i
      either false = s

  request_cancel-IsAwake : (b : Bridge A) → IsAwake b → IsAwake (request_cancel b)
  unfolding request_cancel
  request_cancel-IsAwake b i = locked-IsAwake set_cancel b i (either b.cancel_requested)
    where
      either :
          (t : Bool)
          → IsAwake (if t then b else record b { cancel_requested = true; waking = true })
      either true = i
      either false = refl

  close-IsAwake : (b : Bridge A) → IsAwake b → IsAwake (close b)
  unfolding close
  close-IsAwake b i = either (is_running b.state && not b.closed)
    where
      either : (t : Bool) → IsAwake (if t then request_cancel b else b)
      either true = request_cancel-IsAwake b i
      either false = i

  wake_consumer-IsAwake :
      (loop_gone : Bool) (b : Bridge A) → IsAwake b → IsAwake (wake_consumer loop_gone b)
  unfolding wake_consumer
  wake_consumer-IsAwake loop_gone b i = in_case b.waking
    where
      in_case : (w : Bool) → IsAwake (wake_now w loop_gone b)
      in_case false = i
      in_case true = awake_put b.cancel_requested false b.queue wake b.consumer

  start-IsAwake : (loop_gone : Bool) (b : Bridge A) → IsAwake b → IsAwake (start loop_gone b)
  unfolding start
  start-IsAwake loop_gone b i = locked-IsAwake (start_locked loop_gone) b i (in_state b.state)
    where
      fresh_case : (c gone : Bool) → b.cancel_requested ≡ c → IsAwake (start_fresh c gone b)
      fresh_case true gone e = awake_put b.cancel_requested b.waking b.queue cancelled reading
      fresh_case false true e = awake_by_consumer b.cancel_requested b.waking b.queue finishing refl
      fresh_case false false e = awake_uncancelled b.cancel_requested b.waking b.queue reading e

      in_state : (s : StreamState) → IsAwake (start_in s loop_gone b)
      in_state fresh = fresh_case b.cancel_requested loop_gone refl
      in_state running = i
      in_state deep_agent_cli.Bridge.State.finished = i

  finish_start-IsAwake : (b : Bridge A) → IsAwake b → IsAwake (finish_start b)
  unfolding finish_start
  finish_start-IsAwake b i = in_consumer b.consumer
    where
      in_consumer : (c : Consumer) → IsAwake (finish_start_in c b)
      in_consumer finishing =
          locked-IsAwake finish_gone b i
            (awake_put b.cancel_requested b.waking b.queue (error "Event loop is closed") reading)
      in_consumer _ = i

  create_task-IsAwake : (b : Bridge A) → IsAwake b → IsAwake (create_task b)
  unfolding create_task
  create_task-IsAwake b i = in_task b.task
    where
      either :
          (c : Bool)
          → IsAwake (
              if c
              then with_lock refuse_task b
              else record b { slots = b.max_buffered; task = unstarted })
      either true =
          locked-IsAwake refuse_task b i
            (awake_put b.cancel_requested b.waking b.queue cancelled b.consumer)
      either false = i

      in_task : (t : Task A) → IsAwake (create_in t b)
      in_task scheduled = either b.cancel_requested
      in_task _ = i

  cancel_task-IsAwake : (b : Bridge A) → IsAwake b → IsAwake (cancel_task b)
  unfolding cancel_task
  cancel_task-IsAwake b i = either b.cancel_scheduled
    where
      either :
          (c : Bool)
          → IsAwake (
              if c
              then record b {
                cancel_scheduled = false;
                task_cancelled = b.task_cancelled || is_pending b.task;
              }
              else b)
      either true = i
      either false = i

  pump-IsAwake : (event : PumpEvent A) (b : Bridge A) → IsAwake b → IsAwake (pump event b)
  unfolding pump
  pump-IsAwake event b i = in_task b.task event
    where
      cancels : (t : Task A) (c : Bool) → IsAwake (cancel_pump c t b)
      cancels t true = i
      cancels t false = i

      slot : (n : ℕ) (x : A) → IsAwake (take_slot n x b)
      slot zero x = i
      slot (suc n) x = awake_put b.cancel_requested b.waking b.queue (chunk x) b.consumer

      in_task : (t : Task A) (v : PumpEvent A) → IsAwake (pump_in t v b)
      in_task unstarted begins = i
      in_task unstarted is_cancelled = cancels ended b.task_cancelled
      in_task asking (gives x) = i
      in_task asking ends = i
      in_task asking (fails t) = i
      in_task asking is_cancelled = cancels (closing was_cancelled) b.task_cancelled
      in_task (holding x) gets_slot = slot b.slots x
      in_task (holding x) is_cancelled = cancels (closing was_cancelled) b.task_cancelled
      in_task (closing o) puts_outcome =
          awake_put b.cancel_requested b.waking b.queue (item_of o) b.consumer
      in_task _ _ = i

  task_done-IsAwake : (b : Bridge A) → IsAwake b → IsAwake (task_done b)
  unfolding task_done
  task_done-IsAwake b i = in_task b.task
    where
      in_task : (t : Task A) → IsAwake (finish_in t b)
      in_task ended = locked-IsAwake finish b i i
      in_task _ = i

  release_slot-IsAwake : (b : Bridge A) → IsAwake b → IsAwake (release_slot b)
  unfolding release_slot
  release_slot-IsAwake b i = counted b.releases
    where
      counted : (n : ℕ) → IsAwake (release_in n b)
      counted zero = i
      counted (suc n) = i

  read-IsAwake : (loop_gone : Bool) (b : Bridge A) → IsAwake b → IsAwake (read loop_gone b)
  unfolding read
  read-IsAwake loop_gone b i = in_consumer b.consumer b.queue
    where
      left :
          (q : List (Item A)) (why : Reason)
          → sleeps b.cancel_requested b.waking q (leaving why) ≡ false
      left q why = awake_by_consumer b.cancel_requested b.waking q (leaving why) refl

      in_item :
          (c : Bool) (item : Item A) (q : List (Item A))
          → b.cancel_requested ≡ c
          → IsAwake (read_item c loop_gone item (record b { queue = q }))
      in_item c done q e = left q exhausted
      in_item false (error t) q e = left q (failed t)
      in_item true (error t) q e = left q stopped
      in_item false (chunk x) q e = awake_uncancelled b.cancel_requested b.waking q b.consumer e
      in_item true (chunk x) q e = left q stopped
      in_item true cancelled q e = left q stopped
      in_item false cancelled q e = left q stopped
      in_item true wake q e = left q stopped
      in_item false wake q e = left q stopped

      in_consumer : (c : Consumer) (q : List (Item A)) → IsAwake (read_in c q loop_gone b)
      in_consumer reading (item ∷ q) = in_item b.cancel_requested item q refl
      in_consumer _ _ = i

  leave-IsAwake : (b : Bridge A) → IsAwake b → IsAwake (leave b)
  unfolding leave
  leave-IsAwake b i = in_consumer b.consumer
    where
      in_consumer : (c : Consumer) → IsAwake (leave_in c b)
      in_consumer (leaving why) =
          let gone = over (result_of why b.closed) in
          close-IsAwake (record b { consumer = gone })
            (awake_by_consumer b.cancel_requested b.waking b.queue gone refl)
      in_consumer _ = i

  abandon-IsAwake : (b : Bridge A) → IsAwake b → IsAwake (abandon b)
  unfolding abandon
  abandon-IsAwake b i = in_consumer b.consumer
    where
      in_consumer : (c : Consumer) → IsAwake (abandon_in c b)
      in_consumer reading =
          close-IsAwake (record b { consumer = over abandoned })
            (awake_by_consumer b.cancel_requested b.waking b.queue (over abandoned) refl)
      in_consumer _ = i

  Step-IsAwake : {b c : Bridge A} → Step b c → IsAwake b → IsAwake c
  Step-IsAwake (requests_cancel b) i = request_cancel-IsAwake b i
  Step-IsAwake (wakes_consumer loop_gone b) i = wake_consumer-IsAwake loop_gone b i
  Step-IsAwake (starts loop_gone b) i = start-IsAwake loop_gone b i
  Step-IsAwake (finishes_start b) i = finish_start-IsAwake b i
  Step-IsAwake (creates_task b) i = create_task-IsAwake b i
  Step-IsAwake (cancels_task b) i = cancel_task-IsAwake b i
  Step-IsAwake (pumps event b) i = pump-IsAwake event b i
  Step-IsAwake (ends_task b) i = task_done-IsAwake b i
  Step-IsAwake (releases_slot b) i = release_slot-IsAwake b i
  Step-IsAwake (reads loop_gone b) i = read-IsAwake loop_gone b i
  Step-IsAwake (closes b) i = close-IsAwake b i
  Step-IsAwake (leaves b) i = leave-IsAwake b i
  Step-IsAwake (abandons b) i = abandon-IsAwake b i

  Reach-IsAwake : (n : ℕ) {b : Bridge A} → Reach n b → IsAwake b
  Reach-IsAwake n made = refl
  Reach-IsAwake n (next r s) = Step-IsAwake s (Reach-IsAwake n r)

  -- A consumer that finds an item in a cancelled request leaves without the item.
  read_cancelled :
      (loop_gone : Bool) (b : Bridge A)
      → b.cancel_requested ≡ true
      → b.consumer ≡ reading
      → is_empty b.queue ≡ false
      → let c = read loop_gone b in (is_leaving c.consumer ≡ true) × (c.delivered ≡ b.delivered)
  unfolding read
  read_cancelled loop_gone b c r e = in_consumer b.consumer b.queue r e
    where
      Leaves : Bridge A → Type 0
      Leaves d = (is_leaving d.consumer ≡ true) × (d.delivered ≡ b.delivered)

      in_item :
          (t : Bool) (item : Item A) (q : List (Item A))
          → t ≡ true
          → Leaves (read_item t loop_gone item (record b { queue = q }))
      in_item false item q e = absurd (true-false (sym e))
      in_item true done q e = (refl, refl)
      in_item true (error t) q e = (refl, refl)
      in_item true (chunk x) q e = (refl, refl)
      in_item true cancelled q e = (refl, refl)
      in_item true wake q e = (refl, refl)

      in_consumer :
          (k : Consumer) (q : List (Item A))
          → k ≡ reading
          → is_empty q ≡ false
          → Leaves (read_in k q loop_gone b)
      in_consumer reading (item ∷ q) r e = in_item b.cancel_requested item q c
      in_consumer reading [] r e = absurd (true-false e)
      in_consumer not_started q r e = absurd (true-false (sym (ap is_reading r)))
      in_consumer finishing q r e = absurd (true-false (sym (ap is_reading r)))
      in_consumer (leaving why) q r e = absurd (true-false (sym (ap is_reading r)))
      in_consumer (over result) q r e = absurd (true-false (sym (ap is_reading r)))

  -- When the request is cancelled while the consumer waits for an item or works on one, then in every
  -- state that is reached, once the call of `cancel` has done its rest, the next look into the queue
  -- finds an item, and the consumer leaves without a further chunk.
  pub cancelled_reader_leaves :
      (n : ℕ) (b : Bridge A) (loop_gone : Bool)
      → Reach n b
      → b.cancel_requested ≡ true
      → b.consumer ≡ reading
      → let c = read loop_gone (wake_consumer loop_gone b) in
        (is_leaving c.consumer ≡ true) × (c.delivered ≡ b.delivered)
  unfolding wake_consumer
  cancelled_reader_leaves n b loop_gone r c e = woken b.waking refl
    where
      woken :
          (w : Bool)
          → b.waking ≡ w
          → let c = read loop_gone (wake_now w loop_gone b) in
            (is_leaving c.consumer ≡ true) × (c.delivered ≡ b.delivered)
      woken true w =
          read_cancelled loop_gone (wake_now true loop_gone b) c e (is_empty-append b.queue wake)
      woken false w = read_cancelled loop_gone b c e (ground (arith, Reach-IsAwake n r, w, c, e))
