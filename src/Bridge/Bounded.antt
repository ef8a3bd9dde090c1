-- ===== src/Bridge/Bounded.antt =====
-- In every state of a bridge the chunks that wait for the consumer are no more than the buffer has
-- room for.
use deep_agent_cli.Prelude.{
  Bool, ℕ, zero, suc, ◌+◌, ◌≤◌, ◌≡◌, refl, sym, ap, ◌∙◌, true, false, ◌||◌, List, [], ◌∷◌, ◌++◌,
  arith, nat_comparable, text_comparable, if◌then◌else◌,
}
use deep_agent_cli.Bridge.State.{
  with_lock, set_cancel, start_locked, finish_gone, finish_start_in, finish_start, refuse_task,
  finishing, begins, ends, gets_slot, is_cancelled, puts_outcome, fresh_bridge, result_of,
  was_cancelled, all_given, had_error, item_of, abandoned, Result, Outcome, fails, gives, pump_in,
  take_slot, cancel_pump, PumpEvent, read_in, pump, read, reading, not_started, asking, create_in,
  running, over, unstarted, fresh, leaving, closing, ended, start_in, abandon_in, leave_in, holding,
  finish, StreamState, Consumer, release_in, finish_in, is_pending, put, start_fresh, abandon,
  leave, read_item, release_slot, task_done, cancel_task, create_task, start, cancelled, done, wake,
  error, scheduled, wake_now, is_running, no_task, chunk, wake_consumer, close, request_cancel,
  Bridge, Task, Item,
}
use deep_agent_cli.Bridge.Steps.{
  finishes_start, abandons, leaves, closes, reads, releases_slot, ends_task, pumps, cancels_task,
  creates_task, starts, made, wakes_consumer, next, requests_cancel, Reach, Step,
}
use deep_agent_cli.Bridge.Slots.{
  locked-IsBounded, not_begun_yet, wake_consumer-IsBounded, buffered-append, unmoved, is_fresh,
  request_cancel-IsBounded, close-IsBounded, Later, buffered-other, buffered-tail, keeps,
  not_created, buffered, IsBounded,
}

module _ {A : Type 0} where
  start-IsBounded : (loop_gone : Bool) (b : Bridge A) → IsBounded b → IsBounded (start loop_gone b)
  unfolding start
  start-IsBounded loop_gone b i =
      locked-IsBounded (start_locked loop_gone) b i (in_state b.state refl)
    where
      fresh_case : (c gone : Bool) → b.task ≡ no_task → IsBounded (start_fresh c gone b)
      fresh_case true gone n =
          keeps b _ i (buffered-other b.queue cancelled refl) refl refl refl
            (λ e. e, λ e. absurd (cc e))
      fresh_case false true n = keeps b _ i refl refl refl refl (λ e. e, λ e. absurd (cc e))
      fresh_case false false n =
          keeps b _ i refl refl refl refl (λ e. ap not_created n, λ e. absurd (cc e))

      in_state : (s : StreamState) → b.state ≡ s → IsBounded (start_in s loop_gone b)
      in_state fresh e = fresh_case b.cancel_requested loop_gone (i.not_begun (ap is_fresh e))
      in_state running e = i
      in_state deep_agent_cli.Bridge.State.finished e = i

  finish_start-IsBounded : (b : Bridge A) → IsBounded b → IsBounded (finish_start b)
  unfolding finish_start
  finish_start-IsBounded b i = in_consumer b.consumer
    where
      in_consumer : (c : Consumer) → IsBounded (finish_start_in c b)
      in_consumer finishing = locked-IsBounded finish_gone b i (
          keeps b (finish_gone b) i (buffered-other b.queue (error "Event loop is closed") refl)
            refl refl refl (λ e. e, λ e. absurd (cc e)))
      in_consumer _ = i

  no_task-scheduled : ◌≡◌ {A = Task A} no_task scheduled → ⊥
  no_task-scheduled e = cc e

  create_task-IsBounded : (b : Bridge A) → IsBounded b → IsBounded (create_task b)
  unfolding create_task
  create_task-IsBounded b i = in_task b.task refl
    where
      either :
          (c : Bool)
          → not_created b.task ≡ true
          → b.task ≡ scheduled
          → IsBounded (
              if c
              then with_lock refuse_task b
              else record b { slots = b.max_buffered; task = unstarted })
      either true n s = locked-IsBounded refuse_task b i (
          keeps b (refuse_task b) i (buffered-other b.queue cancelled refl) refl refl refl
            (λ e. n, λ e. absurd (cc e)))
      either false n s = record {
        slots_taken = let early = i.none_early n in omega (arith, early.0, early.2);
        none_early = λ e. absurd (cc e);
        not_begun = λ e. absurd (no_task-scheduled (sym (i.not_begun e) ∙ s));
      }

      in_task : (t : Task A) → b.task ≡ t → IsBounded (create_in t b)
      in_task scheduled e = either b.cancel_requested (ap not_created e) e
      in_task no_task e = i
      in_task unstarted e = i
      in_task asking e = i
      in_task (holding x) e = i
      in_task (closing o) e = i
      in_task ended e = i

  cancel_task-IsBounded : (b : Bridge A) → IsBounded b → IsBounded (cancel_task b)
  unfolding cancel_task
  cancel_task-IsBounded b i = either b.cancel_scheduled
    where
      either :
          (c : Bool)
          → IsBounded (
              if c
              then record b {
                cancel_scheduled = false;
                task_cancelled = b.task_cancelled || is_pending b.task;
              }
              else b)
      either true = keeps b _ i refl refl refl refl (unmoved b.task b.state)
      either false = i

  task_done-IsBounded : (b : Bridge A) → IsBounded b → IsBounded (task_done b)
  unfolding task_done
  task_done-IsBounded b i = in_task b.task
    where
      in_task : (t : Task A) → IsBounded (finish_in t b)
      in_task ended =
          locked-IsBounded finish b i
            (keeps b (finish b) i refl refl refl refl (λ e. e, λ e. absurd (cc e)))
      in_task no_task = i
      in_task scheduled = i
      in_task unstarted = i
      in_task asking = i
      in_task (holding x) = i
      in_task (closing o) = i

  release_slot-IsBounded : (b : Bridge A) → IsBounded b → IsBounded (release_slot b)
  unfolding release_slot
  release_slot-IsBounded b i = counted b.releases refl
    where
      counted : (n : ℕ) → b.releases ≡ n → IsBounded (release_in n b)
      counted zero e = i
      counted (suc n) e = record {
        slots_taken = omega (arith, i.slots_taken, e);
        none_early = λ c. absurd (omega (arith, (i.none_early c).2, e));
        not_begun = i.not_begun;
      }

  -- An item that is no chunk is read.
  drops :
      (item : Item A) (q : List (Item A)) (b : Bridge A) (c : Consumer)
      → b.queue ≡ item ∷ q
      → IsBounded b
      → IsBounded (record b { queue = q; consumer = c })
  drops item q b c e i = record {
    slots_taken = omega (arith, i.slots_taken, ap buffered e, buffered-tail q item);
    none_early = λ n.
        let early = i.none_early n in
        (omega (arith, early.0, ap buffered e, buffered-tail q item), early.1, early.2);
    not_begun = i.not_begun;
  }

  -- The slot of a chunk comes back when the loop is there.
  chunk_read :
      (x : A) (q : List (Item A)) (b : Bridge A) (gone : Bool)
      → b.queue ≡ chunk x ∷ q
      → IsBounded b
      → IsBounded (record b {
        queue = q;
        releases = if gone then b.releases else suc b.releases;
        delivered = b.delivered ++ x ∷ [];
      })
  chunk_read x q b gone e i = record {
    slots_taken = counted gone;
    none_early =
        λ n. absurd (omega (arith, (i.none_early n).0, ap buffered e, buffered-tail q (chunk x)));
    not_begun = i.not_begun;
  }
    where
      counted :
          (g : Bool)
          → buffered q + b.slots + (if g then b.releases else suc b.releases) ≤ b.max_buffered
      counted true = omega (arith, i.slots_taken, ap buffered e, buffered-tail q (chunk x))
      counted false = omega (arith, i.slots_taken, ap buffered e, buffered-tail q (chunk x))

  read-IsBounded : (loop_gone : Bool) (b : Bridge A) → IsBounded b → IsBounded (read loop_gone b)
  unfolding read
  read-IsBounded loop_gone b i = in_consumer b.consumer b.queue refl
    where
      in_item :
          (cancelling : Bool) (item : Item A) (q : List (Item A))
          → b.queue ≡ item ∷ q
          → IsBounded (read_item cancelling loop_gone item (record b { queue = q }))
      in_item cancelling done q e = drops done q b _ e i
      in_item false (error t) q e = drops (error t) q b _ e i
      in_item true (error t) q e = drops (error t) q b _ e i
      in_item false (chunk x) q e = chunk_read x q b loop_gone e i
      in_item true (chunk x) q e = drops (chunk x) q b _ e i
      in_item true cancelled q e = drops cancelled q b _ e i
      in_item false cancelled q e = drops cancelled q b _ e i
      in_item true wake q e = drops wake q b _ e i
      in_item false wake q e = drops wake q b _ e i

      in_consumer :
          (c : Consumer) (q : List (Item A)) → b.queue ≡ q → IsBounded (read_in c q loop_gone b)
      in_consumer reading (item ∷ q) e = in_item b.cancel_requested item q e
      in_consumer reading [] e = i
      in_consumer not_started q e = i
      in_consumer finishing q e = i
      in_consumer (leaving why) q e = i
      in_consumer (over result) q e = i

  buffered-outcome : (q : List (Item A)) (o : Outcome) → buffered (q ++ item_of o ∷ []) ≡ buffered q
  buffered-outcome q all_given = buffered-other q done refl
  buffered-outcome q was_cancelled = buffered-other q cancelled refl
  buffered-outcome q (had_error e) = buffered-other q (error e) refl

  -- A task that has begun is not to be created.
  begun :
      (b c : Bridge A) (t : Task A)
      → b.task ≡ t
      → not_created t ≡ false
      → not_created c.task ≡ false
      → c.state ≡ b.state
      → Later b.task c.task b.state c.state
  begun b c t e n m s = (
    λ x. absurd (cc (m, x)),
    λ f.
        (ap is_fresh (sym s) ∙ f, λ z. absurd (not_begun_yet (sym n ∙ ap not_created (sym e ∙ z)))),
  )

  pump-IsBounded : (event : PumpEvent A) (b : Bridge A) → IsBounded b → IsBounded (pump event b)
  unfolding pump
  pump-IsBounded event b i = in_task b.task event refl
    where
      -- Only the task changes.
      goes :
          (t t' : Task A) (c : Bool) (p : List A)
          → b.task ≡ t
          → not_created t ≡ false
          → not_created t' ≡ false
          → IsBounded (record b { task = t'; task_cancelled = c; produced = p })
      goes t t' c p e n m =
          keeps b _ i refl refl refl refl
            (begun b (record b { task = t'; task_cancelled = c; produced = p }) t e n m refl)

      cancels :
          (t t' : Task A) (c : Bool)
          → b.task ≡ t
          → not_created t ≡ false
          → not_created t' ≡ false
          → IsBounded (cancel_pump c t' b)
      cancels t t' true e n m = goes t t' false b.produced e n m
      cancels t t' false e n m = i

      slot : (n : ℕ) (x : A) → b.slots ≡ n → b.task ≡ holding x → IsBounded (take_slot n x b)
      slot zero x s e = i
      slot (suc n) x s e = record {
        slots_taken = omega (arith, i.slots_taken, s, buffered-append b.queue (chunk x));
        none_early = λ z. absurd (cc z);
        not_begun = λ f. absurd (not_begun_yet (ap not_created (sym e ∙ i.not_begun f)));
      }

      outcome :
          (o : Outcome)
          → b.task ≡ closing o
          → IsBounded (record b { queue = b.queue ++ item_of o ∷ []; task = ended })
      outcome o e =
          keeps b _ i (buffered-outcome b.queue o) refl refl refl
            (begun b (record b { task = ended }) (closing o) e refl refl refl)

      in_task : (t : Task A) (v : PumpEvent A) → b.task ≡ t → IsBounded (pump_in t v b)
      in_task unstarted begins e = goes unstarted asking b.task_cancelled b.produced e refl refl
      in_task unstarted is_cancelled e = cancels unstarted ended b.task_cancelled e refl refl
      in_task asking (gives x) e =
          goes asking (holding x) b.task_cancelled (b.produced ++ x ∷ []) e refl refl
      in_task asking ends e =
          goes asking (closing all_given) b.task_cancelled b.produced e refl refl
      in_task asking (fails t) e =
          goes asking (closing (had_error t)) b.task_cancelled b.produced e refl refl
      in_task asking is_cancelled e =
          cancels asking (closing was_cancelled) b.task_cancelled e refl refl
      in_task (holding x) gets_slot e = slot b.slots x refl e
      in_task (holding x) is_cancelled e =
          cancels (holding x) (closing was_cancelled) b.task_cancelled e refl refl
      in_task (closing o) puts_outcome e = outcome o e
      in_task _ _ e = i

  leave-IsBounded : (b : Bridge A) → IsBounded b → IsBounded (leave b)
  unfolding leave
  leave-IsBounded b i = in_consumer b.consumer
    where
      in_consumer : (c : Consumer) → IsBounded (leave_in c b)
      in_consumer (leaving why) =
          close-IsBounded (record b { consumer = over (result_of why b.closed) })
            (keeps b _ i refl refl refl refl (unmoved b.task b.state))
      in_consumer not_started = i
      in_consumer reading = i
      in_consumer finishing = i
      in_consumer (over result) = i

  abandon-IsBounded : (b : Bridge A) → IsBounded b → IsBounded (abandon b)
  unfolding abandon
  abandon-IsBounded b i = in_consumer b.consumer
    where
      in_consumer : (c : Consumer) → IsBounded (abandon_in c b)
      in_consumer reading =
          close-IsBounded (record b { consumer = over abandoned })
            (keeps b _ i refl refl refl refl (unmoved b.task b.state))
      in_consumer (leaving why) = i
      in_consumer not_started = i
      in_consumer finishing = i
      in_consumer (over result) = i

  Step-IsBounded : {b c : Bridge A} → Step b c → IsBounded b → IsBounded c
  Step-IsBounded (requests_cancel b) i = request_cancel-IsBounded b i
  Step-IsBounded (wakes_consumer loop_gone b) i = wake_consumer-IsBounded loop_gone b i
  Step-IsBounded (starts loop_gone b) i = start-IsBounded loop_gone b i
  Step-IsBounded (finishes_start b) i = finish_start-IsBounded b i
  Step-IsBounded (creates_task b) i = create_task-IsBounded b i
  Step-IsBounded (cancels_task b) i = cancel_task-IsBounded b i
  Step-IsBounded (pumps event b) i = pump-IsBounded event b i
  Step-IsBounded (ends_task b) i = task_done-IsBounded b i
  Step-IsBounded (releases_slot b) i = release_slot-IsBounded b i
  Step-IsBounded (reads loop_gone b) i = read-IsBounded loop_gone b i
  Step-IsBounded (closes b) i = close-IsBounded b i
  Step-IsBounded (leaves b) i = leave-IsBounded b i
  Step-IsBounded (abandons b) i = abandon-IsBounded b i

  fresh_bridge-IsBounded : (n : ℕ) → IsBounded (fresh_bridge {A = A} n)
  unfolding buffered
  fresh_bridge-IsBounded n = record {
    slots_taken = omega arith;
    none_early = λ e. (refl, refl, refl);
    not_begun = λ e. refl;
  }

  pub Reach-IsBounded : (n : ℕ) {b : Bridge A} → Reach n b → IsBounded b
  Reach-IsBounded n made = fresh_bridge-IsBounded n
  Reach-IsBounded n (next r s) = Step-IsBounded s (Reach-IsBounded n r)

  -- In every state that is reached, the chunks that wait for the consumer, the free slots and the
  -- slots on their way back are together no more than the buffer's size, so the chunks that wait are
  -- no more either.
  pub buffered_bound :
      (n : ℕ) (b : Bridge A)
      → Reach n b
      → (buffered b.queue + b.slots + b.releases ≤ b.max_buffered)
        × (buffered b.queue ≤ b.max_buffered)
  buffered_bound n b r =
      let i = Reach-IsBounded n r in (i.slots_taken, omega (arith, i.slots_taken))
