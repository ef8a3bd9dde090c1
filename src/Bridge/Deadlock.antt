-- ===== src/Bridge/Deadlock.antt =====
-- What follows when the loop is gone at the moment that a stream starts.
use deep_agent_cli.Bridge.State.{
  with_lock, set_cancel, start_locked, finish_gone, finish_start_in, finish_start, refuse_task,
  finishing, finish, error, reading, unstarted, asking, holding, was_cancelled, closing, pump_in,
  ended, take_slot, scheduled, running, start_fresh, abandon_in, leave_in, read_in, finish_in,
  cancel_pump, create_in, start_in, fresh, is_running, release_in, PumpEvent, Task, StreamState,
  wake_now, close, abandon, leave, read, release_slot, task_done, pump, cancel_task, create_task,
  start, wake_consumer, request_cancel, Bridge, begins, ends, gets_slot, is_cancelled, puts_outcome,
  gives, fails,
}
use deep_agent_cli.Bridge.Steps.{
  finishes_start, abandons, leaves, closes, reads, releases_slot, ends_task, pumps, cancels_task,
  creates_task, starts, wakes_consumer, requests_cancel, Step, here, onward, Run,
}
use deep_agent_cli.Prelude.{
  subst, Bool, ℕ, zero, suc, ◌≡◌, refl, sym, true, false, not, ◌&&◌, nat_comparable,
  text_comparable, if◌then◌else◌,
}

module _ {A : Type 0} where
  -- The consumer holds the lock, and its next step takes the lock.
  abbrev IsStuck : Bridge A → Type 0
  IsStuck b = (b.consumer ≡ finishing) × (b.lock_held ≡ true)

  locked-IsStuck :
      (section : Bridge A → Bridge A) (b : Bridge A) → IsStuck b → IsStuck (with_lock section b)
  locked-IsStuck section b i = subst (λ t. IsStuck (if t then b else section b)) (sym i.1) i

  either-IsStuck :
      (t : Bool) (b c : Bridge A) → IsStuck b → IsStuck c → IsStuck (if t then b else c)
  either-IsStuck true b c i j = i
  either-IsStuck false b c i j = j

  request_cancel-IsStuck : (b : Bridge A) → IsStuck b → IsStuck (request_cancel b)
  unfolding request_cancel
  request_cancel-IsStuck b i = locked-IsStuck set_cancel b i

  wake_consumer-IsStuck :
      (loop_gone : Bool) (b : Bridge A) → IsStuck b → IsStuck (wake_consumer loop_gone b)
  unfolding wake_consumer
  wake_consumer-IsStuck loop_gone b i = in_case b.waking
    where
      in_case : (w : Bool) → IsStuck (wake_now w loop_gone b)
      in_case false = i
      in_case true = i

  start-IsStuck : (loop_gone : Bool) (b : Bridge A) → IsStuck b → IsStuck (start loop_gone b)
  unfolding start
  start-IsStuck loop_gone b i = locked-IsStuck (start_locked loop_gone) b i

  finish_start-IsStuck : (b : Bridge A) → IsStuck b → IsStuck (finish_start b)
  unfolding finish_start
  finish_start-IsStuck b i =
      subst (λ c. IsStuck (finish_start_in c b)) (sym i.0) (locked-IsStuck finish_gone b i)

  create_task-IsStuck : (b : Bridge A) → IsStuck b → IsStuck (create_task b)
  unfolding create_task
  create_task-IsStuck b i = in_task b.task
    where
      in_task : (t : Task A) → IsStuck (create_in t b)
      in_task scheduled = either-IsStuck b.cancel_requested _ _ (locked-IsStuck refuse_task b i) i
      in_task _ = i

  cancel_task-IsStuck : (b : Bridge A) → IsStuck b → IsStuck (cancel_task b)
  unfolding cancel_task
  cancel_task-IsStuck b i = either-IsStuck b.cancel_scheduled _ b i i

  pump-IsStuck : (event : PumpEvent A) (b : Bridge A) → IsStuck b → IsStuck (pump event b)
  unfolding pump
  pump-IsStuck event b i = in_task b.task event
    where
      cancels : (t : Task A) (c : Bool) → IsStuck (cancel_pump c t b)
      cancels t true = i
      cancels t false = i

      slot : (n : ℕ) (x : A) → IsStuck (take_slot n x b)
      slot zero x = i
      slot (suc n) x = i

      in_task : (t : Task A) (v : PumpEvent A) → IsStuck (pump_in t v b)
      in_task unstarted begins = i
      in_task unstarted is_cancelled = cancels ended b.task_cancelled
      in_task asking (gives x) = i
      in_task asking ends = i
      in_task asking (fails t) = i
      in_task asking is_cancelled = cancels (closing was_cancelled) b.task_cancelled
      in_task (holding x) gets_slot = slot b.slots x
      in_task (holding x) is_cancelled = cancels (closing was_cancelled) b.task_cancelled
      in_task (closing o) puts_outcome = i
      in_task _ _ = i

  task_done-IsStuck : (b : Bridge A) → IsStuck b → IsStuck (task_done b)
  unfolding task_done
  task_done-IsStuck b i = in_task b.task
    where
      in_task : (t : Task A) → IsStuck (finish_in t b)
      in_task ended = locked-IsStuck finish b i
      in_task _ = i

  release_slot-IsStuck : (b : Bridge A) → IsStuck b → IsStuck (release_slot b)
  unfolding release_slot
  release_slot-IsStuck b i = counted b.releases
    where
      counted : (n : ℕ) → IsStuck (release_in n b)
      counted zero = i
      counted (suc n) = i

  -- The consumer's own steps need a consumer that has started.
  read-IsStuck : (loop_gone : Bool) (b : Bridge A) → IsStuck b → IsStuck (read loop_gone b)
  unfolding read
  read-IsStuck loop_gone b i = subst (λ c. IsStuck (read_in c b.queue loop_gone b)) (sym i.0) i

  leave-IsStuck : (b : Bridge A) → IsStuck b → IsStuck (leave b)
  unfolding leave
  leave-IsStuck b i = subst (λ c. IsStuck (leave_in c b)) (sym i.0) i

  abandon-IsStuck : (b : Bridge A) → IsStuck b → IsStuck (abandon b)
  unfolding abandon
  abandon-IsStuck b i = subst (λ c. IsStuck (abandon_in c b)) (sym i.0) i

  close-IsStuck : (b : Bridge A) → IsStuck b → IsStuck (close b)
  unfolding close
  close-IsStuck b i =
      either-IsStuck (is_running b.state && not b.closed) _ b (request_cancel-IsStuck b i) i

  Step-IsStuck : {b c : Bridge A} → Step b c → IsStuck b → IsStuck c
  Step-IsStuck (requests_cancel b) i = request_cancel-IsStuck b i
  Step-IsStuck (wakes_consumer loop_gone b) i = wake_consumer-IsStuck loop_gone b i
  Step-IsStuck (starts loop_gone b) i = start-IsStuck loop_gone b i
  Step-IsStuck (finishes_start b) i = finish_start-IsStuck b i
  Step-IsStuck (creates_task b) i = create_task-IsStuck b i
  Step-IsStuck (cancels_task b) i = cancel_task-IsStuck b i
  Step-IsStuck (pumps event b) i = pump-IsStuck event b i
  Step-IsStuck (ends_task b) i = task_done-IsStuck b i
  Step-IsStuck (releases_slot b) i = release_slot-IsStuck b i
  Step-IsStuck (reads loop_gone b) i = read-IsStuck loop_gone b i
  Step-IsStuck (closes b) i = close-IsStuck b i
  Step-IsStuck (leaves b) i = leave-IsStuck b i
  Step-IsStuck (abandons b) i = abandon-IsStuck b i

  Run-IsStuck : {b c : Bridge A} → Run b c → IsStuck b → IsStuck c
  Run-IsStuck (here b) i = i
  Run-IsStuck (onward r s) i = Step-IsStuck s (Run-IsStuck r i)

  -- When a fresh stream that is not cancelled starts, its lock is free and its loop is gone, then
  -- the consumer waits to finish the start for ever: it holds the lock that `_finish` wants, and
  -- no step of any thread, its own included, gets it out or frees the lock.
  pub gone_loop_deadlocks :
      (b c : Bridge A)
      → b.state ≡ fresh
      → b.cancel_requested ≡ false
      → b.lock_held ≡ false
      → Run (start true b) c
      → (c.consumer ≡ finishing) × (c.lock_held ≡ true)
  unfolding start
  gone_loop_deadlocks b c f e l r = Run-IsStuck r starts_stuck
    where
      fresh_case : (t : Bool) → t ≡ false → IsStuck (start_fresh t true b)
      fresh_case false e = (refl, refl)
      fresh_case true e = absurd (cc e)

      in_state : (s : StreamState) → s ≡ fresh → IsStuck (start_in s true b)
      in_state fresh e' = fresh_case b.cancel_requested e
      in_state running e' = absurd (cc e')
      in_state deep_agent_cli.Bridge.State.finished e' = absurd (cc e')

      starts_stuck : IsStuck (start true b)
      starts_stuck =
          subst (λ t. IsStuck (if t then b else start_in b.state true b)) (sym l)
            (in_state b.state f)
