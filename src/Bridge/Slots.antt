-- ===== src/Bridge/Slots.antt =====
-- How many chunks wait for the consumer.
use deep_agent_cli.Prelude.{
  Bool, ℕ, suc, ◌+◌, ◌≤◌, ◌≡◌, refl, ◌∙◌, true, false, not, ◌&&◌, List, [], ◌∷◌, ◌++◌, arith,
  nat_comparable, text_comparable, if◌then◌else◌,
}
use deep_agent_cli.Bridge.State.{
  with_lock, set_cancel, fresh, StreamState, cancelled, done, wake, error, scheduled, wake_now,
  is_running, no_task, chunk, wake_consumer, close, request_cancel, Bridge, Task, Item,
}

abbrev pub is_fresh : StreamState → Bool
is_fresh fresh = true
is_fresh _ = false

pub not_begun_yet : false ≡ true → ⊥
not_begun_yet h = cc h

module _ {A : Type 0} where
  -- The chunks of the queue.
  unfoldable pub buffered : List (Item A) → ℕ
  buffered [] = 0
  buffered (chunk x ∷ queue) = suc (buffered queue)
  buffered (_ ∷ queue) = buffered queue

  abbrev pub not_created : Task A → Bool
  not_created no_task = true
  not_created scheduled = true
  not_created _ = false

  -- Every chunk in the queue has taken a slot, which comes back when it is read; before the task
  -- there is neither.
  pub record IsBounded (b : Bridge A) : Type 0 where
    pub slots_taken : buffered b.queue + b.slots + b.releases ≤ b.max_buffered
    pub none_early :
        not_created b.task ≡ true → (buffered b.queue ≡ 0) × (b.slots ≡ 0) × (b.releases ≡ 0)
    pub not_begun : is_fresh b.state ≡ true → b.task ≡ no_task

  -- A step on from a task and a state to a task and a state that are not earlier.
  abbrev pub Later : Task A → Task A → StreamState → StreamState → Type 0
  Later t t' s s' =
      (not_created t' ≡ true → not_created t ≡ true)
      × (is_fresh s' ≡ true → (is_fresh s ≡ true) × (t ≡ no_task → t' ≡ no_task))

  pub unmoved : (t : Task A) (s : StreamState) → Later t t s s
  unmoved t s = (λ e. e, λ e. (e, λ n. n))

  abbrev pub is_chunk : Item A → ℕ
  is_chunk (chunk x) = 1
  is_chunk _ = 0

  pub buffered-append :
      (q : List (Item A)) (item : Item A) → buffered (q ++ item ∷ []) ≡ buffered q + is_chunk item
  unfolding buffered
  buffered-append [] (chunk x) = refl
  buffered-append [] done = refl
  buffered-append [] cancelled = refl
  buffered-append [] wake = refl
  buffered-append [] (error e) = refl
  buffered-append (chunk x ∷ q) item = omega (arith, buffered-append q item)
  buffered-append (done ∷ q) item = buffered-append q item
  buffered-append (cancelled ∷ q) item = buffered-append q item
  buffered-append (wake ∷ q) item = buffered-append q item
  buffered-append (error e ∷ q) item = buffered-append q item

  pub buffered-other :
      (q : List (Item A)) (item : Item A)
      → is_chunk item ≡ 0
      → buffered (q ++ item ∷ []) ≡ buffered q
  buffered-other q item e = omega (arith, buffered-append q item, e)

  pub buffered-tail :
      (q : List (Item A)) (item : Item A) → buffered (item ∷ q) ≡ is_chunk item + buffered q
  unfolding buffered
  buffered-tail q (chunk x) = omega arith
  buffered-tail q done = omega arith
  buffered-tail q cancelled = omega arith
  buffered-tail q wake = omega arith
  buffered-tail q (error e) = omega arith

  -- A change that moves no slot and no chunk.
  pub keeps :
      (b c : Bridge A)
      → IsBounded b
      → buffered c.queue ≡ buffered b.queue
      → c.slots ≡ b.slots
      → c.releases ≡ b.releases
      → c.max_buffered ≡ b.max_buffered
      → Later b.task c.task b.state c.state
      → IsBounded c
  keeps b c i q s r m t = record {
    slots_taken = omega (arith, i.slots_taken, q, s, r, m);
    none_early = λ e. let n = i.none_early (t.0 e) in (q ∙ n.0, s ∙ n.1, r ∙ n.2);
    not_begun = λ e. let f = t.1 e in f.1 (i.not_begun f.0);
  }

  pub locked-IsBounded :
      (section : Bridge A → Bridge A) (b : Bridge A)
      → IsBounded b
      → IsBounded (section b)
      → IsBounded (with_lock section b)
  locked-IsBounded section b i s = either b.lock_held
    where
      either : (t : Bool) → IsBounded (if t then b else section b)
      either true = i
      either false = s

  pub request_cancel-IsBounded : (b : Bridge A) → IsBounded b → IsBounded (request_cancel b)
  unfolding request_cancel
  request_cancel-IsBounded b i = locked-IsBounded set_cancel b i (either b.cancel_requested)
    where
      either :
          (t : Bool)
          → IsBounded (if t then b else record b { cancel_requested = true; waking = true })
      either true = i
      either false = keeps b _ i refl refl refl refl (unmoved b.task b.state)

  pub close-IsBounded : (b : Bridge A) → IsBounded b → IsBounded (close b)
  unfolding close
  close-IsBounded b i = either (is_running b.state && not b.closed)
    where
      either : (t : Bool) → IsBounded (if t then request_cancel b else b)
      either true = request_cancel-IsBounded b i
      either false = i

  pub wake_consumer-IsBounded :
      (loop_gone : Bool) (b : Bridge A) → IsBounded b → IsBounded (wake_consumer loop_gone b)
  unfolding wake_consumer
  wake_consumer-IsBounded loop_gone b i = in_case b.waking
    where
      in_case : (w : Bool) → IsBounded (wake_now w loop_gone b)
      in_case false = i
      in_case true =
          keeps b _ i (buffered-other b.queue wake refl) refl refl refl (unmoved b.task b.state)
