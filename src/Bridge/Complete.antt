-- ===== src/Bridge/Complete.antt =====
-- A consumer that comes to the end of the stream has all of it, in order.
use deep_agent_cli.Prelude.{
  subst, Bool, ℕ, zero, suc, ◌≡◌, refl, sym, ap, ◌∙◌, true, false, not, ◌&&◌, ◌||◌, List, [], ◌∷◌,
  ◌++◌, nat_comparable, text_comparable, if◌then◌else◌,
}
use deep_agent_cli.Bridge.Slots
use deep_agent_cli.Bridge.Slots.{IsBounded}
use deep_agent_cli.Bridge.Bounded.{Reach-IsBounded}
use deep_agent_cli.Bridge.State.{
  with_lock, set_cancel, start_locked, finish_gone, finish_start_in, finish_start, refuse_task,
  finishing, leave_in, result_of, read_in, abandon_in, Reason, read_item, abandon, leave, read,
  exhausted, stopped, failed, returned, raised, stream_cancelled,
}
use mathlib.Core.List.{append-nil, append_assoc}
use deep_agent_cli.Bridge.State.{
  fails, gives, pump_in, create_in, running, unstarted, start_in, take_slot, all_given, finish,
  release_in, finish_in, cancel_pump, item_of, is_pending, put, start_fresh, wake_now, is_running,
  PumpEvent, asking, Outcome, scheduled, release_slot, task_done, pump, cancel_task, create_task,
  start, no_task, wake_consumer, close, request_cancel, begins, ends, gets_slot, is_cancelled,
  puts_outcome, abandoned, returned, stopped, exhausted, wake, stream_cancelled, reading, cancelled,
  raised, not_started, was_cancelled, error, failed, over, done, had_error, ended, leaving, chunk,
  closing, Item, holding, fresh, Bridge, Consumer, Task, StreamState,
}
use deep_agent_cli.Bridge.Ordered.{
  Told-carried, Held, stops, puts, Told-kept, Left-carried, turns, Left, Told, IsInOrder, Follows,
  is_fresh, Carries,
}
use deep_agent_cli.Bridge.Steps.{
  finishes_start, abandons, leaves, closes, reads, releases_slot, ends_task, pumps, cancels_task,
  creates_task, starts, made, wakes_consumer, next, requests_cancel, Reach, Step,
}

true-false : true ≡ false → ⊥
true-false h = cc h

module _ {A : Type 0} where
  locked-IsInOrder :
      (section : Bridge A → Bridge A) (b : Bridge A)
      → IsInOrder b
      → IsInOrder (section b)
      → IsInOrder (with_lock section b)
  locked-IsInOrder section b i s = either b.lock_held
    where
      either : (t : Bool) → IsInOrder (if t then b else section b)
      either true = i
      either false = s

  request_cancel-IsInOrder : (b : Bridge A) → IsInOrder b → IsInOrder (request_cancel b)
  unfolding request_cancel
  request_cancel-IsInOrder b i = locked-IsInOrder set_cancel b i (either b.cancel_requested)
    where
      either :
          (t : Bool)
          → IsInOrder (if t then b else record b { cancel_requested = true; waking = true })
      either true = i
      either false = i

  close-IsInOrder : (b : Bridge A) → IsInOrder b → IsInOrder (close b)
  unfolding close
  close-IsInOrder b i = either (is_running b.state && not b.closed)
    where
      either : (t : Bool) → IsInOrder (if t then request_cancel b else b)
      either true = request_cancel-IsInOrder b i
      either false = i

  wake_consumer-IsInOrder :
      (loop_gone : Bool) (b : Bridge A) → IsInOrder b → IsInOrder (wake_consumer loop_gone b)
  unfolding wake_consumer Follows
  wake_consumer-IsInOrder loop_gone b i = in_case b.waking
    where
      in_case : (w : Bool) → IsInOrder (wake_now w loop_gone b)
      in_case false = i
      in_case true =
          Told-kept b.consumer b.state b.state b.task b.task b.queue (b.queue ++ wake ∷ [])
            b.produced b.delivered (λ e. e) (stops b.task b.queue wake (λ rest. tt)) i

  -- A bridge that is fresh has no task, so the consumer has everything before it.
  fresh-Left :
      (c : Consumer) (s : StreamState) (t : Task A) (q : List (Item A)) (p d : List A)
      → s ≡ fresh
      → t ≡ no_task
      → Told c s t q p d
      → Left t q p d
  fresh-Left not_started s t q p d e n h = h
  fresh-Left reading s t q p d e n h = h.1
  fresh-Left finishing s t q p d e n h = h.1
  fresh-Left (leaving exhausted) s t q p d e n h = absurd (cc (n, h.0))
  fresh-Left (leaving stopped) s t q p d e n h = absurd (true-false (sym (ap is_fresh e) ∙ h))
  fresh-Left (leaving (failed x)) s t q p d e n h = absurd (true-false (sym (ap is_fresh e) ∙ h))
  fresh-Left (over returned) s t q p d e n h = absurd (cc (n, h.0))
  fresh-Left (over abandoned) s t q p d e n h = absurd (true-false (sym (ap is_fresh e) ∙ h))
  fresh-Left (over (raised x)) s t q p d e n h = absurd (true-false (sym (ap is_fresh e) ∙ h))
  fresh-Left (over (stream_cancelled x)) s t q p d e n h =
      absurd (true-false (sym (ap is_fresh e) ∙ h))

  -- The task is known.
  from :
      (t u t' : Task A) (q q' : List (Item A)) (new : List A)
      → t ≡ u
      → Carries u t' q q' new
      → Carries t t' q q' new
  from t u t' q q' new e k = subst (λ z. Carries z t' q q' new) (sym e) k

  schedules : (q : List (Item A)) → Carries no_task scheduled q q []
  schedules q = turns no_task scheduled q [] (λ e. absurd (cc e)) (λ rest h. append-nil rest ∙ h)

  Left-kept :
      (t t' : Task A) (q q' : List (Item A)) (p d : List A)
      → Carries t t' q q' []
      → Left t q p d
      → Left t' q' p d
  Left-kept t t' q q' p d k h =
      subst (λ l. Left t' q' l d) (append-nil p) (Left-carried t t' q q' [] p d k h)

  start-IsInOrder :
      (loop_gone : Bool) (b : Bridge A)
      → (b.state ≡ fresh → b.task ≡ no_task)
      → IsInOrder b
      → IsInOrder (start loop_gone b)
  unfolding start Follows
  start-IsInOrder loop_gone b n i =
      locked-IsInOrder (start_locked loop_gone) b i (in_state b.state refl)
    where
      fresh_case :
          (c gone : Bool)
          → b.task ≡ no_task
          → Left b.task b.queue b.produced b.delivered
          → IsInOrder (start_fresh c gone b)
      fresh_case true gone e h = (
        refl,
        Left-kept b.task b.task b.queue (b.queue ++ cancelled ∷ []) b.produced b.delivered
            (stops b.task b.queue cancelled (λ rest. tt)) h,
      )
      fresh_case false true e h = (refl, h)
      fresh_case false false e h = (
        refl,
        Left-kept b.task scheduled b.queue b.queue b.produced b.delivered
            (from b.task no_task scheduled b.queue b.queue [] e (schedules b.queue)) h,
      )

      in_state : (s : StreamState) → b.state ≡ s → IsInOrder (start_in s loop_gone b)
      in_state fresh e =
          fresh_case b.cancel_requested loop_gone (n e)
            (fresh-Left b.consumer b.state b.task b.queue b.produced b.delivered e (n e) i)
      in_state running e = i
      in_state deep_agent_cli.Bridge.State.finished e = i

  finish_start-IsInOrder : (b : Bridge A) → IsInOrder b → IsInOrder (finish_start b)
  unfolding finish_start Follows
  finish_start-IsInOrder b i = in_consumer b.consumer refl
    where
      in_consumer : (c : Consumer) → b.consumer ≡ c → IsInOrder (finish_start_in c b)
      in_consumer finishing k =
          let h = subst (λ z. Told z b.state b.task b.queue b.produced b.delivered) k i in
          locked-IsInOrder finish_gone b i (
            refl,
            Left-kept b.task b.task b.queue (b.queue ++ error "Event loop is closed" ∷ [])
                b.produced b.delivered
                (stops b.task b.queue (error "Event loop is closed") (λ rest. tt)) h.1,
          )
      in_consumer _ k = i

  -- A step of the task that gives nothing.
  task_step :
      (b : Bridge A) (s' : StreamState) (t t' : Task A) (q' : List (Item A))
      → b.task ≡ t
      → (is_fresh b.state ≡ false → is_fresh s' ≡ false)
      → Carries t t' b.queue q' []
      → IsInOrder b
      → Told b.consumer s' t' q' b.produced b.delivered
  task_step b s' t t' q' e m k i =
      Told-kept b.consumer b.state s' b.task t' b.queue q' b.produced b.delivered m
        (from b.task t t' b.queue q' [] e k) i

  create_task-IsInOrder : (b : Bridge A) → IsInOrder b → IsInOrder (create_task b)
  unfolding create_task Follows
  create_task-IsInOrder b i = in_task b.task refl
    where
      either :
          (c : Bool)
          → b.task ≡ scheduled
          → IsInOrder (
              if c
              then with_lock refuse_task b
              else record b { slots = b.max_buffered; task = unstarted })
      either true e = locked-IsInOrder refuse_task b i (
          task_step b deep_agent_cli.Bridge.State.finished scheduled ended
            (b.queue ++ cancelled ∷ []) e (λ x. refl)
            (puts scheduled ended b.queue (cancelled ∷ []) [] (λ x. absurd (cc x)) (λ rest h. tt))
            i)
      either false e =
          task_step b b.state scheduled unstarted b.queue e (λ x. x)
            (turns scheduled unstarted b.queue [] (λ x. absurd (cc x))
              (λ rest h. append-nil rest ∙ h))
            i

      in_task : (t : Task A) → b.task ≡ t → IsInOrder (create_in t b)
      in_task scheduled e = either b.cancel_requested e
      in_task _ e = i

  cancel_task-IsInOrder : (b : Bridge A) → IsInOrder b → IsInOrder (cancel_task b)
  unfolding cancel_task
  cancel_task-IsInOrder b i = either b.cancel_scheduled
    where
      either :
          (c : Bool)
          → IsInOrder (
              if c
              then record b {
                cancel_scheduled = false;
                task_cancelled = b.task_cancelled || is_pending b.task;
              }
              else b)
      either true = i
      either false = i

  ends_with :
      (o : Outcome) (q : List (Item A)) → Carries (closing o) ended q (q ++ item_of o ∷ []) []
  unfolding Follows
  ends_with all_given q =
      puts (closing all_given) ended q (done ∷ []) [] (λ x. absurd (cc x))
        (λ rest h. (refl, append-nil rest ∙ h))
  ends_with was_cancelled q =
      puts (closing was_cancelled) ended q (cancelled ∷ []) [] (λ x. absurd (cc x)) (λ rest h. tt)
  ends_with (had_error e) q =
      puts (closing (had_error e)) ended q (error e ∷ []) [] (λ x. absurd (cc x)) (λ rest h. tt)

  put_chunk : (x : A) (q : List (Item A)) → Carries (holding x) asking q (q ++ chunk x ∷ []) []
  unfolding Follows
  put_chunk x q =
      puts (holding x) asking q (chunk x ∷ []) [] (λ e. absurd (cc e))
        (λ rest h. subst (λ l. Follows asking (chunk x ∷ []) (l ++ [])) (sym h) (refl, refl))

  pump-IsInOrder : (event : PumpEvent A) (b : Bridge A) → IsInOrder b → IsInOrder (pump event b)
  unfolding pump
  pump-IsInOrder event b i = in_task b.task event refl
    where
      goes :
          (t t' : Task A)
          → b.task ≡ t
          → Carries t t' b.queue b.queue []
          → Told b.consumer b.state t' b.queue b.produced b.delivered
      goes t t' e k = task_step b b.state t t' b.queue e (λ x. x) k i

      cancels :
          (t t' : Task A) (c : Bool)
          → b.task ≡ t
          → Carries t t' b.queue b.queue []
          → IsInOrder (cancel_pump c t' b)
      cancels t t' true e k = goes t t' e k
      cancels t t' false e k = i

      slot : (n : ℕ) (x : A) → b.task ≡ holding x → IsInOrder (take_slot n x b)
      slot zero x e = i
      slot (suc n) x e =
          task_step b b.state (holding x) asking (b.queue ++ chunk x ∷ []) e (λ y. y)
            (put_chunk x b.queue) i

      gives_item :
          (x : A)
          → b.task ≡ asking
          → Told b.consumer b.state (holding x) b.queue (b.produced ++ x ∷ []) b.delivered
      gives_item x e =
          Told-carried b.consumer b.state b.state b.task (holding x) b.queue b.queue (x ∷ [])
            b.produced b.delivered (λ y. y)
            (from b.task asking (holding x) b.queue b.queue (x ∷ []) e (
              turns asking (holding x) b.queue (x ∷ []) (λ y. absurd (cc y))
                (λ rest h. ap (λ l. l ++ x ∷ []) h)))
            i

      in_task : (t : Task A) (v : PumpEvent A) → b.task ≡ t → IsInOrder (pump_in t v b)
      in_task unstarted begins e =
          goes unstarted asking e
            (turns unstarted asking b.queue [] (λ x. absurd (cc x)) (λ rest h. append-nil rest ∙ h))
      in_task unstarted is_cancelled e =
          cancels unstarted ended b.task_cancelled e
            (turns unstarted ended b.queue [] (λ x. absurd (cc x)) (λ rest h. tt))
      in_task asking (gives x) e = gives_item x e
      in_task asking ends e = goes asking (closing all_given) e (
          turns asking (closing all_given) b.queue [] (λ x. absurd (cc x))
            (λ rest h. append-nil rest ∙ h))
      in_task asking (fails t) e =
          goes asking (closing (had_error t)) e
            (turns asking (closing (had_error t)) b.queue [] (λ x. absurd (cc x)) (λ rest h. tt))
      in_task asking is_cancelled e =
          cancels asking (closing was_cancelled) b.task_cancelled e
            (turns asking (closing was_cancelled) b.queue [] (λ x. absurd (cc x)) (λ rest h. tt))
      in_task (holding x) gets_slot e = slot b.slots x e
      in_task (holding x) is_cancelled e =
          cancels (holding x) (closing was_cancelled) b.task_cancelled e (
            turns (holding x) (closing was_cancelled) b.queue [] (λ y. absurd (cc y))
              (λ rest h. tt))
      in_task (closing o) puts_outcome e =
          task_step b b.state (closing o) ended (b.queue ++ item_of o ∷ []) e (λ x. x)
            (ends_with o b.queue) i
      in_task _ _ e = i

  task_done-IsInOrder : (b : Bridge A) → IsInOrder b → IsInOrder (task_done b)
  unfolding task_done
  task_done-IsInOrder b i = in_task b.task refl
    where
      in_task : (t : Task A) → b.task ≡ t → IsInOrder (finish_in t b)
      in_task ended e = locked-IsInOrder finish b i (
          task_step b deep_agent_cli.Bridge.State.finished b.task b.task b.queue refl (λ x. refl)
            (from b.task ended b.task b.queue b.queue [] e (
              turns ended b.task b.queue [] (λ x. (e, refl))
                (λ rest h. subst (λ z. Held z (rest ++ [])) (sym e) tt)))
            i)
      in_task _ e = i

  release_slot-IsInOrder : (b : Bridge A) → IsInOrder b → IsInOrder (release_slot b)
  unfolding release_slot
  release_slot-IsInOrder b i = counted b.releases
    where
      counted : (n : ℕ) → IsInOrder (release_in n b)
      counted zero = i
      counted (suc n) = i

  -- What reading the first item leaves.
  chunk_read :
      (x : A) (t : Task A) (q : List (Item A)) (p d rest : List A)
      → p ≡ d ++ rest
      → Follows t (chunk x ∷ q) rest
      → Left t q p (d ++ x ∷ [])
  unfolding Follows
  chunk_read x t q p d [] e f = absurd f
  chunk_read x t q p d (y ∷ rest) e f =
      (rest, e ∙ ap (λ z. d ++ z ∷ rest) (sym f.0) ∙ sym (append_assoc d (x ∷ []) rest), f.1)

  end_read :
      (t : Task A) (q : List (Item A)) (p d : List A)
      → Left t (done ∷ q) p d
      → (t ≡ ended) × (p ≡ d)
  unfolding Follows
  end_read t q p d left = (left.2.0, left.1 ∙ ap (λ l. d ++ l) left.2.1 ∙ append-nil d)

  read-IsInOrder : (loop_gone : Bool) (b : Bridge A) → IsInOrder b → IsInOrder (read loop_gone b)
  unfolding read Follows
  read-IsInOrder loop_gone b i = in_consumer b.consumer b.queue refl refl
    where
      in_item :
          (c : Bool) (item : Item A) (q : List (Item A))
          → b.consumer ≡ reading
          → (is_fresh b.state ≡ false) × Left b.task (item ∷ q) b.produced b.delivered
          → IsInOrder (read_item c loop_gone item (record b { queue = q }))
      in_item c done q k h = end_read b.task q b.produced b.delivered h.1
      in_item false (error t) q k h = h.0
      in_item true (error t) q k h = h.0
      in_item false (chunk x) q k h =
          subst (λ z. Told z b.state b.task q b.produced (b.delivered ++ x ∷ [])) (sym k)
            (h.0, chunk_read x b.task q b.produced b.delivered h.1.0 h.1.1 h.1.2)
      in_item true (chunk x) q k h = h.0
      in_item true cancelled q k h = h.0
      in_item false cancelled q k h = h.0
      in_item true wake q k h = h.0
      in_item false wake q k h = h.0

      in_consumer :
          (c : Consumer) (q : List (Item A))
          → b.consumer ≡ c
          → b.queue ≡ q
          → IsInOrder (read_in c q loop_gone b)
      in_consumer reading (item ∷ q) k e = in_item b.cancel_requested item q k (
          subst (λ l. (is_fresh b.state ≡ false) × Left b.task l b.produced b.delivered) e
            (subst (λ z. Told z b.state b.task b.queue b.produced b.delivered) k i))
      in_consumer _ _ k e = i

  leave-IsInOrder : (b : Bridge A) → IsInOrder b → IsInOrder (leave b)
  unfolding leave
  leave-IsInOrder b i = in_consumer b.consumer refl
    where
      result_told :
          (why : Reason) (closed : Bool)
          → Told (leaving why) b.state b.task b.queue b.produced b.delivered
          → Told (over (result_of why closed)) b.state b.task b.queue b.produced b.delivered
      result_told exhausted closed h = h
      result_told stopped closed h = h
      result_told (failed e) closed h = h

      in_consumer : (c : Consumer) → b.consumer ≡ c → IsInOrder (leave_in c b)
      in_consumer (leaving why) k =
          close-IsInOrder (record b { consumer = over (result_of why b.closed) })
            (result_told why b.closed
              (subst (λ z. Told z b.state b.task b.queue b.produced b.delivered) k i))
      in_consumer _ k = i

  abandon-IsInOrder : (b : Bridge A) → IsInOrder b → IsInOrder (abandon b)
  unfolding abandon
  abandon-IsInOrder b i = in_consumer b.consumer refl
    where
      in_consumer : (c : Consumer) → b.consumer ≡ c → IsInOrder (abandon_in c b)
      in_consumer reading k =
          close-IsInOrder (record b { consumer = over abandoned })
            (subst (λ z. Told z b.state b.task b.queue b.produced b.delivered) k i).0
      in_consumer _ k = i

  Step-IsInOrder : {b c : Bridge A} → Step b c → IsBounded b → IsInOrder b → IsInOrder c
  Step-IsInOrder (requests_cancel b) s i = request_cancel-IsInOrder b i
  Step-IsInOrder (wakes_consumer loop_gone b) s i = wake_consumer-IsInOrder loop_gone b i
  Step-IsInOrder (starts loop_gone b) s i =
      start-IsInOrder loop_gone b (λ e. s.not_begun (ap Slots.is_fresh e)) i
  Step-IsInOrder (finishes_start b) s i = finish_start-IsInOrder b i
  Step-IsInOrder (creates_task b) s i = create_task-IsInOrder b i
  Step-IsInOrder (cancels_task b) s i = cancel_task-IsInOrder b i
  Step-IsInOrder (pumps event b) s i = pump-IsInOrder event b i
  Step-IsInOrder (ends_task b) s i = task_done-IsInOrder b i
  Step-IsInOrder (releases_slot b) s i = release_slot-IsInOrder b i
  Step-IsInOrder (reads loop_gone b) s i = read-IsInOrder loop_gone b i
  Step-IsInOrder (closes b) s i = close-IsInOrder b i
  Step-IsInOrder (leaves b) s i = leave-IsInOrder b i
  Step-IsInOrder (abandons b) s i = abandon-IsInOrder b i

  Reach-IsInOrder : (n : ℕ) {b : Bridge A} → Reach n b → IsInOrder b
  unfolding Follows
  Reach-IsInOrder n made = ([], refl, refl)
  Reach-IsInOrder n (next r s) = Step-IsInOrder s (Reach-IsBounded n r) (Reach-IsInOrder n r)

  -- A consumer whose iteration has ended normally has got every chunk that the model's iterator gave,
  -- in its order, and the task has ended, so that none is given later. That is so in every state
  -- that is reached, whoever cancels whenever.
  pub returned_complete :
      (n : ℕ) (b : Bridge A)
      → Reach n b
      → b.consumer ≡ over returned
      → (b.delivered ≡ b.produced) × (b.task ≡ ended)
  returned_complete n b r e =
      let h =
        subst (λ z. Told z b.state b.task b.queue b.produced b.delivered) e (Reach-IsInOrder n r) in
      (sym h.1, h.0)
