-- ===== src/Bridge/State.antt =====
-- agent/llm_stream.py: CancellableStreamBridge. The chunks and the texts of errors come from the model
-- client; the loop may be gone when a call is handed to it, which is an argument.
use deep_agent_cli.Prelude.{
  List, Bool, ℕ, zero, suc, String, true, false, not, ◌&&◌, ◌||◌, Option, none, some, [], ◌∷◌, ◌++◌,
  ltb, nat_comparable, text_comparable, if◌then◌else◌,
}

-- An item of the queue between the loop and the consumer.
pub data Item (A : Type 0) : Type 0 where
  chunk : A → Item A
  done cancelled wake : Item A
  error : String → Item A

pub data StreamState : Type 0 where
  fresh running finished : StreamState

-- How `_pump` ends.
pub data Outcome : Type 0 where
  all_given was_cancelled : Outcome
  had_error : String → Outcome

abbrev pub item_of : {A : Type 0} → Outcome → Item A
item_of all_given = done
item_of was_cancelled = cancelled
item_of (had_error e) = error e

-- The task on the loop: its creation is scheduled, it has not run, it waits for an item, it waits for
-- a slot, it closes the iterator with an outcome in hand, and it has ended.
pub data Task (A : Type 0) : Type 0 where
  no_task scheduled unstarted asking : Task A
  holding : A → Task A
  closing : Outcome → Task A
  ended : Task A

-- Why the consumer leaves its loop, and how the iteration ends.
pub data Reason : Type 0 where
  exhausted stopped : Reason
  failed : String → Reason

pub data Result : Type 0 where
  returned abandoned : Result
  raised : String → Result
  stream_cancelled : Bool → Result

-- A consumer is `finishing` in `_start`, where it handles the error of a loop that is gone and is about
-- to call `_finish`.
pub data Consumer : Type 0 where
  not_started reading finishing : Consumer
  leaving : Reason → Consumer
  over : Result → Consumer

-- `waking` says that a call of `cancel` has set its flag and not woken the consumer yet; `releases`
-- counts the calls of `slots.release` that the loop has not made. `lock_held` says whether a thread
-- is inside of a section that holds the lock between two steps. `produced` is what the iterator
-- gave, `delivered` what the consumer got.
pub record Bridge (A : Type 0) : Type 0 where
  pub max_buffered : ℕ
  pub queue : List (Item A)
  pub state : StreamState
  pub cancel_requested : Bool
  pub waking : Bool
  pub cancel_scheduled : Bool
  pub task_cancelled : Bool
  pub task : Task A
  pub slots : ℕ
  pub releases : ℕ
  pub closed : Bool
  pub lock_held : Bool
  pub consumer : Consumer
  pub produced : List A
  pub delivered : List A

abbrev pub is_running : StreamState → Bool
is_running running = true
is_running _ = false

-- What happens to `_pump`: it begins, the iterator gives an item, there is a slot for the item, the
-- iterator is exhausted or fails, the cancellation reaches the task.
pub data PumpEvent (A : Type 0) : Type 0 where
  begins : PumpEvent A
  gives : A → PumpEvent A
  gets_slot ends is_cancelled : PumpEvent A
  fails : String → PumpEvent A
  puts_outcome : PumpEvent A

abbrev pub result_of : Reason → Bool → Result
result_of exhausted closed = returned
result_of stopped closed = stream_cancelled closed
result_of (failed e) closed = raised e

module _ {A : Type 0} where
  abbrev pub fresh_bridge : ℕ → Bridge A
  fresh_bridge max_buffered = record {
    max_buffered = max_buffered;
    queue = [];
    state = fresh;
    cancel_requested = false;
    waking = false;
    cancel_scheduled = false;
    task_cancelled = false;
    task = no_task;
    slots = 0;
    releases = 0;
    closed = false;
    lock_held = false;
    consumer = not_started;
    produced = [];
    delivered = [];
  }

  -- None is the refusal of a buffer without room.
  abbrev pub make_bridge : ℕ → Option (Bridge A)
  make_bridge max_buffered = if ltb max_buffered 1 then none else some (fresh_bridge max_buffered)

  abbrev pub put : Item A → Bridge A → Bridge A
  put item b = record b { queue = b.queue ++ item ∷ [] }

  -- A section under the bridge's lock, which is not reentrant: while the lock is held, every thread
  -- that wants it waits, its holder included.
  abbrev pub with_lock : (Bridge A → Bridge A) → Bridge A → Bridge A
  with_lock section b = if b.lock_held then b else section b

  abbrev pub set_cancel : Bridge A → Bridge A
  set_cancel b =
      if b.cancel_requested then b else record b { cancel_requested = true; waking = true }

  -- `cancel` up to the end of its locked section.
  unfoldable pub request_cancel : Bridge A → Bridge A
  request_cancel b = with_lock set_cancel b

  abbrev pub wake_now : Bool → Bool → Bridge A → Bridge A
  wake_now false loop_gone b = b
  wake_now true loop_gone b = record b {
    queue = b.queue ++ wake ∷ [];
    waking = false;
    cancel_scheduled = b.cancel_scheduled || (is_running b.state && not loop_gone);
  }

  -- The rest of `cancel`.
  unfoldable pub wake_consumer : Bool → Bridge A → Bridge A
  wake_consumer loop_gone b = wake_now b.waking loop_gone b

  -- `_finish`, once it has the lock.
  abbrev pub finish : Bridge A → Bridge A
  finish b = record b { state = finished; closed = true }

  abbrev pub start_fresh : Bool → Bool → Bridge A → Bridge A
  start_fresh true loop_gone b = put cancelled (record (finish b) { consumer = reading })
  start_fresh false true b = record b { state = running; lock_held = true; consumer = finishing }
  start_fresh false false b = record b { state = running; task = scheduled; consumer = reading }

  abbrev pub start_in : StreamState → Bool → Bridge A → Bridge A
  start_in fresh loop_gone b = start_fresh b.cancel_requested loop_gone b
  start_in _ loop_gone b = b

  abbrev pub start_locked : Bool → Bridge A → Bridge A
  start_locked loop_gone b = start_in b.state loop_gone b

  -- `_start`, up to the handler of a loop that is gone. A bridge that is not fresh is refused.
  unfoldable pub start : Bool → Bridge A → Bridge A
  start loop_gone b = with_lock (start_locked loop_gone) b

  abbrev pub finish_gone : Bridge A → Bridge A
  finish_gone b = put (error "Event loop is closed") (record (finish b) { consumer = reading })

  abbrev pub finish_start_in : Consumer → Bridge A → Bridge A
  finish_start_in finishing b = with_lock finish_gone b
  finish_start_in _ b = b

  -- The handler in `_start`, whose `_finish` takes the lock.
  unfoldable pub finish_start : Bridge A → Bridge A
  finish_start b = finish_start_in b.consumer b

  abbrev pub refuse_task : Bridge A → Bridge A
  refuse_task b = record (put cancelled (finish b)) { task = ended }

  abbrev pub create_in : Task A → Bridge A → Bridge A
  create_in scheduled b =
      if b.cancel_requested
      then with_lock refuse_task b
      else record b { slots = b.max_buffered; task = unstarted }
  create_in _ b = b

  -- `_create_task`
  unfoldable pub create_task : Bridge A → Bridge A
  create_task b = create_in b.task b

  abbrev pub is_pending : Task A → Bool
  is_pending unstarted = true
  is_pending asking = true
  is_pending (holding x) = true
  is_pending (closing o) = true
  is_pending _ = false

  -- `_cancel_task`
  unfoldable pub cancel_task : Bridge A → Bridge A
  cancel_task b =
      if b.cancel_scheduled
      then record b {
        cancel_scheduled = false;
        task_cancelled = b.task_cancelled || is_pending b.task;
      }
      else b

  abbrev pub cancel_pump : Bool → Task A → Bridge A → Bridge A
  cancel_pump false t b = b
  cancel_pump true t b = record b { task = t; task_cancelled = false }

  abbrev pub take_slot : ℕ → A → Bridge A → Bridge A
  take_slot zero x b = b
  take_slot (suc n) x b = record b { slots = n; queue = b.queue ++ chunk x ∷ []; task = asking }

  abbrev pub pump_in : Task A → PumpEvent A → Bridge A → Bridge A
  pump_in unstarted begins b = record b { task = asking }
  pump_in unstarted is_cancelled b = cancel_pump b.task_cancelled ended b
  pump_in asking (gives x) b = record b { task = holding x; produced = b.produced ++ x ∷ [] }
  pump_in asking ends b = record b { task = closing all_given }
  pump_in asking (fails e) b = record b { task = closing (had_error e) }
  pump_in asking is_cancelled b = cancel_pump b.task_cancelled (closing was_cancelled) b
  pump_in (holding x) gets_slot b = take_slot b.slots x b
  pump_in (holding x) is_cancelled b = cancel_pump b.task_cancelled (closing was_cancelled) b
  pump_in (closing o) puts_outcome b = record b { queue = b.queue ++ item_of o ∷ []; task = ended }
  pump_in _ _ b = b

  -- `_pump`. The task that was cancelled before it began ends without an outcome.
  unfoldable pub pump : PumpEvent A → Bridge A → Bridge A
  pump event b = pump_in b.task event b

  abbrev pub finish_in : Task A → Bridge A → Bridge A
  finish_in ended b = with_lock finish b
  finish_in _ b = b

  -- The callback of the task that has ended.
  unfoldable pub task_done : Bridge A → Bridge A
  task_done b = finish_in b.task b

  abbrev pub release_in : ℕ → Bridge A → Bridge A
  release_in zero b = b
  release_in (suc n) b = record b { releases = n; slots = suc b.slots }

  -- The loop makes a call of `slots.release`.
  unfoldable pub release_slot : Bridge A → Bridge A
  release_slot b = release_in b.releases b

  -- One item in `iter_chunks`.
  abbrev pub read_item : Bool → Bool → Item A → Bridge A → Bridge A
  read_item cancelling loop_gone done b = record b { consumer = leaving exhausted }
  read_item false loop_gone (error e) b = record b { consumer = leaving (failed e) }
  read_item false loop_gone (chunk x) b = record b {
    releases = if loop_gone then b.releases else suc b.releases;
    delivered = b.delivered ++ x ∷ [];
  }
  read_item _ loop_gone _ b = record b { consumer = leaving stopped }

  abbrev pub read_in : Consumer → List (Item A) → Bool → Bridge A → Bridge A
  read_in reading (item ∷ queue) loop_gone b =
      read_item b.cancel_requested loop_gone item (record b { queue = queue })
  read_in _ _ loop_gone b = b

  unfoldable pub read : Bool → Bridge A → Bridge A
  read loop_gone b = read_in b.consumer b.queue loop_gone b

  -- `close` up to its wait.
  unfoldable pub close : Bridge A → Bridge A
  unfolding request_cancel
  close b = if is_running b.state && not b.closed then request_cancel b else b

  abbrev pub leave_in : Consumer → Bridge A → Bridge A
  leave_in (leaving why) b = close (record b { consumer = over (result_of why b.closed) })
  leave_in _ b = b

  -- The consumer has waited for the request to be closed, in vain or not, and leaves.
  unfoldable pub leave : Bridge A → Bridge A
  unfolding close
  leave b = leave_in b.consumer b

  abbrev pub abandon_in : Consumer → Bridge A → Bridge A
  abandon_in reading b = close (record b { consumer = over abandoned })
  abandon_in _ b = b

  -- The generator is closed between two chunks.
  unfoldable pub abandon : Bridge A → Bridge A
  unfolding close
  abandon b = abandon_in b.consumer b
