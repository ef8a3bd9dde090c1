-- ===== src/Bridge/Steps.antt =====
-- What happens to a bridge, step by step: every thread's part of a method is one step.
use deep_agent_cli.Prelude.{Bool, ℕ, nat_comparable, text_comparable}
use deep_agent_cli.Bridge.State.{
  finish_start, abandon, leave, close, read, release_slot, task_done, pump, PumpEvent, cancel_task,
  create_task, start, wake_consumer, fresh_bridge, request_cancel, Bridge,
}

module _ {A : Type 0} where
  pub data Step : Bridge A → Bridge A → Type 0 where
    requests_cancel : (b : Bridge A) → Step b (request_cancel b)
    wakes_consumer : (loop_gone : Bool) (b : Bridge A) → Step b (wake_consumer loop_gone b)
    starts : (loop_gone : Bool) (b : Bridge A) → Step b (start loop_gone b)
    finishes_start : (b : Bridge A) → Step b (finish_start b)
    creates_task : (b : Bridge A) → Step b (create_task b)
    cancels_task : (b : Bridge A) → Step b (cancel_task b)
    pumps : (event : PumpEvent A) (b : Bridge A) → Step b (pump event b)
    ends_task : (b : Bridge A) → Step b (task_done b)
    releases_slot : (b : Bridge A) → Step b (release_slot b)
    reads : (loop_gone : Bool) (b : Bridge A) → Step b (read loop_gone b)
    closes : (b : Bridge A) → Step b (close b)
    leaves : (b : Bridge A) → Step b (leave b)
    abandons : (b : Bridge A) → Step b (abandon b)

  pub data Reach (max_buffered : ℕ) : Bridge A → Type 0 where
    made : Reach max_buffered (fresh_bridge max_buffered)
    next : {b c : Bridge A} → Reach max_buffered b → Step b c → Reach max_buffered c

  -- Steps on from any state.
  pub data Run : Bridge A → Bridge A → Type 0 where
    here : (b : Bridge A) → Run b b
    onward : {b c d : Bridge A} → Run b c → Step c d → Run b d
