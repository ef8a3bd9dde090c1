-- ===== src/Examples/Bridge.antt =====
-- Runs of the bridge of a model's stream.
use deep_agent_cli.Prelude.{
  ℕ, ◌+◌, ◌≤◌, ◌≡◌, refl, true, false, [], ◌∷◌, nat_comparable, text_comparable,
}
use deep_agent_cli.Bridge.State.{
  finish_start, finishing, wake_consumer, start, request_cancel, release_slot, leave, read,
  create_task, pump, fresh_bridge, Bridge, begins, gives, gets_slot, ends, puts_outcome, ended,
}
use deep_agent_cli.Bridge.Steps.{
  finishes_start, Reach, made, next, here, onward, starts, creates_task, pumps, reads,
  releases_slot, leaves, requests_cancel,
}
use deep_agent_cli.Bridge.Bounded.{buffered_bound}
use deep_agent_cli.Bridge.Complete.{returned_complete}
use deep_agent_cli.Bridge.Awake.{is_leaving, cancelled_reader_leaves}
use deep_agent_cli.Bridge.Deadlock.{gone_loop_deadlocks}
use deep_agent_cli.Bridge.Slots.{buffered}

abbrev empty_bridge : Bridge ℕ
empty_bridge = fresh_bridge 1

abbrev begun : Bridge ℕ
begun = pump begins (create_task (start false empty_bridge))

abbrev one_put : Bridge ℕ
one_put = pump gets_slot (pump (gives 7) begun)

-- The second chunk waits for a slot.
abbrev two_given : Bridge ℕ
two_given = pump gets_slot (pump (gives 8) one_put)

abbrev two_given-Reach : Reach 1 two_given
two_given-Reach =
    next
      (next
        (next
          (next
            (next
              (next (next made (starts false empty_bridge))
                (creates_task (start false empty_bridge)))
              (pumps begins (create_task (start false empty_bridge))))
            (pumps (gives 7) begun))
          (pumps gets_slot (pump (gives 7) begun)))
        (pumps (gives 8) one_put))
      (pumps gets_slot (pump (gives 8) one_put))

abbrev one_read : Bridge ℕ
one_read = pump gets_slot (release_slot (read false two_given))

abbrev one_read-Reach : Reach 1 one_read
one_read-Reach =
    next
      (next (next two_given-Reach (reads false two_given)) (releases_slot (read false two_given)))
      (pumps gets_slot (release_slot (read false two_given)))

buffered_bound_example :
    (buffered one_read.queue + one_read.slots + one_read.releases ≤ one_read.max_buffered)
    × (buffered one_read.queue ≤ one_read.max_buffered)
buffered_bound_example = buffered_bound 1 one_read one_read-Reach

-- The second chunk is read, and the stream ends.
abbrev both_read : Bridge ℕ
both_read = read false one_read

abbrev exhausted_pump : Bridge ℕ
exhausted_pump = pump puts_outcome (pump ends both_read)

abbrev all_read : Bridge ℕ
all_read = leave (read false exhausted_pump)

abbrev all_read-Reach : Reach 1 all_read
all_read-Reach =
    next
      (next
        (next (next (next one_read-Reach (reads false one_read)) (pumps ends both_read))
          (pumps puts_outcome (pump ends both_read)))
        (reads false exhausted_pump))
      (leaves (read false exhausted_pump))

chunks_test : all_read.delivered ≡ 7 ∷ 8 ∷ []
unfolding start create_task pump read release_slot leave
chunks_test = refl

returned_complete_example : (all_read.delivered ≡ all_read.produced) × (all_read.task ≡ ended)
unfolding start create_task pump read release_slot leave
returned_complete_example = returned_complete 1 all_read all_read-Reach refl

abbrev interrupted : Bridge ℕ
interrupted = request_cancel one_read

cancelled_reader_leaves_example :
    let c = read false (wake_consumer false interrupted) in
    (is_leaving c.consumer ≡ true) × (c.delivered ≡ interrupted.delivered)
unfolding start create_task pump read release_slot request_cancel
cancelled_reader_leaves_example =
    cancelled_reader_leaves 1 interrupted false (next one_read-Reach (requests_cancel one_read))
      refl refl

abbrev stuck : Bridge ℕ
stuck = request_cancel (finish_start (start true empty_bridge))

gone_loop_deadlocks_example : (stuck.consumer ≡ finishing) × (stuck.lock_held ≡ true)
gone_loop_deadlocks_example = gone_loop_deadlocks empty_bridge stuck refl refl refl (
    onward (onward (here (start true empty_bridge)) (finishes_start (start true empty_bridge)))
      (requests_cancel (finish_start (start true empty_bridge))))
