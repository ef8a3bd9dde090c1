-- ===== src/Control/Messages.antt =====
-- RunController: the steering and follow-up queues. `id` is the fresh identifier of a message.
use deep_agent_cli.Prelude.{
  ℕ, suc, String, Bool, false, ◌||◌, Option, none, some, List, [], ◌∷◌, ◌++◌, map, ltb, length,
  if◌then◌else◌,
}
use deep_agent_cli.Control.State.{
  Controller, QueuedMessage, Mode, steer, follow_up, steering_queued, steering_applied, emit,
  cancel_requested,
}

abbrev pub message : String → Mode → ℕ → ℕ → QueuedMessage
message text mode order id = record { text = text; mode = mode; order = order; id = id }

unfoldable pub steer_message : String → ℕ → Controller → QueuedMessage × Controller
unfolding emit
steer_message text id c =
    let m = message text steer c.queue_order id in
    (
      m,
      emit (steering_queued text steer id)
          (record c { steering = c.steering ++ m ∷ []; queue_order = suc c.queue_order }),
    )

unfoldable pub follow_up_message : String → ℕ → Controller → QueuedMessage × Controller
unfolding emit
follow_up_message text id c =
    let m = message text follow_up c.queue_order id in
    (
      m,
      emit (steering_queued text follow_up id)
          (record c { follow_ups = c.follow_ups ++ m ∷ []; queue_order = suc c.queue_order }),
    )

-- A follow-up that was queued before the message goes first.
abbrev pub is_behind : List QueuedMessage → QueuedMessage → Bool
is_behind [] m = false
is_behind (f ∷ follow_ups) m = ltb f.order m.order

abbrev pub pop_from : List QueuedMessage → Controller → Option String × Controller
pop_from [] c = (none, c)
pop_from (m ∷ rest) c =
    if is_behind c.follow_ups m
    then (none, c)
    else (some m.text, emit (steering_applied m.text m.id) (record c { steering = rest }))

unfoldable pub pop_steering : Controller → Option String × Controller
unfolding emit cancel_requested
pop_steering c = if c.defer_steering || cancel_requested c then (none, c) else pop_from c.steering c

abbrev pub pop_follow_from : List QueuedMessage → Controller → Option String × Controller
pop_follow_from [] c = (none, c)
pop_follow_from (m ∷ rest) c =
    (some m.text, emit (steering_applied m.text m.id) (record c { follow_ups = rest }))

unfoldable pub pop_follow_up : Controller → Option String × Controller
unfolding emit
pop_follow_up c = pop_follow_from c.follow_ups c

abbrev pub pending_steering_count : Controller → ℕ
pending_steering_count c = length c.steering

abbrev pub pending_follow_up_count : Controller → ℕ
pending_follow_up_count c = length c.follow_ups

-- Python's `sorted` by the key `order`: it is stable.
unfoldable pub insert_ordered : QueuedMessage → List QueuedMessage → List QueuedMessage
insert_ordered m [] = m ∷ []
insert_ordered m (x ∷ xs) = if ltb x.order m.order then x ∷ insert_ordered m xs else m ∷ x ∷ xs

unfoldable pub sorted : List QueuedMessage → List QueuedMessage
unfolding insert_ordered
sorted [] = []
sorted (m ∷ ms) = insert_ordered m (sorted ms)

unfoldable pub pending_message_texts : Controller → List String
unfolding sorted
pending_message_texts c = map (λ m. m.text) (sorted (c.steering ++ c.follow_ups))

unfoldable pub take_unapplied : Controller → List QueuedMessage × Controller
unfolding sorted
take_unapplied c =
    (sorted (c.steering ++ c.follow_ups), record c { steering = []; follow_ups = [] })
