-- ===== src/Control/Queue.antt =====
-- control.py: the two queues of messages are one queue in the order of arrival.
use mathlib.Core.Path.{subst, ap₂}
use deep_agent_cli.Prelude.{
  All-append, Bool-cases, some, ◌≡◌, arith, suc, String, All-mono, ◌<◌, ◌≤◌, ◌≢◌, ◌∷◌, All, List, ℕ,
  inl, inr, sym, ap, false, [], ◌++◌, nat_comparable, text_comparable,
}
use deep_agent_cli.Control.State.{say, emit, QueuedMessage, Controller}
use deep_agent_cli.Control.Messages.{pop_from, is_behind, pop_steering}

-- The orders rise along the list, from `lo` on, and stay below `hi`.
abbrev pub Rising : ℕ → ℕ → List QueuedMessage → Type 0
Rising lo hi [] = Unit
Rising lo hi (m ∷ ms) = (lo ≤ m.order) × (m.order < hi) × Rising (suc m.order) hi ms

abbrev pub Apart : List QueuedMessage → QueuedMessage → Type 0
Apart ms m = All (λ (x : QueuedMessage). x.order ≢ m.order) ms

-- Both queues rise, below the next order, and no order is used twice.
pub record IsOrdered (c : Controller) : Type 0 where
  pub steering : Rising 0 c.queue_order c.steering
  pub follow_ups : Rising 0 c.queue_order c.follow_ups
  pub apart : All (Apart c.follow_ups) c.steering

Rising-above : (lo hi : ℕ) (ms : List QueuedMessage) → Rising lo hi ms → All (λ m. lo ≤ m.order) ms
Rising-above lo hi [] h = tt
Rising-above lo hi (m ∷ ms) h =
    (h.0, All-mono _ _ (λ x p. omega arith) ms (Rising-above (suc m.order) hi ms h.2))

ahead_of_follow_ups :
    (fs : List QueuedMessage) (m : QueuedMessage) (lo hi : ℕ)
    → Rising lo hi fs
    → Apart fs m
    → is_behind fs m ≡ false
    → All (λ x. m.order < x.order) fs
ahead_of_follow_ups [] m lo hi h p e = tt
ahead_of_follow_ups (f ∷ fs) m lo hi h p e =
    let first : m.order < f.order = ground (arith, p.0) in
    (first, All-mono _ _ (λ x q. omega arith) fs (Rising-above (suc f.order) hi fs h.2))

pop_from_oldest :
    (ms : List QueuedMessage) (c d : Controller) (text : String)
    → Rising 0 c.queue_order ms
    → Rising 0 c.queue_order c.follow_ups
    → All (Apart c.follow_ups) ms
    → pop_from ms c ≡ (some text, d)
    → (m : QueuedMessage) × (m.text ≡ text)
      × (ms ≡ m ∷ d.steering)
      × (d.follow_ups ≡ c.follow_ups)
      × All (λ x. m.order < x.order) (d.steering ++ d.follow_ups)
unfolding emit say
pop_from_oldest [] c d text h k p e = absurd (ground arith)
pop_from_oldest (m ∷ rest) c d text h k p e = elim (Bool-cases (is_behind c.follow_ups m)) [
  | inl behind ↦ absurd (ground (arith, behind))
  | inr ahead ↦
      let same : (rest ≡ d.steering) × (c.follow_ups ≡ d.follow_ups) × (m.text ≡ text) =
        ground (arith, ahead) in
      (
        m,
        same.2,
        ap (λ r. m ∷ r) same.0,
        sym same.1,
        subst (All (λ x. m.order < x.order)) (ap₂ ◌++◌ same.0 same.1) (
            All-append _ rest c.follow_ups (Rising-above (suc m.order) c.queue_order rest h.2)
              (ahead_of_follow_ups c.follow_ups m 0 c.queue_order k p.0 ahead)),
      )
]

-- A steering message that is applied was queued before every message that stays, in either queue:
-- `pop_steering` takes the head of its queue, and nothing else changes in the queues.
pub pop_steering_oldest :
    (c d : Controller) (text : String)
    → IsOrdered c
    → pop_steering c ≡ (some text, d)
    → (m : QueuedMessage) × (m.text ≡ text)
      × (c.steering ≡ m ∷ d.steering)
      × (d.follow_ups ≡ c.follow_ups)
      × All (λ x. m.order < x.order) (d.steering ++ d.follow_ups)
unfolding pop_steering
pop_steering_oldest c d text v e =
    pop_from_oldest c.steering c d text v.steering v.follow_ups v.apart (ground arith)
