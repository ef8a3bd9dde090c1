-- ===== src/Control/Sorting.antt =====
-- control.py: what `take_unapplied` and `pending_message_texts` give back.
use deep_agent_cli.Prelude.{
  All-mono, Bool-cases, ℕ, ◌≤◌, ◌≡◌, inl, inr, refl, List, [], ◌∷◌, ◌++◌, map, arith, ltb,
  nat_comparable, text_comparable, All,
}
use mathlib.Core.List.{Perm}
use mathlib.Core.List.Perm
use deep_agent_cli.Control.State.{Controller, QueuedMessage}
use deep_agent_cli.Control.Messages.{pending_message_texts, take_unapplied, sorted, insert_ordered}

abbrev pub Ascending : List QueuedMessage → Type 0
Ascending [] = Unit
Ascending (m ∷ ms) = All (λ (x : QueuedMessage). m.order ≤ x.order) ms × Ascending ms

insert_ordered-perm :
    (m : QueuedMessage) (ms : List QueuedMessage) → Perm (insert_ordered m ms) (m ∷ ms)
unfolding insert_ordered
insert_ordered-perm m [] = Perm.refl _
insert_ordered-perm m (x ∷ ms) = elim (Bool-cases (ltb x.order m.order)) [
  | inl lt ↦ rw lt (Perm.trans (Perm.cons x (insert_ordered-perm m ms)) (Perm.swap m x ms))
  | inr ge ↦ rw ge (Perm.refl _)
]

sorted-perm : (ms : List QueuedMessage) → Perm (sorted ms) ms
unfolding sorted
sorted-perm [] = Perm.refl []
sorted-perm (m ∷ ms) = Perm.trans (insert_ordered-perm m (sorted ms)) (Perm.cons m (sorted-perm ms))

insert_ordered-All :
    (n : ℕ) (m : QueuedMessage) (ms : List QueuedMessage)
    → n ≤ m.order
    → All (λ x. n ≤ x.order) ms
    → All (λ x. n ≤ x.order) (insert_ordered m ms)
unfolding insert_ordered
insert_ordered-All n m [] h k = (h, tt)
insert_ordered-All n m (x ∷ ms) h k = ground (arith, insert_ordered-All n m ms)

insert_ordered-Ascending :
    (m : QueuedMessage) (ms : List QueuedMessage) → Ascending ms → Ascending (insert_ordered m ms)
unfolding insert_ordered
insert_ordered-Ascending m [] h = (tt, tt)
insert_ordered-Ascending m (x ∷ ms) h = elim (Bool-cases (ltb x.order m.order)) [
  | inl lt ↦
      rw lt (
        insert_ordered-All x.order m ms (ground (arith, lt)) h.0,
        insert_ordered-Ascending m ms h.1,
      )
  | inr ge ↦
      let le : m.order ≤ x.order = ground (arith, ge) in
      rw ge ((le, All-mono _ _ (λ y q. omega arith) ms h.0), h)
]

sorted-Ascending : (ms : List QueuedMessage) → Ascending (sorted ms)
unfolding sorted
sorted-Ascending [] = tt
sorted-Ascending (m ∷ ms) = insert_ordered-Ascending m (sorted ms) (sorted-Ascending ms)

-- `take_unapplied` loses no message and makes up none: it returns the messages of both queues in
-- the order of arrival, with the texts that were shown as pending, and leaves both queues empty.
pub take_unapplied_complete :
    (c : Controller)
    → let (ms, d) = take_unapplied c in
      Perm ms (c.steering ++ c.follow_ups)
      × Ascending ms
      × (map (λ m. m.text) ms ≡ pending_message_texts c)
      × (pending_message_texts d ≡ [])
unfolding take_unapplied pending_message_texts
take_unapplied_complete c =
    let all_pending = c.steering ++ c.follow_ups in
    (sorted-perm all_pending, sorted-Ascending all_pending, refl, refl)
