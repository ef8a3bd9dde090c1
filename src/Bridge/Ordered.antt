-- ===== src/Bridge/Ordered.antt =====
-- What the consumer has still to get of what the iterator has given.
use deep_agent_cli.Prelude.{
  subst, Bool, ◌≡◌, refl, ap, ◌∙◌, true, false, List, [], ◌∷◌, ◌++◌, nat_comparable,
  text_comparable, add,
}
use mathlib.Core.List.{append-nil, append_assoc}
use deep_agent_cli.Bridge.State.{
  finishing, abandoned, returned, stopped, exhausted, wake, stream_cancelled, reading, cancelled,
  raised, not_started, was_cancelled, error, failed, over, done, had_error, ended, leaving, chunk,
  closing, Item, holding, fresh, Bridge, Consumer, Task, StreamState,
}

abbrev pub is_fresh : StreamState → Bool
is_fresh fresh = true
is_fresh _ = false

module _ {A : Type 0} where
  -- What the task has yet to put into the queue.
  abbrev pub Held : Task A → List A → Type 0
  Held (holding x) rest = rest ≡ x ∷ []
  Held (closing was_cancelled) rest = Unit
  Held (closing (had_error e)) rest = Unit
  Held ended rest = Unit
  Held _ rest = rest ≡ []

  -- The chunks of the queue up to its first other item, and then what the task has: where that item
  -- is the end of the stream, nothing is left.
  unfoldable pub Follows : Task A → List (Item A) → List A → Type 0
  Follows t [] rest = Held t rest
  Follows t (chunk x ∷ q) [] = ⊥
  Follows t (chunk x ∷ q) (y ∷ rest) = (x ≡ y) × Follows t q rest
  Follows t (done ∷ q) rest = (t ≡ ended) × (rest ≡ [])
  Follows t (_ ∷ q) rest = Unit

  abbrev pub Left : Task A → List (Item A) → List A → List A → Type 0
  Left t q produced delivered = (rest : List A) × (produced ≡ delivered ++ rest) × Follows t q rest

  -- What holds of the stream while the consumer is where it is.
  abbrev pub Told : Consumer → StreamState → Task A → List (Item A) → List A → List A → Type 0
  Told not_started s t q produced delivered = Left t q produced delivered
  Told reading s t q produced delivered = (is_fresh s ≡ false) × Left t q produced delivered
  Told finishing s t q produced delivered = (is_fresh s ≡ false) × Left t q produced delivered
  Told (leaving exhausted) s t q produced delivered = (t ≡ ended) × (produced ≡ delivered)
  Told (over returned) s t q produced delivered = (t ≡ ended) × (produced ≡ delivered)
  Told _ s t q produced delivered = is_fresh s ≡ false

  abbrev pub IsInOrder : Bridge A → Type 0
  IsInOrder b = Told b.consumer b.state b.task b.queue b.produced b.delivered

  -- A change of the task and the queue, in which the iterator gives `new`.
  pub record Carries (t t' : Task A) (q q' : List (Item A)) (new : List A) : Type 0 where
    pub after_end : t ≡ ended → (t' ≡ ended) × (new ≡ [])
    pub follows : (rest : List A) → Follows t q rest → Follows t' q' (rest ++ new)

  pub Left-carried :
      (t t' : Task A) (q q' : List (Item A)) (new p d : List A)
      → Carries t t' q q' new
      → Left t q p d
      → Left t' q' (p ++ new) d
  Left-carried t t' q q' new p d c left = (
    left.0 ++ new,
    ap (λ l. l ++ new) left.1 ∙ append_assoc d left.0 new,
    c.follows left.0 left.2,
  )

  pub end_carried :
      (t t' : Task A) (q q' : List (Item A)) (new p d : List A)
      → Carries t t' q q' new
      → (t ≡ ended) × (p ≡ d)
      → (t' ≡ ended) × (p ++ new ≡ d)
  end_carried t t' q q' new p d c (e, s) =
      let a = c.after_end e in (a.0, ap (λ l. p ++ l) a.1 ∙ append-nil p ∙ s)

  pub Told-carried :
      (c : Consumer) (s s' : StreamState) (t t' : Task A) (q q' : List (Item A)) (new p d : List A)
      → (is_fresh s ≡ false → is_fresh s' ≡ false)
      → Carries t t' q q' new
      → Told c s t q p d
      → Told c s' t' q' (p ++ new) d
  Told-carried not_started s s' t t' q q' new p d m k h = Left-carried t t' q q' new p d k h
  Told-carried reading s s' t t' q q' new p d m k h = (m h.0, Left-carried t t' q q' new p d k h.1)
  Told-carried finishing s s' t t' q q' new p d m k h =
      (m h.0, Left-carried t t' q q' new p d k h.1)
  Told-carried (leaving exhausted) s s' t t' q q' new p d m k h = end_carried t t' q q' new p d k h
  Told-carried (leaving stopped) s s' t t' q q' new p d m k h = m h
  Told-carried (leaving (failed e)) s s' t t' q q' new p d m k h = m h
  Told-carried (over returned) s s' t t' q q' new p d m k h = end_carried t t' q q' new p d k h
  Told-carried (over abandoned) s s' t t' q q' new p d m k h = m h
  Told-carried (over (raised e)) s s' t t' q q' new p d m k h = m h
  Told-carried (over (stream_cancelled x)) s s' t t' q q' new p d m k h = m h

  -- The same where nothing is given.
  pub Told-kept :
      (c : Consumer) (s s' : StreamState) (t t' : Task A) (q q' : List (Item A)) (p d : List A)
      → (is_fresh s ≡ false → is_fresh s' ≡ false)
      → Carries t t' q q' []
      → Told c s t q p d
      → Told c s' t' q' p d
  Told-kept c s s' t t' q q' p d m k h =
      subst (λ l. Told c s' t' q' l d) (append-nil p) (Told-carried c s s' t t' q q' [] p d m k h)

  -- Items go to the end of the queue, behind what is there.
  pub Follows-put :
      (t t' : Task A) (add : List (Item A)) (new : List A)
      → (t ≡ ended → (t' ≡ ended) × (new ≡ []))
      → ((rest : List A) → Held t rest → Follows t' add (rest ++ new))
      → (q : List (Item A)) (rest : List A) → Follows t q rest
      → Follows t' (q ++ add) (rest ++ new)
  unfolding Follows
  Follows-put t t' add new a h [] rest f = h rest f
  Follows-put t t' add new a h (chunk x ∷ q) [] f = absurd f
  Follows-put t t' add new a h (chunk x ∷ q) (y ∷ rest) f =
      (f.0, Follows-put t t' add new a h q rest f.1)
  Follows-put t t' add new a h (done ∷ q) rest f =
      let e = a f.0 in (e.0, ap (λ l. l ++ new) f.1 ∙ e.1)
  Follows-put t t' add new a h (cancelled ∷ q) rest f = tt
  Follows-put t t' add new a h (wake ∷ q) rest f = tt
  Follows-put t t' add new a h (error e ∷ q) rest f = tt

  pub puts :
      (t t' : Task A) (q add : List (Item A)) (new : List A)
      → (t ≡ ended → (t' ≡ ended) × (new ≡ []))
      → ((rest : List A) → Held t rest → Follows t' add (rest ++ new))
      → Carries t t' q (q ++ add) new
  puts t t' q add new a h = record { after_end = a; follows = Follows-put t t' add new a h q }

  -- Only the task changes.
  pub turns :
      (t t' : Task A) (q : List (Item A)) (new : List A)
      → (t ≡ ended → (t' ≡ ended) × (new ≡ []))
      → ((rest : List A) → Held t rest → Held t' (rest ++ new))
      → Carries t t' q q new
  unfolding Follows
  turns t t' q new a h = subst (λ l. Carries t t' q l new) (append-nil q) (puts t t' q [] new a h)

  -- An item that stops the consumer is put, whatever else is going on.
  pub stops :
      (t : Task A) (q : List (Item A)) (item : Item A)
      → ((rest : List A) → Follows t (item ∷ []) rest)
      → Carries t t q (q ++ item ∷ []) []
  stops t q item h = puts t t q (item ∷ []) [] (λ e. (e, refl)) (λ rest x. h (rest ++ []))
