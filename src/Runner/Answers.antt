-- ===== src/Runner/Answers.antt =====
-- What the decisions of a client are when they are accepted.
use deep_agent_cli.Prelude.{
  eq_iff, Bool, String, ◌≡◌, ◌⊎◌, inl, inr, refl, sym, ap, ◌∙◌, true, false, not, ◌&&◌, ◌||◌,
  Option, none, some, List, [], ◌∷◌, map, arith, ◌==◌, nat_comparable, text_comparable,
  if◌then◌else◌, is_some, all, contains,
}
use mathlib.Core.Path.{ap₂}
use deep_agent_cli.Prelude.Dict.{Dict, lookup, insert, keys, lookup-insert}
use deep_agent_cli.Runner.Resume.{
  decide_tools, covers, missing_key, not_covered, listed, finish_decisions, and_rest,
  message_not_text, add_decision, and_then, not_exactly_one, in_order, DecideError, is_refused,
  decide_all, decide_one, decision_of, GivenDecision,
}
use deep_agent_cli.RunEvents.Decisions.{Decision}

-- The first decision that is given on a call.
unfoldable pub given_for : String → List GivenDecision → Option Decision
given_for id [] = none
given_for id (g ∷ given) = if id == g.tool_call_id then decision_of g else given_for id given

true-false : true ≡ false → ⊥
true-false h = cc h

inl-inr {ℓ} : {E A : Type ℓ} (e : E) (a : A) → ◌≡◌ {A = E ⊎ A} (inl e) (inr a) → ⊥
inl-inr e a h = cc h

inr-injective {ℓ} : {E A : Type ℓ} (a b : A) → ◌≡◌ {A = E ⊎ A} (inr a) (inr b) → a ≡ b
inr-injective a b h = cc h

abbrev first_of : Option Decision → Option Decision → Option Decision
first_of none e = e
first_of (some d) e = some d

-- Every call has the decision that it had, or else the first that is given on it.
abbrev Decided : Dict String Decision → List GivenDecision → Dict String Decision → Type 0
Decided before given after =
    (j : String) → lookup j after ≡ first_of (lookup j before) (given_for j given)

inserted :
    (d : Decision) (id j : String) (before : Dict String Decision)
    → is_some (lookup id before) ≡ false
    → lookup j (insert id d before) ≡ first_of (lookup j before) (if j == id then some d else none)
inserted d id j before fresh = lookup-insert j id d before ∙ in_case (j == id) refl
  where
    kept_given : (o : Option Decision) → is_some o ≡ false → some d ≡ first_of o (some d)
    kept_given none e = refl
    kept_given (some d') e = absurd (true-false e)

    last_of : (o : Option Decision) → o ≡ first_of o none
    last_of none = refl
    last_of (some d') = refl

    in_case :
        (t : Bool)
        → (j == id) ≡ t
        → (if t then some d else lookup j before)
          ≡ first_of (lookup j before) (if t then some d else none)
    in_case true e =
        kept_given (lookup j before)
          (ap (λ k. is_some (lookup k before)) ((eq_iff j id).0 e) ∙ fresh)
    in_case false e = last_of (lookup j before)

-- What an accepted decision does: it stands for one, on a call that had none.
Accepted : GivenDecision → Dict String Decision → Dict String Decision → Type 0
Accepted g before after =
    (is_some (decision_of g) ≡ true)
    × ((j : String)
        → lookup j after
          ≡ first_of (lookup j before) (if j == g.tool_call_id then decision_of g else none))

decide_one-Accepted :
    (pending : List String) (g : GivenDecision) (before after : Dict String Decision)
    → decide_one pending g before ≡ inr after
    → Accepted g before after
unfolding Accepted
decide_one-Accepted pending g before after made =
    in_case (is_refused pending g before) (decision_of g) refl refl made
  where
    fresh : (a b c : Bool) → (a || b || c) ≡ false → b ≡ false
    fresh a b c e = ground (arith, e)

    in_case :
        (t : Bool) (m : Option Decision)
        → is_refused pending g before ≡ t
        → decision_of g ≡ m
        → (if t then inl not_exactly_one else add_decision m g.tool_call_id before) ≡ inr after
        → (is_some (decision_of g) ≡ true)
          × ((j : String)
              → lookup j after
                ≡ first_of (lookup j before) (if j == g.tool_call_id then decision_of g else none))
    in_case true m r e made = absurd (inl-inr not_exactly_one after made)
    in_case false none r e made = absurd (inl-inr message_not_text after made)
    in_case false (some d) r e made = (
      ap is_some e,
      λ j.
          ap (lookup j) (sym (inr-injective (insert g.tool_call_id d before) after made))
          ∙ inserted d g.tool_call_id j before (
              fresh (not (contains pending g.tool_call_id)) (is_some (lookup g.tool_call_id before))
                (not (g.decision == "approve" || g.decision == "reject")) r)
          ∙ ap (λ o. first_of (lookup j before) (if j == g.tool_call_id then o else none)) (sym e),
    )

first_of_first :
    (t : Bool) (x y z : Option Decision)
    → is_some y ≡ true
    → first_of (first_of x (if t then y else none)) z ≡ first_of x (if t then y else z)
first_of_first true none none z e = absurd (true-false (sym e))
first_of_first true none (some d) z e = refl
first_of_first false none y z e = refl
first_of_first true (some d) y z e = refl
first_of_first false (some d) y z e = refl

first_of-none : (o : Option Decision) → o ≡ first_of o none
first_of-none none = refl
first_of-none (some d) = refl

-- One decision, and the others from there.
onward :
    (pending : List String) (g : GivenDecision) (given : List GivenDecision)
    (before after : Dict String Decision) (r : DecideError ⊎ Dict String Decision)
    → decide_one pending g before ≡ r
    → ((mid : Dict String Decision)
        → decide_all pending given mid ≡ inr after
        → Decided mid given after)
    → and_then (decide_all pending given) r ≡ inr after
    → Decided before (g ∷ given) after
unfolding given_for Accepted
onward pending g given before after (inl error) e others made = absurd (inl-inr error after made)
onward pending g given before after (inr mid) e others made = λ j.
    let one = decide_one-Accepted pending g before mid e in
    others mid made j
    ∙ ap (λ o. first_of o (given_for j given)) (one.1 j)
    ∙ first_of_first (j == g.tool_call_id) (lookup j before) (decision_of g) (given_for j given)
        one.0

decide_all-Decided :
    (pending : List String) (given : List GivenDecision) (before after : Dict String Decision)
    → decide_all pending given before ≡ inr after
    → Decided before given after
unfolding decide_all given_for
decide_all-Decided pending [] before after made =
    λ j. ap (lookup j) (sym (inr-injective before after made)) ∙ first_of-none (lookup j before)
decide_all-Decided pending (g ∷ given) before after made =
    onward pending g given before after (decide_one pending g before) refl
      (λ mid e. decide_all-Decided pending given mid after e) made

some-injective {ℓ} : {A : Type ℓ} (a b : A) → some a ≡ some b → a ≡ b
some-injective a b h = cc h

none-some {ℓ} : {A : Type ℓ} (a : A) → none ≡ some a → ⊥
none-some a h = cc h

and_parts : (a b : Bool) → (a && b) ≡ true → (a ≡ true) × (b ≡ true)
and_parts a b e = ground (arith, e)

rest_made :
    (o : Option Decision) (ds : Option (List Decision))
    → is_some o ≡ true
    → is_some ds ≡ true
    → is_some (and_rest o ds) ≡ true
rest_made none ds e f = e
rest_made (some d) none e f = f
rest_made (some d) (some ds) e f = refl

-- A list that is made has the first decision and the rest.
listed_map :
    (o : Option Decision) (rest : Option (List Decision)) (ds : List Decision)
    (looked : List (Option Decision))
    → ((ds' : List Decision) → rest ≡ some ds' → map some ds' ≡ looked)
    → and_rest o rest ≡ some ds
    → map some ds ≡ o ∷ looked
listed_map none rest ds looked h e = absurd (none-some ds e)
listed_map (some d) none ds looked h e = absurd (none-some ds e)
listed_map (some d) (some ds') ds looked h e =
    ap (map some) (sym (some-injective (d ∷ ds') ds e)) ∙ ap (λ l. some d ∷ l) (h ds' refl)

in_order-map :
    (by_id : Dict String Decision) (ids : List String) (ds : List Decision)
    → in_order by_id ids ≡ some ds
    → map some ds ≡ map (λ id. lookup id by_id) ids
unfolding in_order
in_order-map by_id [] ds e = ap (map some) (sym (some-injective [] ds e))
in_order-map by_id (id ∷ ids) ds e =
    listed_map (lookup id by_id) (in_order by_id ids) ds (map (λ i. lookup i by_id) ids)
      (λ rest f. in_order-map by_id ids rest f) e

-- Where there is a decision on every call, the list is made.
in_order-made :
    (by_id : Dict String Decision) (ids : List String)
    → all (λ id. is_some (lookup id by_id)) ids ≡ true
    → is_some (in_order by_id ids) ≡ true
unfolding in_order
in_order-made by_id [] e = refl
in_order-made by_id (id ∷ ids) e =
    let both = and_parts (is_some (lookup id by_id)) (all (λ i. is_some (lookup i by_id)) ids) e in
    rest_made (lookup id by_id) (in_order by_id ids) both.0 (in_order-made by_id ids both.1)

map-given :
    (by_id : Dict String Decision) (given : List GivenDecision)
    → Decided [] given by_id
    → (ids : List String) → map (λ id. lookup id by_id) ids ≡ map (λ id. given_for id given) ids
unfolding lookup
map-given by_id given h [] = refl
map-given by_id given h (id ∷ ids) = ap₂ ◌∷◌ (h id) (map-given by_id given h ids)

abbrev pub is_missing : DecideError → Bool
is_missing missing_key = true
is_missing _ = false

abbrev misses : DecideError ⊎ Dict String Decision → Bool
misses (inl error) = is_missing error
misses (inr by_id) = false

and_then-misses :
    (f : Dict String Decision → DecideError ⊎ Dict String Decision)
    (r : DecideError ⊎ Dict String Decision)
    → misses r ≡ false
    → ((by_id : Dict String Decision) → misses (f by_id) ≡ false)
    → misses (and_then f r) ≡ false
and_then-misses f (inl error) e h = e
and_then-misses f (inr by_id) e h = h by_id

decide_one-misses :
    (pending : List String) (g : GivenDecision) (by_id : Dict String Decision)
    → misses (decide_one pending g by_id) ≡ false
decide_one-misses pending g by_id = in_case (is_refused pending g by_id) (decision_of g)
  where
    in_case :
        (t : Bool) (m : Option Decision)
        → misses (if t then inl not_exactly_one else add_decision m g.tool_call_id by_id) ≡ false
    in_case true m = refl
    in_case false none = refl
    in_case false (some d) = refl

decide_all-misses :
    (pending : List String) (given : List GivenDecision) (by_id : Dict String Decision)
    → misses (decide_all pending given by_id) ≡ false
unfolding decide_all
decide_all-misses pending [] by_id = refl
decide_all-misses pending (g ∷ given) by_id =
    and_then-misses (decide_all pending given) (decide_one pending g by_id)
      (decide_one-misses pending g by_id) (λ d. decide_all-misses pending given d)

module _ (pending : List String) (given : List GivenDecision) where
  unfoldable pub Answered : DecideError ⊎ List Decision → Type 0
  Answered (inl error) = is_missing error ≡ false
  Answered (inr ds) = map some ds ≡ map (λ id. given_for id given) pending

  covered-Answered :
      (by_id : Dict String Decision) (t : Bool)
      → covers pending by_id ≡ t
      → decide_all pending given [] ≡ inr by_id
      → Answered (if t then listed (in_order by_id pending) else inl not_covered)
  unfolding Answered
  covered-Answered by_id false c e = refl
  covered-Answered by_id true c e = made (in_order by_id pending) refl (
      in_order-made by_id pending
        (and_parts (all (λ id. is_some (lookup id by_id)) pending)
          (all (contains pending) (keys by_id)) c).0)
    where
      made :
          (o : Option (List Decision))
          → in_order by_id pending ≡ o
          → is_some (in_order by_id pending) ≡ true
          → Answered (listed o)
      made none f s = absurd (true-false (sym s ∙ ap is_some f))
      made (some ds) f s =
          in_order-map by_id pending ds f
          ∙ map-given by_id given (decide_all-Decided pending given [] by_id e) pending

  finished-Answered :
      (r : DecideError ⊎ Dict String Decision)
      → decide_all pending given [] ≡ r
      → Answered (finish_decisions pending r)
  unfolding Answered
  finished-Answered (inl error) e = sym (ap misses e) ∙ decide_all-misses pending given []
  finished-Answered (inr by_id) e = covered-Answered by_id (covers pending by_id) refl e

  -- Decisions that are accepted are one for each pending call, in the calls' order, each the first that the
  -- client gave on its call. Otherwise there is an error, and it is never that a decision is missing from
  -- the table: one was given on every call then.
  pub decide_tools-Answered : Answered (decide_tools pending given)
  unfolding decide_tools
  decide_tools-Answered = finished-Answered (decide_all pending given []) refl
