-- ===== src/CliState/Growth.antt =====
-- state.py: how a list of blocks may change: in place with a new revision, and at the end.
use deep_agent_cli.Prelude.{
  Bool-cases, ℕ, ◌<◌, String, ◌≡◌, ◌⊎◌, inl, inr, refl, ◌∙◌, Bool, List, [], ◌∷◌, ◌++◌, arith, ◌==◌,
  nat_comparable, text_comparable,
}
use deep_agent_cli.CliState.Blocks.{summary, MessageBlock, tool, message, ToolBlock, Block}
use deep_agent_cli.CliState.Streaming.{settle_user, modify_ref}
use deep_agent_cli.CliState.Settling.{map_cards}
use deep_agent_cli.CliState.Cards.{has_card, change_card, modify_last}

-- The same object, unchanged or with a higher revision.
abbrev pub Touched : Block → Block → Type 0
Touched (message b) (message c) = (b.ref ≡ c.ref) × ((b ≡ c) ⊎ (b.revision < c.revision))
Touched (tool t) (tool u) =
    (t.tool_call_id ≡ u.tool_call_id) × ((t ≡ u) ⊎ (t.revision < u.revision))
Touched (summary x) (summary y) = x ≡ y
Touched _ _ = ⊥

-- Every block stays at its place, touched if it changed; new blocks stand at the end.
abbrev pub Grows : List Block → List Block → Type 0
Grows [] new = Unit
Grows (b ∷ old) [] = ⊥
Grows (b ∷ old) (c ∷ new) = Touched b c × Grows old new

Touched-refl : (b : Block) → Touched b b
Touched-refl (message b) = (refl, inl refl)
Touched-refl (tool t) = (refl, inl refl)
Touched-refl (summary x) = refl

pub Grows-refl : (blocks : List Block) → Grows blocks blocks
Grows-refl [] = tt
Grows-refl (b ∷ blocks) = (Touched-refl b, Grows-refl blocks)

pub Grows-same : {xs ys : List Block} → ys ≡ xs → Grows xs ys
Grows-same {xs} e = rw e (Grows-refl xs)

Touched-trans : (a b c : Block) → Touched a b → Touched b c → Touched a c
Touched-trans (message a) (message b) (message c) p q = ground arith
Touched-trans (tool a) (tool b) (tool c) p q = ground arith
Touched-trans (summary a) (summary b) (summary c) p q = p ∙ q
Touched-trans (message a) (message b) (tool c) p q = absurd q
Touched-trans (message a) (message b) (summary c) p q = absurd q
Touched-trans (message a) (tool b) c p q = absurd p
Touched-trans (message a) (summary b) c p q = absurd p
Touched-trans (tool a) (tool b) (message c) p q = absurd q
Touched-trans (tool a) (tool b) (summary c) p q = absurd q
Touched-trans (tool a) (message b) c p q = absurd p
Touched-trans (tool a) (summary b) c p q = absurd p
Touched-trans (summary a) (summary b) (message c) p q = absurd q
Touched-trans (summary a) (summary b) (tool c) p q = absurd q
Touched-trans (summary a) (message b) c p q = absurd p
Touched-trans (summary a) (tool b) c p q = absurd p

pub Grows-trans : (xs ys zs : List Block) → Grows xs ys → Grows ys zs → Grows xs zs
Grows-trans [] ys zs p q = tt
Grows-trans (x ∷ xs) [] zs p q = absurd p
Grows-trans (x ∷ xs) (y ∷ ys) [] p q = absurd q
Grows-trans (x ∷ xs) (y ∷ ys) (z ∷ zs) p q =
    (Touched-trans x y z p.0 q.0, Grows-trans xs ys zs p.1 q.1)

pub Grows-append : (old new : List Block) → Grows old (old ++ new)
Grows-append [] new = tt
Grows-append (b ∷ old) new = (Touched-refl b, Grows-append old new)

module _ (f : ToolBlock → ToolBlock)
    (touches : (t : ToolBlock) → Touched (tool t) (tool (f t))) where
  pub map_cards-Grows : (blocks : List Block) → Grows blocks (map_cards f blocks)
  unfolding map_cards
  map_cards-Grows [] = tt
  map_cards-Grows (message b ∷ blocks) = (Touched-refl (message b), map_cards-Grows blocks)
  map_cards-Grows (tool t ∷ blocks) = (touches t, map_cards-Grows blocks)
  map_cards-Grows (summary x ∷ blocks) = (refl, map_cards-Grows blocks)

  pub modify_last-Grows :
      (p : ToolBlock → Bool) (blocks : List Block) → Grows blocks (modify_last p f blocks)
  unfolding modify_last
  modify_last-Grows p [] = tt
  modify_last-Grows p (message b ∷ blocks) = (Touched-refl (message b), modify_last-Grows p blocks)
  modify_last-Grows p (summary x ∷ blocks) = (refl, modify_last-Grows p blocks)
  modify_last-Grows p (tool t ∷ blocks) = elim (Bool-cases (has_card p blocks)) [
    | inl later ↦ rw later (Touched-refl (tool t), modify_last-Grows p blocks)
    | inr none_later ↦ rw none_later (elim (Bool-cases (p t)) [
      | inl hit ↦ rw hit (touches t, Grows-refl blocks)
      | inr miss ↦ rw miss (Touched-refl (tool t), Grows-refl blocks)
    ])
  ]

  pub change_card-Grows :
      (p : ToolBlock → Bool) (created : ToolBlock) (blocks : List Block)
      → Grows blocks (change_card p created f blocks)
  unfolding change_card
  change_card-Grows p created blocks = elim (Bool-cases (has_card p blocks)) [
    | inl found ↦ rw found (modify_last-Grows p blocks)
    | inr missing ↦ rw missing (Grows-append blocks _)
  ]

pub modify_ref-Grows :
    (r : ℕ) (f : MessageBlock → MessageBlock)
    → ((b : MessageBlock) → Touched (message b) (message (f b)))
    → (blocks : List Block) → Grows blocks (modify_ref r f blocks)
unfolding modify_ref
modify_ref-Grows r f touches [] = tt
modify_ref-Grows r f touches (tool t ∷ blocks) =
    (Touched-refl (tool t), modify_ref-Grows r f touches blocks)
modify_ref-Grows r f touches (summary x ∷ blocks) = (refl, modify_ref-Grows r f touches blocks)
modify_ref-Grows r f touches (message b ∷ blocks) = elim (Bool-cases (b.ref == r)) [
  | inl hit ↦ rw hit (touches b, modify_ref-Grows r f touches blocks)
  | inr miss ↦ rw miss (Touched-refl (message b), modify_ref-Grows r f touches blocks)
]

pub settle_user-Grows : (id : String) (blocks : List Block) → Grows blocks (settle_user id blocks)
unfolding settle_user
settle_user-Grows id [] = tt
settle_user-Grows id (tool t ∷ blocks) = (Touched-refl (tool t), settle_user-Grows id blocks)
settle_user-Grows id (summary x ∷ blocks) = (refl, settle_user-Grows id blocks)
settle_user-Grows id (message b ∷ blocks) = elim (Bool-cases (b.id == id)) [
  | inl hit ↦ rw hit ((refl, inr (omega arith)), Grows-refl blocks)
  | inr miss ↦ rw miss (Touched-refl (message b), settle_user-Grows id blocks)
]
