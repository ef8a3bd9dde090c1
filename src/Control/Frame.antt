-- ===== src/Control/Frame.antt =====
-- What the operations of RunController leave alone.
use deep_agent_cli.Prelude.{
  ℕ, ◌≡◌, ◌≢◌, refl, Bool, true, ◌||◌, Option, none, some, List, [], ◌∷◌, map, add, ◌==◌,
  nat_comparable, arith, if◌then◌else◌,
}
use deep_agent_cli.Prelude.Dict.{erase}
use deep_agent_cli.Cancel
use deep_agent_cli.Control.State.{
  scope_cancelled, Controller, Effect, update, say, emit, set_cancel_event,
}
use deep_agent_cli.Control.Runs.{
  refers, carry_over, retire_each, retire_streams, cancel_tools, cancel_scope,
}

pub update_self {ℓ} : {A : Type ℓ} (h : ℕ → A) (k : ℕ) (a : A) → update h k a k ≡ a
unfolding update
update_self h k a = ground arith

pub update_ne {ℓ} : {A : Type ℓ} (h : ℕ → A) (k j : ℕ) (a : A) → j ≢ k → update h k a j ≡ h j
unfolding update
update_ne h k j a p = ground arith

module _ (killpg_fails : ℕ → Bool) where
  -- Only the contexts and the log change.
  pub cancel_tools-frame :
      (tools : List ℕ) (c : Controller)
      → let d = cancel_tools killpg_fails tools c in
        d ≡ record c { contexts = d.contexts; log = d.log }
  unfolding cancel_tools say
  cancel_tools-frame [] c = refl
  cancel_tools-frame (t ∷ tools) c =
      let (ctx, es) = Cancel.request_cancel killpg_fails (c.contexts t) in
      cancel_tools-frame tools
        (say (map Effect.tool es) (record c { contexts = update c.contexts t ctx }))

  pub cancel_scope-frame :
      (g : ℕ) (c : Controller)
      → let d = cancel_scope killpg_fails g c in
        d ≡ record c { scopes = d.scopes; contexts = d.contexts; log = d.log }
  unfolding cancel_scope set_cancel_event emit
  cancel_scope-frame g c = grind (arith, cancel_tools-frame)

  pub scopes-cancel_scope :
      (g j : ℕ) (c : Controller)
      → (cancel_scope killpg_fails g c).scopes j
        ≡ (if j == g then record (c.scopes g) { cancel_event = true } else c.scopes j)
  unfolding cancel_scope set_cancel_event update emit
  scopes-cancel_scope g j c = grind (arith, cancel_tools-frame)

module _ (closed : ℕ → Bool) where
  pub retire_each-frame :
      (streams : List ℕ) (c : Controller)
      → let d = retire_each closed streams c in
        d ≡ record c { stream_scopes = d.stream_scopes; unclosed_streams = d.unclosed_streams }
  unfolding retire_each
  retire_each-frame [] c = refl
  retire_each-frame (s ∷ streams) c = retire_each-frame streams (record c {
    stream_scopes = erase s c.stream_scopes;
    unclosed_streams = if closed s then c.unclosed_streams else add s c.unclosed_streams;
  })

  pub retire_streams-frame :
      (g : ℕ) (c : Controller)
      → let d = retire_streams closed g c in
        d ≡ record c {
          scopes = update c.scopes g (record (c.scopes g) { model_streams = [] });
          stream_scopes = d.stream_scopes;
          unclosed_streams = d.unclosed_streams;
        }
  unfolding retire_streams
  retire_streams-frame g c = grind (arith, retire_each-frame)

  pub carry_over-frame :
      (o : Option ℕ) (g : ℕ) (c : Controller)
      → let d = carry_over closed o g c in
        d ≡ record c {
          scopes = d.scopes;
          stream_scopes = d.stream_scopes;
          unclosed_streams = d.unclosed_streams;
        }
  unfolding carry_over set_cancel_event
  carry_over-frame none g c = refl
  carry_over-frame (some p) g c = grind (arith, retire_streams-frame)

  pub cancel_event-carry_over :
      (o : Option ℕ) (g j : ℕ) (c : Controller)
      → ((carry_over closed o g c).scopes j).cancel_event ≡ (
          if j == g
          then (c.scopes g).cancel_event || scope_cancelled c o
          else (c.scopes j).cancel_event)
  unfolding carry_over set_cancel_event update
  cancel_event-carry_over none g j c = grind arith
  cancel_event-carry_over (some p) g j c = grind (arith, retire_streams-frame)

  pub model_streams-carry_over :
      (o : Option ℕ) (g j : ℕ) (c : Controller)
      → ((carry_over closed o g c).scopes j).model_streams
        ≡ (if refers o j then [] else (c.scopes j).model_streams)
  unfolding carry_over set_cancel_event update
  model_streams-carry_over none g j c = refl
  model_streams-carry_over (some p) g j c = grind (arith, retire_streams-frame)
