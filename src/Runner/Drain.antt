-- ===== src/Runner/Drain.antt =====
-- What a run that completes leaves in the queues.
use deep_agent_cli.Runner.Loop.{
  before_turn, stream_once, was_completed, Turn, go_on, Streamed, run_turns, GraphInput, after_turn,
  is_completed, Next, take_queued, Runner, or_follow_up, next_text, stopped, again, ended, escaped,
  boundary,
}
use deep_agent_cli.Prelude.{
  subst, ℕ, String, ◌≡◌, ◌⊎◌, inl, inr, refl, sym, ap, ◌∙◌, Bool, true, false, not, ◌&&◌, ◌||◌,
  Option, none, some, List, [], ◌∷◌, arith, nat_comparable, text_comparable, if◌then◌else◌,
}
use deep_agent_cli.Control.State.{cancel_requested, QueuedMessage, Controller}
use deep_agent_cli.Control.Messages.{pop_follow_up, pop_steering, pop_from, pop_follow_from}
use deep_agent_cli.RunEvents.{RunResult}
use deep_agent_cli.Python.{Python}

-- Why nothing was taken from the queues after the turn `t`, where the run has ended with `final`: the
-- run is cancelled, or `c` is the state after the look into the steering queue, where the run was
-- cancelled, steering waited for an interrupt, or no steering was there but behind a follow-up; and
-- after what other threads did next no follow-up was there.
abbrev pub IsDrained : Turn → Controller → Type 0
IsDrained t final =
    (cancel_requested final ≡ true)
    ⊎ ((c : Controller) × (final ≡ t.between_pops c)
        × (final.follow_ups ≡ [])
        × ((cancel_requested c ≡ true)
            ⊎ ((c.defer_steering ≡ true) ⊎ (c.follow_ups ≡ [] → c.steering ≡ []))))

-- It is so after one of the turns.
abbrev pub Exhausted : List Turn → Controller → Type 0
Exhausted [] final = ⊥
Exhausted (t ∷ turns) final = IsDrained t final ⊎ Exhausted turns final

pop_follow_from-none :
    (ms : List QueuedMessage) (c d : Controller)
    → pop_follow_from ms c ≡ (none, d)
    → (ms ≡ []) × (d ≡ c)
pop_follow_from-none [] c d e = (refl, sym (ap (λ (p : Option String × Controller). p.1) e))
pop_follow_from-none (m ∷ ms) c d e = absurd (ground (arith, e))

pop_from-none :
    (ms : List QueuedMessage) (c d : Controller)
    → pop_from ms c ≡ (none, d)
    → (d ≡ c) × (c.follow_ups ≡ [] → ms ≡ [])
pop_from-none [] c d e = (sym (ap (λ (p : Option String × Controller). p.1) e), λ h. refl)
pop_from-none (m ∷ ms) c d e = (ground (arith, e), λ h. ground (arith, e, h))

or_follow_up-none :
    (between : Controller → Controller) (p : Option String × Controller) (d : Controller)
    → or_follow_up between p ≡ (none, d)
    → (p.0 ≡ none) × ((between p.1).follow_ups ≡ []) × (d ≡ between p.1)
unfolding pop_follow_up
or_follow_up-none between (none, c) d e =
    let f = pop_follow_from-none (between c).follow_ups (between c) d e in (refl, f.0, f.1)
or_follow_up-none between (some text, c) d e = absurd (ground (arith, e))

pop_steering_none :
    (waits : Bool) (c : Controller)
    → (if waits then (none, c) else pop_from c.steering c).0 ≡ none
    → ((if waits then (none, c) else pop_from c.steering c).1 ≡ c)
      × ((waits ≡ true) ⊎ (c.follow_ups ≡ [] → c.steering ≡ []))
pop_steering_none true c e = (refl, inl refl)
pop_steering_none false c e =
    let f = pop_from-none c.steering c _ (ap (λ t. (t, (pop_from c.steering c).1)) e) in
    (f.0, inr f.1)

why_waits :
    (defer cancelled : Bool) → (defer || cancelled) ≡ true → (cancelled ≡ true) ⊎ (defer ≡ true)
why_waits true cancelled h = inr refl
why_waits false cancelled h = inl h

next_text-none :
    (t : Turn) (c d : Controller) → next_text t.between_pops c ≡ (none, d) → IsDrained t d
unfolding next_text pop_steering
next_text-none t c d e =
    let f = or_follow_up-none t.between_pops (pop_steering c) d e in
    let s = pop_steering_none (c.defer_steering || cancel_requested c) c f.0 in
    inr (
      c,
      f.2 ∙ ap t.between_pops s.0,
      ap (λ (x : Controller). x.follow_ups) f.2 ∙ f.1,
      elim s.1 [
        | inl waits ↦ elim (why_waits c.defer_steering (cancel_requested c) waits) [
          | inl cancelled ↦ inl cancelled
          | inr defers ↦ inr (inl defers)
        ]
        | inr empty ↦ inr (inr empty)
      ],
    )

abbrev control_of : Next → Controller
control_of (stopped result r) = r.control
control_of (again input r) = r.control

abbrev is_stopped : Next → Bool
is_stopped (stopped result r) = true
is_stopped (again input r) = false

abbrev completes : Next → Bool
completes (stopped result r) = was_completed result
completes (again input r) = false

abbrev result_control : Runner → Option (Option RunResult × Runner) → Controller
result_control r none = r.control
result_control r (some (result, r')) = r'.control

abbrev result_completes : Option (Option RunResult × Runner) → Bool
result_completes none = false
result_completes (some (result, r)) = was_completed result

completes_stopped : (n : Next) → completes n ≡ true → is_stopped n ≡ true
completes_stopped (stopped o r) h = refl
completes_stopped (again input r) h = absurd (cc h)

module _ (closed child_closed stream_closed : ℕ → Bool) where
  take_queued-IsDrained :
      (t : Turn) (result : RunResult) (p : Option String × Controller) (c : Controller) (r : Runner)
      → next_text t.between_pops c ≡ p
      → is_stopped (take_queued closed child_closed stream_closed result p r) ≡ true
      → IsDrained t (control_of (take_queued closed child_closed stream_closed result p r))
  take_queued-IsDrained t result (none, d) c r e stops = next_text-none t c d e
  take_queued-IsDrained t result (some text, d) c r e stops = absurd (cc stops)

  ended-IsDrained :
      (t : Turn) (result : RunResult) (b : Bool) (r : Runner)
      → (is_completed result && not (cancel_requested r.control)) ≡ b
      → let n =
          if b
          then take_queued closed child_closed stream_closed result
              (next_text t.between_pops (t.after_check r.control))
              r
          else stopped (some result) r in
        completes n ≡ true → IsDrained t (control_of n)
  ended-IsDrained t result true r e done =
      take_queued-IsDrained t result (next_text t.between_pops (t.after_check r.control))
        (t.after_check r.control) r refl (completes_stopped _ done)
  ended-IsDrained t result false r e done = inl (ground (arith, e, done))

  after_turn-IsDrained :
      (t : Turn) (s : Streamed) (r : Runner)
      → completes (after_turn closed child_closed stream_closed t (s, r)) ≡ true
      → IsDrained t (control_of (after_turn closed child_closed stream_closed t (s, r)))
  unfolding after_turn
  after_turn-IsDrained t boundary r done = absurd (cc done)
  after_turn-IsDrained t escaped r done = absurd (cc done)
  after_turn-IsDrained t (ended result) r done = ended-IsDrained t result _ r refl done

  go_on-Exhausted :
      (t : Turn) (turns : List Turn)
      (run : GraphInput → Runner → Option (Option RunResult × Runner)) (n : Next)
      (result : RunResult) (r : Runner)
      → ((input : GraphInput) (r' : Runner)
          → run input r' ≡ some (some result, r)
          → Exhausted turns r.control)
      → (completes n ≡ true → IsDrained t (control_of n))
      → is_completed result ≡ true
      → go_on run n ≡ some (some result, r)
      → Exhausted (t ∷ turns) r.control
  go_on-Exhausted t turns run (stopped o r') result r later here done e =
      inl (subst (IsDrained t) (ap (result_control r') e) (here (ap result_completes e ∙ done)))
  go_on-Exhausted t turns run (again input r') result r later here done e = inr (later input r' e)

  -- When a run completes, it has done so after one of its turns, where it was cancelled, or had
  -- looked into both queues: no follow-up is left, and no steering that was there at its look and
  -- not behind a follow-up, unless the run was cancelled or steering waited for an interrupt. What
  -- other threads put there after that look may be left.
  pub completed_run-Exhausted :
      (py : Python) (turns : List Turn) (input : GraphInput) (r r' : Runner) (result : RunResult)
      → run_turns closed child_closed stream_closed py turns input r ≡ some (some result, r')
      → is_completed result ≡ true
      → Exhausted turns r'.control
  unfolding run_turns
  completed_run-Exhausted py [] input r r' result e done = absurd (cc e)
  completed_run-Exhausted py (t ∷ turns) input r r' result e done =
      let once = stream_once closed child_closed stream_closed t input (before_turn py t input r) in
      go_on-Exhausted t turns (run_turns closed child_closed stream_closed py turns) _ result r'
        (λ input' r1 e'. completed_run-Exhausted py turns input' r1 r' result e' done)
        (after_turn-IsDrained t once.0 once.1) done e
