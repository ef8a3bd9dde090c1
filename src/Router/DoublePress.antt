-- ===== src/Router/DoublePress.antt =====
-- input_actions.py: a second Ctrl+C within the window is an exit.
use deep_agent_cli.Prelude.{
  ltb→lt, ℕ, ◌+◌, ◌≤◌, ◌<◌, ◌≡◌, ◌↔◌, refl, true, false, Option, none, some, List, [], ◌∷◌, arith,
  nat_comparable, text_comparable,
}
use deep_agent_cli.Router.{
  is_within, request_exit, clear_input, ctrl_c, InputAction, InputActionRouter, InputView,
}

-- A sequence of presses, each at its time and in its view: the actions, and the router after them.
unfoldable pub presses :
    List (InputView × ℕ) → InputActionRouter → List InputAction × InputActionRouter
presses [] r = ([], r)
presses ((v, now) ∷ rest) r =
    let (action, r') = ctrl_c v now r in
    let (actions, r'') = presses rest r' in (action ∷ actions, r'')

-- The last press that cleared the input, as the router remembers it: the specification that
-- looks back over the actions.
abbrev pub last_clear : Option ℕ → List (InputView × ℕ) → List InputAction → Option ℕ
last_clear last ((v, now) ∷ rest) (clear_input ∷ actions) = last_clear (some now) rest actions
last_clear last (p ∷ rest) (a ∷ actions) = last_clear last rest actions
last_clear last _ _ = last

last_ctrl_c-presses :
    (ps : List (InputView × ℕ)) (r : InputActionRouter)
    → let (actions, r') = presses ps r in r'.last_ctrl_c ≡ last_clear r.last_ctrl_c ps actions
unfolding presses ctrl_c
last_ctrl_c-presses [] r = refl
last_ctrl_c-presses ((v, now) ∷ rest) r =
    let (action, r') = ctrl_c v now r in ground (arith, last_ctrl_c-presses rest r')

exit_window-presses :
    (ps : List (InputView × ℕ)) (r : InputActionRouter)
    → (presses ps r).1.exit_window ≡ r.exit_window
unfolding presses ctrl_c
exit_window-presses [] r = refl
exit_window-presses ((v, now) ∷ rest) r =
    let (action, r') = ctrl_c v now r in ground (arith, exit_window-presses rest r')

is_within-some :
    (o : Option ℕ) (now window : ℕ)
    → is_within o now window ≡ true
    → (t : ℕ) × (o ≡ some t) × (now < t + window)
is_within-some none now window h = cc
is_within-some (some t) now window h = (t, refl, ltb→lt _ _ h)

-- Ctrl+C leaves the program only as a double press: after any presses from the start, a press that
-- exits comes less than the window after the last press that cleared the input.
pub exit_needs_clear :
    (ps : List (InputView × ℕ)) (r : InputActionRouter) (v : InputView) (now : ℕ)
    → r.last_ctrl_c ≡ none
    → let (actions, r') = presses ps r in
      (ctrl_c v now r').0 ≡ request_exit
      → (t : ℕ) × (last_clear none ps actions ≡ some t) × (now < t + r.exit_window)
unfolding ctrl_c
exit_needs_clear ps r v now fresh e =
    let r' = (presses ps r).1 in
    let pressed : is_within r'.last_ctrl_c now r'.exit_window ≡ true = ground arith in
    let (t, last, lt) = is_within-some r'.last_ctrl_c now r'.exit_window pressed in
    let looked_back = last_ctrl_c-presses ps r in (t, cc, omega (arith, exit_window-presses ps r))

-- With no interaction open, a press outside the window clears the input and starts the window: the
-- next press exits exactly if it comes within it, and clears the input again otherwise.
pub double_press_exits :
    (r : InputActionRouter) (v w : InputView) (t u : ℕ)
    → v.has_interaction ≡ false
    → w.has_interaction ≡ false
    → is_within r.last_ctrl_c t r.exit_window ≡ false
    → let (first, r') = ctrl_c v t r in
      let (second, r'') = ctrl_c w u r' in
      (first ≡ clear_input)
      × ((second ≡ request_exit) ↔ (u < t + r.exit_window))
      × ((second ≡ clear_input) ↔ (r''.last_ctrl_c ≡ some u × (t + r.exit_window ≤ u)))
unfolding ctrl_c
double_press_exits r v w t u p q fresh =
    (ground arith, (λ e. ground arith, λ h. ground arith), (λ e. ground arith, λ h. ground arith))
