-- ===== src/Cancel/Order.antt =====
-- cancel.py: the order of registering and cancelling does not decide whether work is stopped.
use mathlib.Core.List.{Perm, perm_middle, perm_append_singleton, append_assoc, map-append}
use mathlib.Core.List.Perm
use deep_agent_cli.Prelude.{
  subst, ℕ, ◌≡◌, Bool, false, List, [], ◌∷◌, ◌++◌, map, arith, sym, ap, nat_comparable,
  text_comparable,
}
use deep_agent_cli.Cancel.{
  Process, Effect, callback, ToolCancelContext, kill_process_group, kill_current, register_callback,
  register_process, request_cancel,
}

-- Moving one entry to the end.
last_perm {ℓ} : {A : Type ℓ} (xs ys : List A) (a : A) → Perm (xs ++ a ∷ ys) ((xs ++ ys) ++ a ∷ [])
last_perm xs ys a = Perm.trans (perm_middle xs ys) (Perm.symm (perm_append_singleton a (xs ++ ys)))

same_perm : {p p' q q' : List Effect × Bool} → p ≡ p' → q ≡ q' → Perm p'.0 q'.0 → Perm p.0 q.0
same_perm {p} {p'} {q} {q'} e f perm =
    subst (λ (x : List Effect × Bool). Perm x.0 q.0) (sym e)
      (subst (λ (y : List Effect × Bool). Perm p'.0 y.0) (sym f) perm)

module _ (killpg_fails : ℕ → Bool) where
  -- Both orders, as what the outside world sees and whether the caller gets an exception.
  abbrev pub register_then_cancel : (ℕ → Bool) → ℕ → ToolCancelContext → List Effect × Bool
  register_then_cancel raises f ctx =
      let (ctx', before, raised) = register_callback killpg_fails raises false f ctx in
      (before ++ (request_cancel killpg_fails ctx').1, raised)

  abbrev pub cancel_then_register : (ℕ → Bool) → ℕ → ToolCancelContext → List Effect × Bool
  cancel_then_register raises f ctx =
      let (ctx', before) = request_cancel killpg_fails ctx in
      let (ctx'', after, raised) = register_callback killpg_fails raises false f ctx' in
      (before ++ after, raised)

  register_then_cancel-eq :
      (raises : ℕ → Bool) (f : ℕ) (ctx : ToolCancelContext)
      → ctx.cancel_flag ≡ false
      → register_then_cancel raises f ctx
        ≡ (map callback ctx.callbacks ++ callback f ∷ kill_current killpg_fails ctx.process, false)
  unfolding register_callback request_cancel
  register_then_cancel-eq raises f ctx h = simp (h, map-append, append_assoc)

  cancel_then_register-eq :
      (raises : ℕ → Bool) (f : ℕ) (ctx : ToolCancelContext)
      → ctx.cancel_flag ≡ false
      → cancel_then_register raises f ctx ≡ (
        (map callback ctx.callbacks ++ kill_current killpg_fails ctx.process) ++ callback f ∷ [],
        raises f,
      )
  unfolding register_callback request_cancel
  cancel_then_register-eq raises f ctx h = simp h

  -- A callback runs exactly once with the others, whether it is registered just before the cancel
  -- or just after it: the two orders have the same effects up to their order. They differ in an
  -- exception of the callback, which reaches the caller that registers it after the cancel, and
  -- nobody otherwise. The context has not been cancelled before, nor the event of its run set.
  pub register_callback-request_cancel :
      (raises : ℕ → Bool) (f : ℕ) (ctx : ToolCancelContext)
      → ctx.cancel_flag ≡ false
      → Perm (register_then_cancel raises f ctx).0 (cancel_then_register raises f ctx).0
        × ((register_then_cancel raises f ctx).1 ≡ false)
        × ((cancel_then_register raises f ctx).1 ≡ raises f)
  register_callback-request_cancel raises f ctx h = (
    same_perm (register_then_cancel-eq raises f ctx h) (cancel_then_register-eq raises f ctx h) (
        last_perm (map callback ctx.callbacks) (kill_current killpg_fails ctx.process)
          (callback f)),
    ap (λ (p : List Effect × Bool). p.1) (register_then_cancel-eq raises f ctx h),
    ap (λ (p : List Effect × Bool). p.1) (cancel_then_register-eq raises f ctx h),
  )

  -- After a cancel a process that is registered is stopped at once, and a second cancel does
  -- nothing: it has no effect and changes no state.
  pub request_cancel_again :
      (p : Process) (ctx : ToolCancelContext)
      → let c = (request_cancel killpg_fails ctx).0 in
        (request_cancel killpg_fails c ≡ (c, []))
        × ((register_process killpg_fails false p c).1 ≡ kill_process_group killpg_fails p)
  unfolding request_cancel register_process
  request_cancel_again p ctx = ground arith
