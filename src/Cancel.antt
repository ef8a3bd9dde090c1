-- ===== src/Cancel.antt =====
-- agent/cancel.py: the cancel context of one running tool. What the code does to the outside world
-- is a list of effects. The shared cancel event is owned by a run (see Control), so the operations
-- that read it take its value. `request_cancel` swallows the exceptions of callbacks; a callback that
-- is registered too late runs inside of `register_callback`, which raises what it raises. It runs under
-- the lock of the context, so callbacks are taken not to use the context themselves.
pub mod Order
use deep_agent_cli.Prelude.{
  ℕ, String, Bool, true, false, ◌||◌, Option, none, some, List, [], ◌∷◌, ◌++◌, map, ◌==◌,
  nat_comparable, text_comparable, if◌then◌else◌,
}

-- A process handle: whether it has a callable `cancel_execution`, and its `pid` (0 for none).
pub record Process : Type 0 where
  pub handle : ℕ
  pub cancel_execution : Bool
  pub pid : ℕ

pub data Effect : Type 0 where
  callback : ℕ → Effect
  cancelled_execution : ℕ → Effect
  killed_group : ℕ → Effect
  killed_process : ℕ → Effect
  output : String → String → String → Effect

-- `event` names the run whose cancel event the context shares; `none` is an event of its own.
pub record ToolCancelContext : Type 0 where
  pub tool_name : String
  pub tool_call_id : String
  pub event : Option ℕ
  pub token : String
  pub callbacks : List ℕ
  pub process : Option Process
  pub cancel_flag : Bool

-- `killpg_fails pid` is the operating system's answer to `killpg`.
module _ (killpg_fails : ℕ → Bool) where
  unfoldable pub kill_process_group : Process → List Effect
  kill_process_group p =
      if p.cancel_execution
      then cancelled_execution p.handle ∷ []
      else if p.pid == 0
      then []
      else if killpg_fails p.pid
      then killed_group p.pid ∷ killed_process p.handle ∷ []
      else killed_group p.pid ∷ []

  unfoldable pub kill_current : Option Process → List Effect
  unfolding kill_process_group
  kill_current none = []
  kill_current (some p) = kill_process_group p

  -- `cancelled`: its own flag, or the event of the run.
  abbrev pub cancelled : Bool → ToolCancelContext → Bool
  cancelled is_set ctx = ctx.cancel_flag || is_set

  -- The last component says whether an exception is raised; `raises` says which callbacks raise one.
  unfoldable pub register_callback :
      (ℕ → Bool) → Bool → ℕ → ToolCancelContext → ToolCancelContext × List Effect × Bool
  register_callback raises is_set f ctx =
      if ctx.cancel_flag || is_set
      then (ctx, callback f ∷ [], raises f)
      else (record ctx { callbacks = ctx.callbacks ++ f ∷ [] }, [], false)

  unfoldable pub register_process :
      Bool → Process → ToolCancelContext → ToolCancelContext × List Effect
  unfolding kill_process_group
  register_process is_set p ctx =
      let ctx' = record ctx { process = some p } in
      if ctx.cancel_flag || is_set then (ctx', kill_process_group p) else (ctx', [])

  unfoldable pub clear_process : ToolCancelContext → ToolCancelContext
  clear_process ctx = record ctx { process = none }

  unfoldable pub request_cancel : ToolCancelContext → ToolCancelContext × List Effect
  unfolding kill_current
  request_cancel ctx = if ctx.cancel_flag then (ctx, []) else (
    record ctx { cancel_flag = true },
    map callback ctx.callbacks ++ kill_current ctx.process,
  )

-- `emit_tool_output`, given whether an emitter is installed.
unfoldable pub emit_tool_output : Bool → String → String → String → List Effect
emit_tool_output installed tool_call_id content stream =
    if installed
    then (if content == "" then [] else output tool_call_id content stream ∷ [])
    else []
