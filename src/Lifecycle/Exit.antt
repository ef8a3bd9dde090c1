-- ===== src/Lifecycle/Exit.antt =====
-- Each owner of live work is told of an exit, and told once.
use deep_agent_cli.Prelude.{ℕ, Bool, nat_comparable, text_comparable}
use deep_agent_cli.Lifecycle.{
  new_lifecycle, Ending, TaskState, View, TaskStop, AppLifecycle, request_exit, shutdown, spawn,
  forget,
}

-- One of the two ways to leave.
pub data Departure (view : View) : AppLifecycle → AppLifecycle → Type 0 where
  requests : (l : AppLifecycle) → Departure view l (request_exit view l).1
  shuts_down :
      (is_over : ℕ → Bool) (ending : ℕ → Ending) (l : AppLifecycle)
      → Departure view l (shutdown view is_over ending l).1

pub data Step : AppLifecycle → AppLifecycle → Type 0 where
  spawns : (task : ℕ) (stop : TaskStop) (l : AppLifecycle) → Step l (spawn task stop l).1
  ends : (task : ℕ) (t : TaskState) (l : AppLifecycle) → Step l (forget task t l)
  leaves : (view : View) {l l' : AppLifecycle} → Departure view l l' → Step l l'

pub data Run : AppLifecycle → AppLifecycle → Type 0 where
  done_running : {l : AppLifecycle} → Run l l
  then_step : {l l' l'' : AppLifecycle} → Run l l' → Step l' l'' → Run l l''

pub data Reach : AppLifecycle → Type 0 where
  start : Reach new_lifecycle
  next : {l l' : AppLifecycle} → Reach l → Step l l' → Reach l'
