-- ===== src/Control/State.antt =====
-- The state of RunController. A run scope is an object with identity that `_active`, `_reserved`
-- and `_last` may share: it is named by its generation and stands in the store `scopes`. Tool
-- contexts stand in the store `contexts`. What leaves the controller is appended to `log`.
use deep_agent_cli.Prelude.{
  ℕ, suc, String, Bool, true, false, Option, none, some, List, [], ◌∷◌, ◌++◌, ◌==◌, nat_comparable,
  or_else, if◌then◌else◌,
}
use deep_agent_cli.Prelude.Dict.{Dict}
use deep_agent_cli.Cancel
use deep_agent_cli.Cancel.{ToolCancelContext}

pub data Mode : Type 0 where
  steer follow_up : Mode

pub record QueuedMessage : Type 0 where
  pub text : String
  pub mode : Mode
  pub order : ℕ
  pub id : ℕ

pub record RunScope : Type 0 where
  pub cancel_event : Bool
  pub run_control : Bool
  pub model_streams : List ℕ

abbrev pub new_scope : RunScope
new_scope = record { cancel_event = false; run_control = false; model_streams = [] }

pub data ControlEvent : Type 0 where
  steering_queued : String → Mode → ℕ → ControlEvent
  steering_applied : String → ℕ → ControlEvent
  run_cancelling : ControlEvent

-- A call of the event handler, `request_drain` on a run's control, `cancel` of a stream or of a
-- child controller, and what a tool context does.
pub data Effect : Type 0 where
  emitted : ℕ → ControlEvent → Effect
  drained : ℕ → Effect
  stream_cancelled : ℕ → Effect
  child_cancelled : ℕ → Effect
  tool : Cancel.Effect → Effect

pub record Controller : Type 0 where
  pub steering : List QueuedMessage
  pub follow_ups : List QueuedMessage
  pub queue_order : ℕ
  pub pause_requested : Bool
  pub generations : ℕ
  pub active : Option ℕ
  pub reserved : Option ℕ
  pub last : Option ℕ
  pub scopes : ℕ → RunScope
  pub stream_scopes : Dict ℕ ℕ
  pub unclosed_streams : List ℕ
  pub active_tools : Dict String ℕ
  pub contexts : ℕ → ToolCancelContext
  pub next_context : ℕ
  pub current : ℕ → Option ℕ
  pub defer_steering : Bool
  pub on_control_event : Option ℕ
  pub children : List ℕ
  pub pending_config_check : ℕ → Bool
  pub log : List Effect

abbrev pub no_context : ToolCancelContext
no_context = record {
  tool_name = "";
  tool_call_id = "";
  event = none;
  token = "";
  callbacks = [];
  process = none;
  cancel_flag = false;
}

-- `__init__`
abbrev pub init : Option ℕ → Controller
init handler = record {
  steering = [];
  follow_ups = [];
  queue_order = 0;
  pause_requested = false;
  generations = 1;
  active = none;
  reserved = none;
  last = none;
  scopes = λ _. new_scope;
  stream_scopes = [];
  unclosed_streams = [];
  active_tools = [];
  contexts = λ _. no_context;
  next_context = 0;
  current = λ _. none;
  defer_steering = false;
  on_control_event = handler;
  children = [];
  pending_config_check = λ _. false;
  log = [];
}

-- Writing one object of a store.
unfoldable pub update {ℓ} : {A : Type ℓ} → (ℕ → A) → ℕ → A → ℕ → A
update h k a j = if j == k then a else h j

unfoldable pub say : List Effect → Controller → Controller
say es c = record c { log = c.log ++ es }

abbrev pub emission : Option ℕ → ControlEvent → List Effect
emission none e = []
emission (some handler) e = emitted handler e ∷ []

-- `_emit`. The exceptions of a handler are swallowed.
unfoldable pub emit : ControlEvent → Controller → Controller
unfolding say
emit e c = say (emission c.on_control_event e) c

-- `_RunScope(next(self._generations))`
unfoldable pub make_scope : Controller → ℕ × Controller
unfolding update
make_scope c = (
  c.generations,
  record c { generations = suc c.generations; scopes = update c.scopes c.generations new_scope },
)

unfoldable pub set_cancel_event : ℕ → Controller → Controller
unfolding update
set_cancel_event g c = record c {
  scopes = update c.scopes g (record (c.scopes g) { cancel_event = true });
}

-- `_current_scope`
abbrev pub current_scope : Controller → Option ℕ
current_scope c = or_else c.active (or_else c.reserved c.last)

abbrev pub scope_cancelled : Controller → Option ℕ → Bool
scope_cancelled c none = false
scope_cancelled c (some g) = (c.scopes g).cancel_event

unfoldable pub cancel_requested : Controller → Bool
cancel_requested c = scope_cancelled c (current_scope c)

unfoldable pub request_pause : Controller → Controller
request_pause c = record c { pause_requested = true }

unfoldable pub clear_pause : Controller → Controller
clear_pause c = record c { pause_requested = false }

unfoldable pub set_event_handler : Option ℕ → Controller → Controller
set_event_handler handler c = record c { on_control_event = handler }

unfoldable pub set_defer_steering : Bool → Controller → Controller
set_defer_steering value c = record c { defer_steering = value }

unfoldable pub set_pending_config_check : (ℕ → Bool) → Controller → Controller
set_pending_config_check check c = record c { pending_config_check = check }

-- The check is called at the time `now`.
unfoldable pub has_pending_config : ℕ → Controller → Bool
has_pending_config now c = c.pending_config_check now
