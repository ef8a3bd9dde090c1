-- ===== src/Control/Tools.antt =====
-- RunController: the registry of running tools. A tool context shares the cancel event of the run
-- that is current when it is opened; `thread` is the thread that opens it.
use deep_agent_cli.Prelude.{
  ℕ, suc, String, Bool, false, ◌||◌, Option, none, some, [], ◌==◌, nat_comparable, text_comparable,
  if◌then◌else◌,
}
use deep_agent_cli.Prelude.Dict.{insert, erase}
use deep_agent_cli.Cancel
use deep_agent_cli.Cancel.{ToolCancelContext}
use deep_agent_cli.Control.State.{
  Controller, update, current_scope, scope_cancelled, cancel_requested,
}

-- `ctx.tool_call_id or ctx.token`
abbrev pub tool_key : ToolCancelContext → String
tool_key ctx = if ctx.tool_call_id == "" then ctx.token else ctx.tool_call_id

unfoldable pub register_tool : ℕ → Controller → Controller
unfolding insert
register_tool t c = record c { active_tools = insert (tool_key (c.contexts t)) t c.active_tools }

unfoldable pub unregister_tool : ℕ → Controller → Controller
unfolding erase
unregister_tool t c = record c { active_tools = erase (tool_key (c.contexts t)) c.active_tools }

-- `ctx.cancelled`, read through the event that it shares.
unfoldable pub tool_cancelled : Controller → ℕ → Bool
tool_cancelled c t = (c.contexts t).cancel_flag || scope_cancelled c (c.contexts t).event

abbrev pub new_context : String → String → String → Option ℕ → ToolCancelContext
new_context tool_name tool_call_id token event = record {
  tool_name = tool_name;
  tool_call_id = tool_call_id;
  event = event;
  token = token;
  callbacks = [];
  process = none;
  cancel_flag = false;
}

module _ (killpg_fails : ℕ → Bool) where
  -- A new context has no callback and no process, so cancelling it has no other effect.
  abbrev pub opened : Bool → ToolCancelContext → ToolCancelContext
  opened requested ctx = if requested then (Cancel.request_cancel killpg_fails ctx).0 else ctx

  unfoldable pub open_tool_context : ℕ → String → String → String → Controller → ℕ × Controller
  unfolding register_tool update cancel_requested Cancel.request_cancel
  open_tool_context thread tool_name tool_call_id token c =
      let t = c.next_context in
      let ctx = new_context tool_name tool_call_id token (current_scope c) in
      let c' = record c {
        next_context = suc t;
        contexts = update c.contexts t (opened (cancel_requested c) ctx);
      } in
      (t, record (register_tool t c') { current = update c.current thread (some t) })

unfoldable pub close_tool_context : ℕ → ℕ → Controller → Controller
unfolding unregister_tool update
close_tool_context thread t c = record (unregister_tool t c) {
  current = update c.current thread none;
}
