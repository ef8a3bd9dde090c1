-- ===== src/Examples/Subagents.antt =====
-- Runs of the subagent manager.
use deep_agent_cli.Prelude.{
  ℕ, refl, Bool, true, false, none, [], arith, nat_comparable, text_comparable,
}
use deep_agent_cli.Prelude.Dict.{erase}
use deep_agent_cli.Control.State.{init, cancel_requested}
use deep_agent_cli.Subagents.{
  finish-IsAdmitted, finish, admit-IsAdmitted, admitted, admit, IsAdmitted, SubAgentManager,
}

abbrev none_closed : ℕ → Bool
none_closed s = false

abbrev idle_manager : SubAgentManager
idle_manager = record {
  parent = init none;
  max_concurrent = 2;
  active = [];
  retired = [];
  controllers = λ n. init none;
  next_child = 0;
  counts = [];
}

idle_manager-IsAdmitted : IsAdmitted idle_manager
idle_manager-IsAdmitted = record { within = omega arith; known = tt }

abbrev one_child : SubAgentManager
one_child = admitted none_closed 7 idle_manager

one_child-IsAdmitted : IsAdmitted one_child
unfolding admit cancel_requested
one_child-IsAdmitted =
    admit-IsAdmitted none_closed 7 0 idle_manager one_child idle_manager-IsAdmitted refl

finish-IsAdmitted_example : IsAdmitted (finish none_closed none_closed true 7 0 one_child)
unfolding erase
finish-IsAdmitted_example =
    finish-IsAdmitted none_closed none_closed true 7 0 one_child one_child-IsAdmitted tt
