-- ===== src/Examples/Lifecycle.antt =====
-- A run that is ended by a request to exit.
use deep_agent_cli.Prelude.{true, false, nat_comparable, text_comparable}
use deep_agent_cli.Lifecycle.{
  AppLifecycle, View, new_lifecycle, observe, request_exit, shutdown, spawn, waited, succeeded,
}

abbrev view : View
view = record { has_notice = true; has_mcp = true; running = true; raises = λ c. false }

abbrev working_task : AppLifecycle
working_task = (spawn 1 observe new_lifecycle).1

abbrev requested : AppLifecycle
requested = (request_exit view working_task).1

abbrev left : AppLifecycle
left = (shutdown view (λ t. false) (λ t. waited succeeded) requested).1
