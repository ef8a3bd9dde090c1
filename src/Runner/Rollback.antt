-- ===== src/Runner/Rollback.antt =====
-- What a rebuild that fails leaves of the configuration.
use deep_agent_cli.Prelude.{
  String, ◌≡◌, refl, ap, ◌∙◌, Bool, true, false, ◌&&◌, Option, none, List, [], arith,
  nat_comparable, text_comparable, if◌then◌else◌, is_some,
}
use deep_agent_cli.Runner.Config.{if_given, ConfigEvent, SandboxMode, save_pending_config, Config}
use deep_agent_cli.Runner.Pending.{
  applied_sandbox, id_of, record_choice, commit, choose, clear_pending, changes_agent, apply_choice,
  keep_choice, has_pending, apply_pending_runtime_config, Choice,
}
use deep_agent_cli.Python.{Python}

abbrev pub Keeps : Config → Config → Type 0
Keeps c c' =
    (c'.current_model_id ≡ c.current_model_id)
    × (c'.permission_mode ≡ c.permission_mode)
    × (c'.reasoning_effort ≡ c.reasoning_effort)
    × ((mcp_dirty : Bool) → has_pending mcp_dirty c' ≡ mcp_dirty)

-- Nothing is left of a choice after a failed rebuild, or nothing was chosen.
kept_nothing :
    (mcp_dirty : Bool) (ch : Choice)
    → let ch' = keep_choice (changes_agent mcp_dirty ch && true) ch in
      (ch'.model_id ≡ none) × (ch'.mode ≡ none) × (ch'.effort ≡ none)
kept_nothing mcp_dirty ch = (ground arith, ground arith, ground arith)

and_false : (b : Bool) → (b && false) ≡ false
and_false true = refl
and_false false = refl

commit-Keeps :
    (ch : Choice) (c d : Config) (applied : Option SandboxMode)
    → d ≡ c
    → (ch.model_id ≡ none) × (ch.mode ≡ none) × (ch.effort ≡ none)
    → Keeps c (clear_pending applied (commit ch d))
commit-Keeps ch c d applied same nothing = (
  ap (λ m. if is_some m then id_of ch.profile d.current_model_id else d.current_model_id) nothing.0
      ∙ ap (λ (x : Config). x.current_model_id) same,
  ap (λ m. if_given m d.permission_mode) nothing.1 ∙ ap (λ (x : Config). x.permission_mode) same,
  ap (λ e. if_given e d.reasoning_effort) nothing.2 ∙ ap (λ (x : Config). x.reasoning_effort) same,
  λ dirty. refl,
)

apply_choice-Keeps :
    (now : String) (mcp_dirty sandbox_fails : Bool) (ch : Choice) (c : Config)
    → Keeps c (apply_choice now mcp_dirty true sandbox_fails ch c)
unfolding save_pending_config
apply_choice-Keeps now mcp_dirty sandbox_fails ch c =
    commit-Keeps (keep_choice (changes_agent mcp_dirty ch && true) ch) c _
      (applied_sandbox sandbox_fails c.pending_sandbox_mode c)
      (ap (λ b. if b then record_choice now ch c else c) (and_false (changes_agent mcp_dirty ch)))
      (kept_nothing mcp_dirty ch)

either-Keeps :
    (c : Config) (b : Bool) (x : Config × List ConfigEvent)
    → (b ≡ false → (mcp_dirty : Bool) → has_pending mcp_dirty c ≡ mcp_dirty)
    → Keeps c x.0
    → Keeps c (if b then x else (c, [])).0
either-Keeps c true x none_waits k = k
either-Keeps c false x none_waits k = (refl, refl, refl, none_waits refl)

-- Where the agent cannot be rebuilt, the model, the permission mode and the effort in force stay, and
-- still no model, mode, effort or sandbox mode waits any more: from then on the configuration has
-- something pending just where the MCP tools are out of date, as they stay after the failure.
pub failed_rebuild-Keeps :
    (now : String) (mcp_dirty sandbox_fails : Bool) (py : Python) (c : Config)
    → Keeps c (apply_pending_runtime_config now mcp_dirty true sandbox_fails py c).0
unfolding apply_pending_runtime_config
failed_rebuild-Keeps now mcp_dirty sandbox_fails py c =
    either-Keeps c (has_pending mcp_dirty c) _ (λ h dirty. none_pending h dirty)
      (apply_choice-Keeps now mcp_dirty sandbox_fails (choose py c) c)
  where
    none_pending : has_pending mcp_dirty c ≡ false → (dirty : Bool) → has_pending dirty c ≡ dirty
    none_pending h dirty = ground (arith, h)
