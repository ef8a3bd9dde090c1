-- ===== src/Permission.antt =====
-- agent/permission.py: the two permission modes and when each is available, with the execution modes
-- of agent/sandbox.py. `normalize` is Python's `value.strip().lower()`.
use deep_agent_cli.Prelude.{
  String, Bool, true, false, Option, none, some, List, [], ◌∷◌, ◌==◌, nat_comparable,
  text_comparable, if◌then◌else◌,
}
use deep_agent_cli.Prelude.Dict.{Dict}

pub data ExecutionMode : Type 0 where
  sandboxed custom : ExecutionMode

pub data PermissionMode : Type 0 where
  ask allow : PermissionMode

pub data Decision : Type 0 where
  approve reject : Decision

-- What a tool's entry in `interrupt_on` allows: given decisions, or `True`.
pub data Approval : Type 0 where
  decisions : List Decision → Approval
  any_decision : Approval

abbrev pub InterruptOn : Type 0
InterruptOn = Dict String Approval

abbrev pub ask_interrupt_on : InterruptOn
ask_interrupt_on =
    ("execute", decisions (approve ∷ reject ∷ []))
    ∷ ("web_search", decisions (approve ∷ reject ∷ []))
    ∷ ("write_file", any_decision)
    ∷ ("edit_file", any_decision)
    ∷ ("delete", any_decision)
    ∷ []

unfoldable pub allow_mode_available : ExecutionMode → Bool
allow_mode_available sandboxed = true
allow_mode_available custom = false

unfoldable pub interrupt_on_for_mode : PermissionMode → InterruptOn
interrupt_on_for_mode allow = []
interrupt_on_for_mode ask = ask_interrupt_on

-- `None` and the empty mapping are both false in Python.
unfoldable pub permission_mode_from_interrupt_on : Option InterruptOn → PermissionMode
permission_mode_from_interrupt_on none = allow
permission_mode_from_interrupt_on (some []) = allow
permission_mode_from_interrupt_on (some (entry ∷ rest)) = ask

abbrev pub mode_value : PermissionMode → String
mode_value ask = "ask"
mode_value allow = "allow"

-- `PermissionMode(...)` raises `ValueError` on any other text.
unfoldable pub parse_permission_mode : (String → String) → String → Option PermissionMode
parse_permission_mode normalize value =
    let text = normalize value in
    if text == "ask" then some ask else if text == "allow" then some allow else none
