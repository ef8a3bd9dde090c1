-- ===== src/RunEvents/Interrupts.antt =====
-- agent/run_events.py: what an interrupt of the graph asks for. `value_of` is the attribute `value`
-- of an object that has one; `calls` are the tool calls of the last answer that has any, where the
-- state of the graph can be read.
use deep_agent_cli.Prelude.{
  ℕ, String, Bool, true, false, ◌&&◌, Option, none, some, List, [], ◌∷◌, ◌++◌, map, ◌==◌,
  nat_comparable, text_comparable, if◌then◌else◌, all,
}
use deep_agent_cli.Value.{
  get_or, is_object, truthy, is_text, Value, Items, Fields, null, object, array, text, other, nil,
  cons, end, get, text_or_empty,
}
use deep_agent_cli.Session.Transcript.{ai, Message}
use mathlib.Core.Option
use deep_agent_cli.Python.{Python}
use deep_agent_cli.RunEvents.{PendingToolCall}

pub data InterruptKind : Type 0 where
  paused waiting_human waiting_confirmation runtime_config_boundary : InterruptKind

pub record InterruptState : Type 0 where
  pub kind : InterruptKind
  pub payload : Fields
  pub pending_tools : List PendingToolCall

-- `UnknownInterruptError` and its reasons, or an attribute error of an action that is no dict.
pub data Classified : Type 0 where
  known : InterruptState → Classified
  no_payload : Classified
  unsupported_type : String → Classified
  unsupported_payload : Fields → Classified
  malformed : Classified

abbrev pub to_list : Items → List Value
to_list nil = []
to_list (cons v items) = v ∷ to_list items

abbrev pub items_of : Value → List Value
items_of (array items) = to_list items
items_of v = v ∷ []

-- `str(v)`
abbrev pub str_of : Python → Value → String
str_of py (text s) = s
str_of py v = py.to_text v

abbrev pub payload_of : Value → List Fields
payload_of (object d) = d ∷ []
payload_of _ = []

module _ (value_of : ℕ → Option Value) where
  -- `getattr(v, "value", v)`
  abbrev pub unwrap : Value → Value
  unwrap (other n) = elim (value_of n) [ some v ↦ v | none ↦ other n ]
  unwrap v = v

  unfoldable pub inner_payloads : List Value → List Fields
  inner_payloads [] = []
  inner_payloads (v ∷ values) = payload_of (unwrap v) ++ inner_payloads values

  abbrev pub item_payloads : Value → List Fields
  item_payloads (object d) = d ∷ []
  item_payloads (array items) = inner_payloads (to_list items)
  item_payloads _ = []

  unfoldable pub all_payloads : List Value → List Fields
  all_payloads [] = []
  all_payloads (v ∷ values) = item_payloads (unwrap v) ++ all_payloads values

  unfoldable pub interrupt_payloads : Value → List Fields
  interrupt_payloads interrupts = all_payloads (items_of interrupts)

-- An entry of `action_requests` of the locked schema.
abbrev pub is_action : Value → Bool
is_action (object d) = is_text (get "name" d) && truthy (get "name" d) && is_object (get "args" d)
is_action _ = false

abbrev pub is_array : Value → Bool
is_array (array items) = true
is_array _ = false

abbrev pub is_config : Value → Bool
is_config (object d) = is_text (get "action_name" d) && is_array (get "allowed_decisions" d)
is_config _ = false

abbrev pub is_blank : Value → Bool
is_blank null = true
is_blank (text s) = s == ""
is_blank _ = false

-- A list that is not empty and whose entries all pass.
abbrev pub is_filled : (Value → Bool) → Value → Bool
is_filled p (array (cons v items)) = all p (v ∷ to_list items)
is_filled p _ = false

unfoldable pub is_valid_hitl_interrupt : Fields → Bool
is_valid_hitl_interrupt payload =
    is_blank (get "type" payload)
    && (is_filled is_action (get "action_requests" payload)
        && is_filled is_config (get "review_configs" payload))

-- The names and arguments that one list of actions requests; none if an action is no dict.
unfoldable pub requested_actions : Python → List Value → Option (List (String × Value))
requested_actions py [] = some []
requested_actions py (object d ∷ values) =
    Option.map (λ rest. (str_of py (get "name" d), get_or (object end) "args" d) ∷ rest)
      (requested_actions py values)
requested_actions py (_ ∷ values) = none

abbrev pub listed_actions : Python → Value → Option (List (String × Value))
listed_actions py (array items) = requested_actions py (to_list items)
listed_actions py v = if truthy v then none else some []

abbrev pub actions_in : Python → Value → Option (List (String × Value))
actions_in py (object d) = listed_actions py (get "action_requests" d)
actions_in py _ = some []

abbrev pub both {ℓ} : {A : Type ℓ} → Option (List A) → Option (List A) → Option (List A)
both (some xs) (some ys) = some (xs ++ ys)
both _ _ = none

unfoldable pub all_requested :
    Python → (ℕ → Option Value) → List Value → Option (List (String × Value))
all_requested py value_of [] = some []
all_requested py value_of (v ∷ values) =
    both (actions_in py (unwrap value_of v)) (all_requested py value_of values)

-- `ids.pop(0) if ids else ""` for the calls of this name, and the calls that are left.
unfoldable pub take_call : String → List (String × String) → String × List (String × String)
take_call name [] = ("", [])
take_call name ((n, id) ∷ calls) =
    let (found, rest) = take_call name calls in
    if n == name then (id, calls) else (found, (n, id) ∷ rest)

unfoldable pub match_calls : List (String × Value) → List (String × String) → List PendingToolCall
match_calls [] calls = []
match_calls ((name, args) ∷ requested) calls =
    let (id, rest) = take_call name calls in
    record { tool_call_id = id; name = name; args = args } ∷ match_calls requested rest

abbrev pub call_name : Python → Fields → String × String
call_name py call = (str_of py (get "name" call), str_of py (get "id" call))

-- The calls of the last answer that has any.
unfoldable pub last_calls : List Message → List Fields
last_calls [] = []
last_calls (ai id thinking content calls ∷ messages) = elim (last_calls messages) [
  | [] ↦ calls
  | call ∷ rest ↦ call ∷ rest
]
last_calls (_ ∷ messages) = last_calls messages

abbrev pub readable : Option (List Message) → List Message
readable none = []
readable (some messages) = messages

unfoldable pub resolve_pending_tool_calls :
    Python → (ℕ → Option Value) → Value → Option (List Message) → Option (List PendingToolCall)
resolve_pending_tool_calls py value_of interrupts messages =
    Option.map
      (λ requested. match_calls requested (map (call_name py) (last_calls (readable messages))))
      (all_requested py value_of (items_of interrupts))

module _ (py : Python) (pending : Option (List PendingToolCall)) where
  abbrev confirmation : Fields → Classified
  confirmation payload = elim pending [
    | none ↦ malformed
    | some tools ↦
        known (record { kind = waiting_confirmation; payload = payload; pending_tools = tools })
  ]

  abbrev plain_state : InterruptKind → Fields → Classified
  plain_state kind payload = known (record { kind = kind; payload = payload; pending_tools = [] })

  -- One round of the loop of `classify_interrupt`; `rest` is what the later rounds make.
  abbrev pub classify_payload : String → Fields → Classified → Classified
  classify_payload kind payload rest =
      if kind == "human_input"
      then plain_state waiting_human payload
      else if kind == "pause"
      then plain_state paused payload
      else if kind == "runtime_config_boundary"
      then plain_state runtime_config_boundary payload
      else if is_valid_hitl_interrupt payload
      then confirmation payload
      else if kind == ""
      then rest
      else unsupported_type kind

  -- `first` is the payload that the last error names.
  unfoldable pub classify_payloads : Fields → List Fields → Classified
  classify_payloads first [] = unsupported_payload first
  classify_payloads first (payload ∷ payloads) =
      classify_payload (py.lower (py.strip (text_or_empty py.to_text (get "type" payload)))) payload
        (classify_payloads first payloads)

unfoldable pub classify_interrupt :
    Python → (ℕ → Option Value) → Value → Option (List Message) → Classified
classify_interrupt py value_of interrupts messages =
    classify (interrupt_payloads value_of interrupts)
  where
    classify : List Fields → Classified
    classify [] = no_payload
    classify (payload ∷ payloads) =
        classify_payloads py (resolve_pending_tool_calls py value_of interrupts messages) payload
          (payload ∷ payloads)
