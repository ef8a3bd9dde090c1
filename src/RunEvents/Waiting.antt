-- ===== src/RunEvents/Waiting.antt =====
-- A request of the locked schema is classified as a confirmation.
use deep_agent_cli.Prelude.{
  ℕ, suc, String, ◌≡◌, refl, ap, ◌∙◌, true, Option, some, List, [], ◌∷◌, ◌++◌, map, arith,
  nat_comparable, text_comparable, length, all,
}
use deep_agent_cli.Value.{
  Fields, text_or_empty, get_or, get, Value, null, boolean, int, object, array, text, other, nil,
  cons, end,
}
use mathlib.Core.Option
use deep_agent_cli.RunEvents.Interrupts.{
  unsupported_payload, classify_payload, both, readable, last_calls, call_name, all_payloads,
  is_valid_hitl_interrupt, Classified, interrupt_payloads, all_requested, is_blank,
  classify_interrupt, classify_payloads, resolve_pending_tool_calls, known, waiting_confirmation,
}
use deep_agent_cli.Prelude.{eq_iff, length-append}
use deep_agent_cli.RunEvents.Interrupts.{
  listed_actions, str_of, is_filled, is_action, to_list, match_calls, requested_actions,
}
use deep_agent_cli.Python.{Python}
use deep_agent_cli.RunEvents.{PendingToolCall}
use deep_agent_cli.Session.Transcript.{Message}

abbrev pub action_count : Value → ℕ
action_count (array items) = length (to_list items)
action_count _ = 0

requested_actions-all :
    (py : Python) (values : List Value)
    → all is_action values ≡ true
    → (requested : List (String × Value)) × (requested_actions py values ≡ some requested)
      × (length requested ≡ length values)
unfolding requested_actions
requested_actions-all py [] h = ([], refl, refl)
requested_actions-all py (object d ∷ values) h =
    let (requested, found, long) = requested_actions-all py values (ground (arith, h)) in
    (
      _,
      ap (Option.map (λ rest. (str_of py (get "name" d), get_or (object end) "args" d) ∷ rest))
          found,
      ap suc long,
    )
requested_actions-all py (null ∷ values) h = ground (arith, h)
requested_actions-all py (boolean b ∷ values) h = ground (arith, h)
requested_actions-all py (int n ∷ values) h = ground (arith, h)
requested_actions-all py (text s ∷ values) h = ground (arith, h)
requested_actions-all py (array items ∷ values) h = ground (arith, h)
requested_actions-all py (other n ∷ values) h = ground (arith, h)

listed_actions-filled :
    (py : Python) (v : Value)
    → is_filled is_action v ≡ true
    → (requested : List (String × Value)) × (listed_actions py v ≡ some requested)
      × (length requested ≡ action_count v)
listed_actions-filled py (array (cons v items)) h = requested_actions-all py (v ∷ to_list items) h
listed_actions-filled py (array nil) h = ground (arith, h)
listed_actions-filled py null h = ground (arith, h)
listed_actions-filled py (boolean b) h = ground (arith, h)
listed_actions-filled py (int n) h = ground (arith, h)
listed_actions-filled py (text s) h = ground (arith, h)
listed_actions-filled py (object d) h = ground (arith, h)
listed_actions-filled py (other n) h = ground (arith, h)

length-match_calls :
    (requested : List (String × Value)) (calls : List (String × String))
    → length (match_calls requested calls) ≡ length requested
unfolding match_calls
length-match_calls [] calls = refl
length-match_calls ((name, args) ∷ requested) calls = ap suc (length-match_calls requested _)

blank_text :
    (to_text : Value → String) (v : Value) → is_blank v ≡ true → text_or_empty to_text v ≡ ""
unfolding text_or_empty
blank_text to_text null h = refl
blank_text to_text (text s) h = (eq_iff s "").0 h
blank_text to_text (boolean b) h = ground (arith, h)
blank_text to_text (int n) h = ground (arith, h)
blank_text to_text (array items) h = ground (arith, h)
blank_text to_text (object d) h = ground (arith, h)
blank_text to_text (other n) h = ground (arith, h)

abbrev pub confirms : Fields → List PendingToolCall → Classified
confirms d tools =
    known (record { kind = waiting_confirmation; payload = d; pending_tools = tools })

resolve-valid :
    (py : Python) (value_of : ℕ → Option Value) (d : Fields) (messages : Option (List Message))
    → is_filled is_action (get "action_requests" d) ≡ true
    → (tools : List PendingToolCall) × (resolve_pending_tool_calls py value_of (object d) messages
        ≡ some tools)
      × (length tools ≡ action_count (get "action_requests" d))
unfolding resolve_pending_tool_calls all_requested
resolve-valid py value_of d messages h =
    let (requested, found, long) = listed_actions-filled py (get "action_requests" d) h in
    (
      match_calls (requested ++ []) (map (call_name py) (last_calls (readable messages))),
      ap
          (λ o.
            Option.map (λ r. match_calls r (map (call_name py) (last_calls (readable messages))))
              (both o (some [])))
          found,
      omega (
        arith,
        length-match_calls (requested ++ []) (map (call_name py) (last_calls (readable messages))),
        length-append requested [],
        long,
      ),
    )

classify-valid :
    (py : Python) (pending : Option (List PendingToolCall)) (d : Fields)
    (tools : List PendingToolCall)
    → pending ≡ some tools
    → is_valid_hitl_interrupt d ≡ true
    → py.lower (py.strip (text_or_empty py.to_text (get "type" d))) ≡ ""
    → classify_payloads py pending d (d ∷ []) ≡ confirms d tools
unfolding classify_payloads
classify-valid py pending d tools found valid untyped =
    ap (λ kind. classify_payload py pending kind d (unsupported_payload d)) untyped
    ∙ ground (arith, found, valid)

-- A request of the locked schema alone is a confirmation, with one pending call for each action
-- that it requests, whatever the state of the graph says of the calls. The empty text is its own
-- stripped and lower-case text.
pub valid_request_waits :
    (py : Python) (value_of : ℕ → Option Value) (d : Fields) (messages : Option (List Message))
    → py.lower (py.strip "") ≡ ""
    → is_valid_hitl_interrupt d ≡ true
    → (tools : List PendingToolCall) × (classify_interrupt py value_of (object d) messages
        ≡ confirms d tools)
      × (length tools ≡ action_count (get "action_requests" d))
unfolding classify_interrupt interrupt_payloads all_payloads is_valid_hitl_interrupt
valid_request_waits py value_of d messages empty valid =
    let blank : is_blank (get "type" d) ≡ true = ground (arith, valid) in
    let filled : is_filled is_action (get "action_requests" d) ≡ true = ground (arith, valid) in
    let (tools, found, long) = resolve-valid py value_of d messages filled in
    (
      tools,
      classify-valid py _ d tools found valid
          (ap (λ t. py.lower (py.strip t)) (blank_text py.to_text (get "type" d) blank) ∙ empty),
      long,
    )
