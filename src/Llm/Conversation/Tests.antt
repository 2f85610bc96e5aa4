-- ===== src/Llm/Conversation/Tests.antt =====
-- Runs of conversation.py at concrete conversations.
use code_explorer.Base.{ℕ, ◌≤◌, String, none, some, List, [], ◌∷◌, ◌++◌, ◌≡◌, refl}
use code_explorer.Execution.Result.{returned, raised, value_error}
use code_explorer.Llm.Conversation.{
  ToolCall, Message, speech, function_call, function_call_output, add_calls, spoken, validate_from,
  validate_messages, response_items,
}
use code_explorer.Llm.Conversation.Pairing.{requests, answers, validate_messages_pairs}

abbrev question : Message ℕ
question = record {
  role = "user";
  content = some "Which calls?";
  tool_call_id = none;
  tool_calls = [];
  reasoning_content = none;
  provider_items = [];
}

abbrev call : ToolCall
call = record { id = some "c1"; name = "search"; arguments = "{}" }

abbrev asking : Message ℕ
asking = record question {
  role = "assistant";
  content = none;
  tool_calls = call ∷ record call { id = some "c2" } ∷ [];
}

abbrev result : String → Message ℕ
result i = record question { role = "tool"; content = some "found"; tool_call_id = some i }

abbrev opening : List (Message ℕ)
opening = question ∷ asking ∷ result "c2" ∷ []

abbrev ending : List (Message ℕ)
ending = result "c1" ∷ []

-- Results may come in any order, and none may be missing.
accepts :
    (validate_messages (opening ++ ending) ≡ returned tt)
    × (validate_messages opening
        ≡ raised (value_error "Conversation ends with unanswered tool calls"))
unfolding validate_messages validate_from spoken add_calls
accepts = (refl, refl)

items :
    response_items (opening ++ ending)
    ≡ returned (
        speech "user" "Which calls?"
        ∷ function_call (some "c1") "search" "{}"
        ∷ function_call (some "c2") "search" "{}"
        ∷ function_call_output (some "c2") "found"
        ∷ function_call_output (some "c1") "found"
        ∷ [])
unfolding response_items validate_messages validate_from spoken add_calls
items = refl

validate_messages_pairs_example :
    (requests "c1" (opening ++ ending) ≡ answers "c1" (opening ++ ending))
    × (requests "c1" (opening ++ ending) ≤ 1)
    × (answers "c1" opening ≤ requests "c1" opening)
unfolding validate_messages validate_from spoken add_calls
validate_messages_pairs_example = validate_messages_pairs opening ending "c1" refl
