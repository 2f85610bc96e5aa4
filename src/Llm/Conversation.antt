-- ===== src/Llm/Conversation.antt =====
-- backend/app/llm/conversation.py. A key that a message lacks is none or the empty list; the items that
-- a provider has returned are values of any type.
pub mod Pairing
mod Tests
use code_explorer.Base.{
  ℕ, ◌+◌, String, Bool, true, false, not, ◌&&◌, ◌||◌, Option, none, some, List, [], ◌∷◌, ◌++◌, ◌==◌,
  elem, if◌then◌else◌, map,
}
use code_explorer.Execution.Result.{Outcome, returned, raised, value_error, ◌>>=◌, ◌>>◌}
use code_explorer.Execution.Contracts.{is_empty}

-- A call of a tool; an `id` that is no text is none.
pub record ToolCall : Type 0 where
  pub id : Option String
  pub name : String
  pub arguments : String

pub record Message (J : Type 0) : Type 0 where
  pub role : String
  pub content : Option String
  pub tool_call_id : Option String
  pub tool_calls : List ToolCall
  pub reasoning_content : Option String
  pub provider_items : List J

abbrev pub or_empty : Option String → String
or_empty none = ""
or_empty (some s) = s

-- `pending.remove(call_id)`
abbrev pub remove : String → List String → List String
remove name [] = []
remove name (n ∷ names) = let rest = remove name names in if n == name then rest else n ∷ rest

-- The calls of a message: the identifiers that wait for an answer, and all that have been used.
unfoldable pub add_calls :
    List ToolCall → List String → List String → Outcome (List String × List String)
add_calls [] pending seen = returned (pending, seen)
add_calls (call ∷ calls) pending seen =
    let call_id = or_empty call.id in
    let rest = add_calls calls (call_id ∷ pending) (call_id ∷ seen) in
    if call_id == "" || elem call_id seen
    then raised (value_error "Tool call IDs must be nonempty and unique")
    else rest

pub data ChatItem (J : Type 0) : Type 0 where
  system : String → ChatItem J
  -- a message with the fields that the protocol has
  message : Message J → ChatItem J

pub data ResponseItem (J : Type 0) : Type 0 where
  function_call_output : Option String → String → ResponseItem J
  provider_item : J → ResponseItem J
  function_call : Option String → String → String → ResponseItem J
  speech : String → String → ResponseItem J

module _ {J : Type 0} where
  -- The checks of a message that is no tool's result.
  unfoldable pub spoken :
      Message J → List String → List String → Outcome (List String × List String)
  unfolding add_calls
  spoken m pending seen =
      if not (is_empty pending)
      then raised (value_error "Every tool call must receive a result before the next message")
      else (if not (m.role == "user" || m.role == "assistant")
          then raised (value_error "Invalid conversation message role")
          else (if not (m.role == "assistant") && not (is_empty m.tool_calls)
              then raised (value_error "Only assistant messages may request tools")
              else add_calls m.tool_calls pending seen))

  -- The loop of `validate_messages`.
  unfoldable pub validate_from : List (Message J) → List String → List String → Outcome Unit
  unfolding spoken
  validate_from [] pending seen =
      if is_empty pending
      then returned tt
      else raised (value_error "Conversation ends with unanswered tool calls")
  validate_from (m ∷ messages) pending seen =
      let call_id = or_empty m.tool_call_id in
      let answered = validate_from messages (remove call_id pending) seen in
      let next = λ (sets : List String × List String). validate_from messages sets.0 sets.1 in
      if m.role == "tool"
      then (if elem call_id pending
          then answered
          else raised (value_error "Tool result has no matching pending call"))
      else (spoken m pending seen >>= next)

  unfoldable pub validate_messages : List (Message J) → Outcome Unit
  unfolding validate_from
  validate_messages messages = validate_from messages [] []

  -- `chat_messages`
  unfoldable pub chat_messages : String → List (Message J) → Outcome (List (ChatItem J))
  unfolding validate_messages
  chat_messages instructions messages = do
    validate_messages messages
    returned (
        system instructions
        ∷ map (λ (m : Message J). message (record m { provider_items = [] })) messages)

  abbrev pub call_item : ToolCall → ResponseItem J
  call_item call = function_call call.id call.name call.arguments

  abbrev pub items_of : Message J → List (ResponseItem J)
  items_of m =
      if m.role == "tool"
      then function_call_output m.tool_call_id (or_empty m.content) ∷ []
      else (if not (is_empty m.provider_items)
          then map provider_item m.provider_items
          else (if m.role == "assistant" && not (is_empty m.tool_calls)
              then map call_item m.tool_calls
              else speech m.role (or_empty m.content) ∷ []))

  abbrev pub all_items : List (Message J) → List (ResponseItem J)
  all_items [] = []
  all_items (m ∷ messages) = items_of m ++ all_items messages

  -- `response_items`
  unfoldable pub response_items : List (Message J) → Outcome (List (ResponseItem J))
  unfolding validate_messages
  response_items messages = do validate_messages messages; returned (all_items messages)
