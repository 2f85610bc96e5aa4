-- ===== src/Agents/Window/Tests.antt =====
-- Runs of conversation_window.py at concrete rounds.
use code_explorer.Base.{
  ℕ, ◌+◌, ◌≤◌, String, Bool, true, false, none, List, [], ◌∷◌, ◌≡◌, refl, length, leb, ◌&&◌, ◌==◌,
  ◌⊎◌, Option, some, suc,
}
use code_explorer.Agents.Window.{
  WindowMessage, initial, given, tool, Observation, ToolRound, Codec, Window, ended, fits, limit_of,
  round_messages, keep_limited, keep_round, keep_rounds, render_conversation_window,
}
use code_explorer.Agents.Window.Bisection.{limit_of-IsEdge}
use code_explorer.Agents.Window.Fits.{render_conversation_window_fits}

abbrev codec : Codec
codec = record {
  encoded_length = λ o. 4;
  compact = λ o n. record o { body = "..." };
  encoded_result = λ o. o.body;
  projection = λ i o. o.body;
}

abbrev result : String → Observation
result i = record { call_id = i; body = "found" }

abbrev rounds : List ToolRound
rounds =
    record { assistant = "a"; observations = result "c1" ∷ result "c2" ∷ [] }
    ∷ record { assistant = "b"; observations = result "c3" ∷ [] }
    ∷ []

-- At most five messages.
abbrev five : List WindowMessage → Bool
five ms = leb (length ms) 5

abbrev window : Window
window = record {
  messages = initial 1 0 ∷ given "b" ∷ tool "c3" "found" ∷ given "end" ∷ [];
  total_observations = 3;
  included_observations = 1;
  compacted_observations = 0;
  omitted_observations = 2;
}

render_conversation_window_fits_example : (five window.messages ≡ true) × (0 ≤ 1) × (1 + 2 ≡ 3)
unfolding render_conversation_window keep_rounds keep_round keep_limited round_messages
render_conversation_window_fits_example =
    render_conversation_window_fits codec false five (given "end" ∷ []) rounds window
      (λ kept m n rest le h. h) refl refl

-- Every text of a tool is compacted.
abbrev short_texts : List WindowMessage → Bool
short_texts [] = true
short_texts (tool _ s ∷ ms) = let rest = short_texts ms in s == "..." && rest
short_texts (_ ∷ ms) = short_texts ms

abbrev newest_round : ToolRound
newest_round = record { assistant = "b"; observations = result "c3" ∷ [] }

limit_of-IsEdge_example :
    let test = (λ (n : ℕ).
      fits codec false short_texts 1 [] [] (round_messages codec false newest_round (some n))) in
    (o : Option ℕ) × (limit_of codec false short_texts 1 [] newest_round [] ≡ ended o)
    × (((o ≡ none) × (test 0 ≡ false))
        ⊎ ((m : ℕ) × (o ≡ some m) × (m ≤ 4) × (test m ≡ true) × ((m ≡ 4) ⊎ (test (suc m) ≡ false))))
limit_of-IsEdge_example = limit_of-IsEdge codec false short_texts 1 [] newest_round []

-- Three characters are the largest limit that compacts a text of four.
found_limit : limit_of codec false short_texts 1 [] newest_round [] ≡ ended (some 3)
unfolding round_messages
found_limit = refl
