-- ===== src/Agents/Window.antt =====
-- backend/app/agents/conversation_window.py: the rounds of a conversation that fit into a request.
-- Parameters are the texts that `json.dumps` makes, `compact_observation` of observations.py, and
-- `planner.fits` on the payload of a request with the given messages.
pub mod Bisection
pub mod Fits
mod Tests
use code_explorer.Base.{
  ℕ, suc, zero, ◌+◌, ◌-◌, ◌/◌, String, Bool, true, false, not, ◌&&◌, Option, none, some, List, [],
  ◌∷◌, ◌++◌, length, leb, ltb, max, if◌then◌else◌,
}
use code_explorer.Execution.Result.{Outcome, returned, raised, fault, value_error, ◌>>=◌}

pub data WindowMessage : Type 0 where
  -- the first message, with its notice of what the window leaves out: rounds kept, results compacted
  initial : ℕ → ℕ → WindowMessage
  -- an assistant's or a closing message, as it is
  given : String → WindowMessage
  -- a tool's result, by its call and its text
  tool : String → String → WindowMessage
  -- the projection of a result for a report
  projected : String → WindowMessage

pub record Observation : Type 0 where
  pub call_id : String
  pub body : String

pub record ToolRound : Type 0 where
  pub assistant : String
  pub observations : List Observation

pub record Codec : Type 0 where
  -- `len(encoded(item))`
  pub encoded_length : Observation → ℕ
  -- `compact_observation(item, max_chars)`
  pub compact : Observation → ℕ → Observation
  -- `encoded(item["result"])`, and the text of a report's projection
  pub encoded_result : Observation → String
  pub projection : String → Observation → String

abbrev pub concat_onto : List (List WindowMessage) → List WindowMessage → List WindowMessage
concat_onto [] rest = rest
concat_onto (group ∷ groups) rest = group ++ concat_onto groups rest

abbrev pub reverse_onto : List ToolRound → List ToolRound → List ToolRound
reverse_onto [] done = done
reverse_onto (r ∷ rounds) done = reverse_onto rounds (r ∷ done)

abbrev pub count_observations : List ToolRound → ℕ
count_observations [] = 0
count_observations (r ∷ rounds) = length r.observations + count_observations rounds

module _ (codec : Codec) (report_only : Bool) where
  -- An observation within a limit of characters, which none leaves as it is.
  abbrev pub limited : Option ℕ → Observation → Observation
  limited none o = o
  limited (some n) o = if ltb n (codec.encoded_length o) then codec.compact o n else o

  abbrev pub observation_message : Option ℕ → Observation → WindowMessage
  observation_message limit o =
      let item = limited limit o in
      if report_only
      then projected (codec.projection o.call_id item)
      else tool o.call_id (codec.encoded_result item)

  abbrev pub observation_messages : Option ℕ → List Observation → List WindowMessage
  observation_messages limit [] = []
  observation_messages limit (o ∷ os) = observation_message limit o ∷ observation_messages limit os

  unfoldable pub round_messages : ToolRound → Option ℕ → List WindowMessage
  round_messages r limit =
      let results = observation_messages limit r.observations in
      if report_only then results else given r.assistant ∷ results

  abbrev pub largest : List Observation → ℕ
  largest [] = 0
  largest (o ∷ os) = max (codec.encoded_length o) (largest os)

-- How a search ends: with the last limit that has passed, or for want of fuel.
pub data SearchEnd : Type 0 where
  ended : Option ℕ → SearchEnd
  out_of_fuel : SearchEnd

-- The loop on `low` and `high`, with one more than `high` for its bound, and the last limit that a test
-- has passed.
abbrev pub bisect : ℕ → (ℕ → Bool) → ℕ → ℕ → Option ℕ → SearchEnd
bisect zero test low bound found = if ltb low bound then out_of_fuel else ended found
bisect (suc fuel) test low bound found =
    let middle = (low + (bound - 1)) / 2 in
    let higher = bisect fuel test (suc middle) bound (some middle) in
    let lower = bisect fuel test low middle found in
    if ltb low bound then (if test middle then higher else lower) else ended found

pub record Kept : Type 0 where
  pub groups : List (List WindowMessage)
  pub included : ℕ
  pub compacted : ℕ

module _ (codec : Codec) (report_only : Bool) (planner_fits : List WindowMessage → Bool) (total : ℕ)
    (tail : List WindowMessage) where
  -- `fits`, of a group before the groups that are kept
  abbrev pub fits : List (List WindowMessage) → List WindowMessage → Bool
  fits groups group =
      planner_fits (initial (suc (length groups)) total ∷ group ++ concat_onto groups tail)

  abbrev pub keep_group : List WindowMessage → ℕ → ℕ → Kept → Kept
  keep_group group count compacted k = record {
    groups = group ∷ k.groups;
    included = k.included + count;
    compacted = k.compacted + compacted;
  }

  -- The largest limit that the search finds.
  abbrev pub limit_of : ToolRound → List (List WindowMessage) → SearchEnd
  limit_of r groups =
      bisect (suc (largest codec report_only r.observations))
        (λ n. fits groups (round_messages codec report_only r (some n))) 0
        (suc (largest codec report_only r.observations)) none

  -- The last error stands for a search without fuel, which the source does not have.
  unfoldable pub keep_limited : Bool → ToolRound → SearchEnd → Kept → Outcome Kept
  keep_limited newest r (ended (some n)) k = returned (
      keep_group (round_messages codec report_only r (some n)) (length r.observations)
        (length r.observations) k)
  keep_limited true r (ended none) k = raised fault
  keep_limited false r (ended none) k = returned k
  keep_limited newest r out_of_fuel k = raised (value_error "out of fuel")

  -- One iteration of the loop; `newest` is `index == 0`.
  unfoldable pub keep_round : Bool → ToolRound → Kept → Outcome Kept
  unfolding keep_limited
  keep_round newest r k =
      let group = round_messages codec report_only r none in
      if fits k.groups group
      then returned (keep_group group (length r.observations) 0 k)
      else keep_limited newest r (limit_of r k.groups) k

  unfoldable pub keep_rounds : Bool → List ToolRound → Kept → Outcome Kept
  unfolding keep_round
  keep_rounds newest [] k = returned k
  keep_rounds newest (r ∷ rounds) k = keep_round newest r k >>= keep_rounds false rounds

pub record Window : Type 0 where
  pub messages : List WindowMessage
  pub total_observations : ℕ
  pub included_observations : ℕ
  pub compacted_observations : ℕ
  pub omitted_observations : ℕ

abbrev pub window_of : ℕ → List WindowMessage → Kept → Window
window_of total tail k = record {
  messages = initial (length k.groups) k.compacted ∷ concat_onto k.groups tail;
  total_observations = total;
  included_observations = k.included;
  compacted_observations = k.compacted;
  omitted_observations = total - k.included;
}

unfoldable pub render_conversation_window :
    Codec
    → Bool
    → (List WindowMessage → Bool)
    → List WindowMessage
    → List ToolRound
    → Outcome Window
unfolding keep_rounds
render_conversation_window codec report_only planner_fits tail rounds =
    let total = count_observations rounds in
    keep_rounds codec report_only planner_fits total tail true (reverse_onto rounds [])
      (record { groups = []; included = 0; compacted = 0 })
    >>= λ k. returned (window_of total tail k)
