-- ===== src/Agents/Batches.antt =====
-- backend/app/agents/batching.py: `AnalysisBatches`. A set is a list without order, a dict a list of
-- its entries. `parse_ledger` and `render` of experiments/findings.py are parameters.
pub mod Sets
pub mod Consistent
pub mod Publish
pub mod Transport
pub mod Accepted
pub mod Evidence
mod Tests
use Prim.Native.String.{compare, len, slice}
use text.Mathlib.Text.{is_le, starts_with}
use code_explorer.Base.{
  ℕ, suc, ◌+◌, ◌-◌, String, Bool, true, false, not, ◌&&◌, ◌||◌, Option, none, some, List, [], ◌∷◌,
  ◌++◌, ◌==◌, length, elem, leb, if◌then◌else◌,
}
use code_explorer.Execution.Result.{Outcome, returned, raised, fault, value_error}
use code_explorer.Execution.Contracts.{is_empty}
use code_explorer.Execution.Exec.{Action, pure, raise, reads, from_result, ◌>>=◌, ◌>>◌}
use code_explorer.Agents.Json.{
  Json, null, boolean, number, string, array, object, Items, Members, Python, to_list, member_of,
  object_of, has, shown, scope_name,
}

-- The fields of a response that say how its transmission has ended.
pub record ModelResponseMetadata : Type 0 where
  pub finish_reason : Option String
  pub response_status : Option String
  pub incomplete_reason : Option String
  pub refused : Bool

abbrev pub is_one_of : Option String → List String → Bool
is_one_of none names = false
is_one_of (some s) names = elem s names

abbrev pub is_given : Option String → Bool
is_given none = false
is_given (some s) = not (s == "")

-- `report_transport_complete` of experiments/report.py, whose `None` is none.
unfoldable pub report_transport_complete : ModelResponseMetadata → Bool → Option Bool
report_transport_complete m allow_tool_calls =
    if m.refused
      || is_given m.incomplete_reason
      || is_one_of m.response_status ("incomplete" ∷ "failed" ∷ "cancelled" ∷ [])
    then some false
    else (if is_one_of m.finish_reason ("length" ∷ "content_filter" ∷ [])
        then some false
        else (if is_one_of m.finish_reason ("tool_calls" ∷ "function_call" ∷ [])
            then some allow_tool_calls
            else (if is_one_of m.finish_reason ("stop" ∷ [])
                  || is_one_of m.response_status ("completed" ∷ [])
                then some true
                else none)))

pub record Batch (Ledger : Type 0) : Type 0 where
  pub batch_id : ℕ
  pub report : String
  pub evidence_ids : List String
  pub ledger : Ledger
  pub scopes : List String

pub record Archive : Type 0 where
  pub batch_id : ℕ
  pub observations : List Json

pub record AnalysisBatches (Ledger : Type 0) : Type 0 where
  pub active_ids : List String
  pub completed_ids : List String
  pub visible_ids : List String
  pub scopes : List String
  pub completed_scopes : List String
  pub reports : List (Batch Ledger)
  pub frames : List (String × Json)
  pub archives : List Archive
  pub metadata : ModelResponseMetadata

-- `role` and `content` of a message; a missing content is none.
pub record ModelMessage : Type 0 where
  pub role : String
  pub content : Option String

-- `names.add(name)`
abbrev pub add : String → List String → List String
add name names = if elem name names then names else name ∷ names

-- `names.update(more)`
abbrev pub add_all : List String → List String → List String
add_all [] names = names
add_all (n ∷ more) names = add n (add_all more names)

-- `set(names)`
abbrev pub to_set : List String → List String
to_set names = add_all names []

-- `sorted(names)`
abbrev pub insert_name : String → List String → List String
insert_name name [] = name ∷ []
insert_name name (n ∷ names) =
    let rest = insert_name name names in
    if is_le (compare name n) then name ∷ n ∷ names else n ∷ rest

abbrev pub sorted : List String → List String
sorted [] = []
sorted (n ∷ names) = insert_name n (sorted names)

-- `xs.issubset(ys)`
abbrev pub is_subset : List String → List String → Bool
is_subset [] ys = true
is_subset (x ∷ xs) ys = elem x ys && is_subset xs ys

-- `frames[key] = value`
abbrev pub put_frame : String → Json → List (String × Json) → List (String × Json)
put_frame key value [] = (key, value) ∷ []
put_frame key value ((k, v) ∷ frames) =
    let rest = put_frame key value frames in if k == key then (k, value) ∷ frames else (k, v) ∷ rest

abbrev pub values : List (String × Json) → List Json
values [] = []
values ((k, v) ∷ frames) = v ∷ values frames

abbrev pub evidence_header : String
evidence_header = "APPLICATION_BATCH_EVIDENCE\n"

-- `text.split("\n", 1)[1]` of a text that starts with the header, whose only newline is its last byte.
abbrev pub after_header : String → String
after_header s = slice s (len evidence_header) (len s)

-- `value in names` for a set of texts: a list or a dict cannot be hashed.
abbrev pub is_in : List String → Option Json → Outcome Bool
is_in names none = returned false
is_in names (some (string s)) = returned (elem s names)
is_in names (some (array _)) = raised fault
is_in names (some (object _)) = raised fault
is_in names (some _) = returned false

abbrev pub is_text : String → Option Json → Bool
is_text s (some (string t)) = t == s
is_text s _ = false

-- The dicts among the values that a `for` goes through; null, a truth value and a number have none
-- to go through.
abbrev pub objects_in : List Json → List Members
objects_in [] = []
objects_in (object ms ∷ xs) = ms ∷ objects_in xs
objects_in (_ ∷ xs) = objects_in xs

abbrev pub iterated : Option Json → Outcome (List Members)
iterated none = returned []
iterated (some (array xs)) = returned (objects_in (to_list xs))
iterated (some (string _)) = returned []
iterated (some (object _)) = returned []
iterated (some _) = raised fault

-- `row.get("result")` of each row
abbrev pub row_results : List Members → List Json
row_results [] = []
row_results (row ∷ rows) =
    elim (member_of "result" row) [ none ↦ null | some v ↦ v ] ∷ row_results rows

abbrev pub results_of : Bool → Json → Outcome (List Json)
results_of true (object ms) = elim (iterated (member_of "observations" ms)) [
  | returned rows ↦ returned (row_results rows)
  | raised e ↦ raised e
]
results_of true value = returned (value ∷ [])
results_of false value = returned (value ∷ [])

abbrev pub content_of : ModelMessage → String
content_of m = elim m.content [ none ↦ "" | some s ↦ s ]

abbrev pub is_projection : ModelMessage → Bool
is_projection m = m.role == "user" && starts_with (content_of m) evidence_header

abbrev pub is_true : Option Bool → Bool
is_true (some b) = b
is_true none = false

-- `ids == active` for sets
abbrev pub is_same_set : List String → List String → Bool
is_same_set xs ys = is_subset xs ys && is_subset ys xs

module _ {Ledger : Type 0} where
  -- A new `AnalysisBatches`
  abbrev pub start : ModelResponseMetadata → AnalysisBatches Ledger
  start metadata = record {
    active_ids = [];
    completed_ids = [];
    visible_ids = [];
    scopes = [];
    completed_scopes = [];
    reports = [];
    frames = [];
    archives = [];
    metadata = metadata;
  }

  abbrev pub modify :
      (AnalysisBatches Ledger → AnalysisBatches Ledger) → Action (AnalysisBatches Ledger) Unit
  modify f b = (returned tt, f b)

  unfoldable pub select : String → Action (AnalysisBatches Ledger) Unit
  select evidence_id b =
      if elem evidence_id b.completed_ids
      then (raised (value_error "该证据已形成批次报告；请查看已有台账，不要重复选择。"), b)
      else (if not (elem evidence_id b.active_ids) && leb 3 (length b.active_ids)
          then (raised (value_error "当前批次最多选择三个证据；请先提交本批报告。"), b)
          else (returned tt, record b { active_ids = add evidence_id b.active_ids }))

  -- `if scope not in self.completed_scopes: self.scopes.add(scope)`
  abbrev pub show_scope : String → AnalysisBatches Ledger → AnalysisBatches Ledger
  show_scope scope b =
      if elem scope b.completed_scopes then b else record b { scopes = add scope b.scopes }

  abbrev pub show_id : String → AnalysisBatches Ledger → AnalysisBatches Ledger
  show_id evidence_id b =
      if elem evidence_id b.active_ids
      then record b { visible_ids = add evidence_id b.visible_ids }
      else b

  unfoldable pub mark_visible : Option Json → Action (AnalysisBatches Ledger) Unit
  mark_visible (some (string evidence_id)) = modify (show_id evidence_id)
  mark_visible (some (array _)) = raise fault
  mark_visible (some (object _)) = raise fault
  mark_visible _ = pure tt

  module _ (py : Python) where
    unfoldable pub keep_if : Bool → Json → Action (AnalysisBatches Ledger) Unit
    keep_if false result = pure tt
    keep_if true result =
        modify (λ b. record b { frames = put_frame (py.dumps result) result b.frames })

    unfoldable pub keep_frame : Json → Members → Action (AnalysisBatches Ledger) Unit
    unfolding keep_if
    keep_frame result content = do
      found ← from_result (
          if has py "text" content || has py "snippets" content || has py "matches" content
          then returned true
          else is_in ("detail" ∷ "coverage" ∷ []) (member_of "view" content))
      keep_if found result

    unfoldable pub show_detail : Members → Action (AnalysisBatches Ledger) Unit
    unfolding mark_visible
    show_detail content =
        if is_text "detail" (member_of "view" content) && has py "items" content
        then mark_visible (member_of "id" content)
        else pure tt

    -- The range of lines that is shown, from a path and a text that are there.
    unfoldable pub show_range :
        Members → Option Json → Option Json → Action (AnalysisBatches Ledger) Unit
    show_range content first last =
        if has py "path" content && has py "text" content
        then modify (
            show_scope (
              scope_name (shown py "None" (member_of "path" content)) (shown py "1" first)
                (shown py "1" last)))
        else pure tt

    unfoldable pub show_matches : List Members → Action (AnalysisBatches Ledger) Unit
    unfolding show_range
    show_matches [] = pure tt
    show_matches (found ∷ matches) =
        let rest = show_matches matches in
        do show_range found (member_of "line" found) (member_of "line" found); rest

    unfoldable pub observe_content : Json → Members → Action (AnalysisBatches Ledger) Unit
    unfolding keep_frame show_detail show_range show_matches
    observe_content result content = do
      keep_frame result content
      show_detail content
      show_range content (member_of "start_line" content) (member_of "end_line" content)
      matches ← from_result (iterated (member_of "matches" content))
      show_matches matches

    unfoldable pub observe_members : Json → Option Json → Action (AnalysisBatches Ledger) Unit
    unfolding observe_content
    observe_members result (some (object content)) = observe_content result content
    observe_members result _ = pure tt

    -- `_observe_result`
    unfoldable pub observe_result : Json → Action (AnalysisBatches Ledger) Unit
    unfolding observe_members
    observe_result (object ms) = observe_members (object ms) (member_of "content" ms)
    observe_result _ = pure tt

    unfoldable pub observe_results : List Json → Action (AnalysisBatches Ledger) Unit
    unfolding observe_result
    observe_results [] = pure tt
    observe_results (result ∷ results) =
        let rest = observe_results results in do observe_result result; rest

    unfoldable pub observe_value : Bool → Option Json → Action (AnalysisBatches Ledger) Unit
    unfolding observe_results
    observe_value is_report none = pure tt
    observe_value is_report (some value) = do
      results ← from_result (results_of is_report value)
      observe_results results

    unfoldable pub observe : List ModelMessage → Action (AnalysisBatches Ledger) Unit
    unfolding observe_value
    observe [] = pure tt
    observe (m ∷ messages) =
        let rest = observe messages in
        let is_report = is_projection m in
        if m.role == "tool" || is_report
        then (do
          observe_value is_report
              (py.loads (if is_report then after_header (content_of m) else content_of m))
          rest)
        else rest

  module _ (parse_ledger : String → Outcome Ledger) (render : Ledger → String) where
    abbrev pub batch_of : Ledger → List String → List String → AnalysisBatches Ledger → Batch Ledger
    batch_of ledger ids scopes b = record {
      batch_id = suc (length b.reports);
      report = render ledger;
      evidence_ids = sorted ids;
      ledger = ledger;
      scopes = sorted (to_set scopes);
    }

    -- The state behind a batch that is published.
    abbrev pub closed_by :
        Batch Ledger → List String → List String → AnalysisBatches Ledger → AnalysisBatches Ledger
    closed_by batch ids scopes b = record {
      active_ids = [];
      completed_ids = add_all ids b.completed_ids;
      visible_ids = [];
      scopes = [];
      completed_scopes = add_all scopes b.completed_scopes;
      reports = b.reports ++ batch ∷ [];
      frames = [];
      archives =
          b.archives ++ record { batch_id = batch.batch_id; observations = values b.frames } ∷ [];
      metadata = b.metadata;
    }

    unfoldable pub publish_checked :
        Ledger → List String → List String → Action (AnalysisBatches Ledger) (Batch Ledger)
    publish_checked ledger ids scopes b =
        if not (is_same_set ids b.active_ids) || not (is_subset ids b.visible_ids)
        then (raised (value_error "批次 ID 必须覆盖本批所选且已展示的证据；不能提交尚未读取的 ID。"), b)
        else (if is_empty scopes && is_empty ids
            then (raised (value_error "批次至少需要一个已展示的源码范围或静态证据 ID。"), b)
            else (if not (is_subset (to_set scopes) b.scopes)
                then (raised (value_error "批次范围包含本轮尚未展示的源码路径。"), b)
                else let batch = batch_of ledger ids scopes b in
                  (returned batch, closed_by batch ids scopes b)))

    unfoldable pub publish :
        String → List String → List String → Action (AnalysisBatches Ledger) (Batch Ledger)
    unfolding publish_checked
    publish ledger_json evidence_ids scopes b =
        if is_true (report_transport_complete b.metadata true)
        then (do
          ledger ← from_result (parse_ledger ledger_json)
          publish_checked ledger (to_set evidence_ids) scopes)
            b
        else (raised (value_error "本批模型输出未完整返回或终止状态未知，不能标记为已分析。"), b)

-- The envelope of `evidence_message`: how many observations it leaves out, and those that it has.
pub record Envelope : Type 0 where
  pub observations : List (ℕ × Json)
  pub omitted : ℕ

abbrev pub with_batch : ℕ → List Json → List (ℕ × Json)
with_batch batch_id [] = []
with_batch batch_id (o ∷ os) = (batch_id, o) ∷ with_batch batch_id os

abbrev pub rows_of : List Archive → List (ℕ × Json)
rows_of [] = []
rows_of (a ∷ archives) = with_batch a.batch_id a.observations ++ rows_of archives

abbrev pub with_row : ℕ × Json → Envelope → Envelope
with_row row e = record { observations = e.observations ++ row ∷ []; omitted = e.omitted - 1 }

-- The rows in order, each taken when the text of the whole stays within the limit.
abbrev pub take_rows : (Envelope → ℕ) → ℕ → List (ℕ × Json) → Envelope → Envelope
take_rows size max_chars [] e = e
take_rows size max_chars (row ∷ rows) e =
    let trial = with_row row e in
    let taken = take_rows size max_chars rows trial in
    let left = take_rows size max_chars rows e in if leb (size trial) max_chars then taken else left

-- `evidence_message`, where `size` is the length of the text that `json.dumps` makes of an envelope.
unfoldable pub evidence_message :
    {Ledger : Type 0} → (Envelope → ℕ) → ℕ → AnalysisBatches Ledger → Envelope
evidence_message size max_chars b =
    let rows = rows_of b.archives in
    take_rows size max_chars rows (record { observations = []; omitted = length rows })
