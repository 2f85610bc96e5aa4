-- ===== src/Agents/Batches/Tests.antt =====
-- Runs of batching.py at concrete inputs.
use code_explorer.Base.{
  String, false, none, some, List, [], ◌∷◌, ◌≡◌, ◌↔◌, ◌==◌, refl, length, if◌then◌else◌,
}
use code_explorer.Execution.Result.{Outcome, returned, raised, value_error}
use code_explorer.Execution.Exec.{◌>>=◌}
use code_explorer.Agents.Json.{Json, null, string, array, object, end, item, closed, member, Python}
use code_explorer.Agents.Batches.{
  ModelResponseMetadata, AnalysisBatches, Batch, ModelMessage, rows_of, report_transport_complete,
  start, select, observe, observe_value, observe_results, observe_result, observe_members,
  observe_content, show_matches, show_range, show_detail, keep_frame, keep_if, mark_visible,
  batch_of, publish, publish_checked, evidence_message,
}
use code_explorer.Agents.Batches.Consistent.{IsConsistent}
use code_explorer.Agents.Batches.Publish.{
  Call, select_evidence, observe_messages, publish_batch, run_call, run_calls, publish_atomic,
  batches-IsConsistent,
}
use code_explorer.Agents.Batches.Transport.{IsWhole}
use code_explorer.Agents.Batches.Accepted.{IsPublishable, publish_iff}
use code_explorer.Agents.Batches.Evidence.{Fills, evidence_message-Fills}

-- A page of an item's detail, as a tool returns it.
abbrev page : Json
page = object (
    member "content"
      (object (
        member "view" (string "detail")
          (member "id" (string "e1") (member "items" (array (item null end)) closed))))
      closed)

abbrev py : Python
py = record {
  loads = λ s. if s == "page" then some page else none;
  dumps = λ _. "page";
  str = λ v. elim v [ string s ↦ s | _ ↦ "" ];
  is_nonzero = λ n. n == "1";
}

abbrev whole : ModelResponseMetadata
whole = record {
  finish_reason = some "tool_calls";
  response_status = none;
  incomplete_reason = none;
  refused = false;
}

abbrev parse : String → Outcome String
parse s = if s == "" then raised (value_error "empty") else returned s

abbrev render : String → String
render s = s

abbrev message : ModelMessage
message = record { role = "tool"; content = some "page" }

abbrev calls : List (Call parse render)
calls =
    select_evidence "e1"
    ∷ publish_batch "ledger" ("e1" ∷ []) []
    ∷ observe_messages (message ∷ [])
    ∷ publish_batch "ledger" ("e1" ∷ []) []
    ∷ select_evidence "e1"
    ∷ []

-- The item is reported once it has been shown, and cannot be opened again.
reported_once :
    let b = run_calls parse render py calls (start whole) in
    (length b.reports ≡ 1) × (b.active_ids ≡ []) × (b.completed_ids ≡ "e1" ∷ [])
unfolding run_calls run_call select observe observe_value observe_results observe_result
    observe_members observe_content show_matches show_range show_detail keep_frame keep_if
    mark_visible publish publish_checked report_transport_complete ◌>>=◌
reported_once = (refl, refl, refl)

abbrev opened : AnalysisBatches String
opened = record (start whole) { active_ids = "e1" ∷ []; visible_ids = [] }

batches-IsConsistent_example : IsConsistent (run_calls parse render py calls (start whole))
batches-IsConsistent_example = batches-IsConsistent parse render py calls whole

abbrev ready : AnalysisBatches String
ready = record opened { visible_ids = "e1" ∷ [] }

publish_iff_example :
    ((batch : Batch String) × ((publish parse render "ledger" ("e1" ∷ []) [] ready).0
        ≡ returned batch))
    ↔ (IsWhole ready.metadata
        × ((l : String) × (parse "ledger" ≡ returned l))
        × IsPublishable parse render ("e1" ∷ []) [] ready)
publish_iff_example = publish_iff parse render "ledger" ("e1" ∷ []) [] ready

-- It holds in that state.
published :
    (batch : Batch String) × ((publish parse render "ledger" ("e1" ∷ []) [] ready).0
      ≡ returned batch)
unfolding publish publish_checked report_transport_complete ◌>>=◌
published = (batch_of parse render "ledger" ("e1" ∷ []) [] ready, refl)

publish_atomic_example : (publish parse render "ledger" ("e1" ∷ []) [] opened).1 ≡ opened
unfolding publish publish_checked report_transport_complete ◌>>=◌
publish_atomic_example =
    publish_atomic parse render "ledger" ("e1" ∷ []) [] opened
      (value_error "批次 ID 必须覆盖本批所选且已展示的证据；不能提交尚未读取的 ID。") refl

abbrev archived : AnalysisBatches String
archived = record (start whole) {
  archives =
      record { batch_id = 1; observations = page ∷ null ∷ [] }
      ∷ record { batch_id = 2; observations = page ∷ [] }
      ∷ [];
}

evidence_message-Fills_example :
    Fills
      (λ e. length e.observations)
      2
      (rows_of archived.archives)
      (record { observations = []; omitted = length (rows_of archived.archives) })
      (evidence_message (λ e. length e.observations) 2 archived)
evidence_message-Fills_example = evidence_message-Fills (λ e. length e.observations) 2 archived
