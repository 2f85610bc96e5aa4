-- ===== src/Agents/History.antt =====
-- run_store.py: what the replay of a run shows of its events.
use code_explorer.Base.{
  String, Bool, true, false, Option, none, some, List, [], ◌∷◌, ◌==◌, ◌≡◌, refl, arith, ap, ◌∙◌,
  sym, inl, inr, elem, eq_iff, eq_refl, if◌then◌else◌, Bool-cases, Option-cases,
}
use code_explorer.Agents.Store.{Event}

-- `_HISTORY_EVENT_FIELDS`
abbrev pub history_event_fields : List (String × List String)
history_event_fields =
    ("batch.selected", "batch_id" ∷ "evidence_ids" ∷ "status" ∷ [])
    ∷ (
      "batch.completed",
      "batch_id" ∷ "report" ∷ "evidence_ids" ∷ "evidence_id_semantics" ∷ "scopes" ∷ "status"
          ∷ "semantic_coverage" ∷ "metadata" ∷ [],
    )
    ∷ (
      "batch.report_rejected",
      "reason" ∷ "actual_chars" ∷ "max_chars" ∷ "overflow_chars" ∷ "representation" ∷ [],
    )
    ∷ ("paths.returned", "step" ∷ "call_id" ∷ "references" ∷ [])
    ∷ (
      "paths.send_attempt",
      "step" ∷ "attempt" ∷ "request_id" ∷ "audit_request_id" ∷ "wire_sha256" ∷ "references"
          ∷ "semantics" ∷ [],
    )
    ∷ (
      "paths.request_resolved",
      "step" ∷ "request_id" ∷ "status" ∷ "status_code" ∷ "error_type" ∷ "reference_ids"
          ∷ "model_use" ∷ [],
    )
    ∷ (
      "paths.model_observed",
      "step" ∷ "requested" ∷ "declared_report_ids" ∷ "explicit_id_mentions" ∷ "semantics" ∷ [],
    )
    ∷ (
      "batch.pending",
      "batch_id" ∷ "evidence_ids" ∷ "scopes" ∷ "status" ∷ "semantic_coverage" ∷ [],
    )
    ∷ (
      "citations.checked",
      "version" ∷ "checked" ∷ "warnings" ∷ "notices" ∷ "references" ∷ "semantic_validation"
          ∷ "semantic_coverage" ∷ "actual_requests_recorded" ∷ [],
    )
    ∷ (
      "audit.completed",
      "version" ∷ "status" ∷ "actual_requests" ∷ "planned_requests" ∷ "audit_write_ms"
          ∷ "audit_snapshot_ms" ∷ [],
    )
    ∷ (
      "run.started",
      "project_id" ∷ "instrumentation_version" ∷ "report_version" ∷ "observation_window_version"
          ∷ "contract_hash" ∷ "execution_policy" ∷ "experiment_protocol" ∷ [],
    )
    ∷ ("context.ready", "project_name" ∷ "characters" ∷ "evidence" ∷ [])
    ∷ (
      "model.started",
      "step" ∷ "investigation_round" ∷ "prompt_chars" ∷ "tool_count" ∷ "request_chars"
          ∷ "max_output_tokens" ∷ "tool_choice" ∷ "tool_schema_count" ∷ "tool_choice_requested"
          ∷ "phase" ∷ "remaining_tool_rounds" ∷ "final_report_mode" ∷ "input_token_estimate"
          ∷ "input_token_budget" ∷ "context_window_tokens" ∷ "capacity_source" ∷ "max_context_chars"
          ∷ "safety_margin_tokens" ∷ "budget_version" ∷ "output_token_parameter"
          ∷ "reasoning_effort" ∷ "output_limit_mode" ∷ "output_reserve_tokens"
          ∷ "output_reserve_basis" ∷ [],
    )
    ∷ (
      "model.completed",
      "step" ∷ "response_chars" ∷ "response_utf8_bytes" ∷ "returned_tool_calls" ∷ "metadata"
          ∷ "actual_model" ∷ [],
    )
    ∷ (
      "context.window",
      "step" ∷ "total_observations" ∷ "included_observations" ∷ "compacted_observations"
          ∷ "omitted_observations" ∷ "conversation_version" ∷ [],
    )
    ∷ ("tool.requested", "step" ∷ "phase" ∷ "call_id" ∷ "name" ∷ "arguments" ∷ [])
    ∷ ("tool.completed", "step" ∷ "phase" ∷ "call_id" ∷ "name" ∷ "evidence" ∷ [])
    ∷ ("tool.failed", "step" ∷ "call_id" ∷ "name" ∷ "error" ∷ [])
    ∷ (
      "run.completed",
      "provider" ∷ "model" ∷ "evidence" ∷ "termination_reason" ∷ "final_response_metadata"
          ∷ "answer_completeness" ∷ [],
    )
    ∷ (
      "run.failed",
      "error" ∷ "error_type" ∷ "retryable" ∷ "status_code" ∷ "error_code" ∷ "retry_after"
          ∷ "request_id" ∷ "termination_reason" ∷ "final_response_metadata" ∷ "answer_completeness"
          ∷ "output_diagnostics" ∷ [],
    )
    ∷ ("run.cancelled", [])
    ∷ []

-- `table.get(key)`
abbrev pub entry : {A : Type 0} → String → List (String × A) → Option A
entry key [] = none
entry key ((k, v) ∷ rows) = let rest = entry key rows in if k == key then some v else rest

-- `{key: payload[key] for key in allowed if key in payload}`
abbrev pub with_field : {A : Type 0} → String → Option A → List (String × A) → List (String × A)
with_field key none rest = rest
with_field key (some v) rest = (key, v) ∷ rest

abbrev pub allowed_part : {A : Type 0} → List String → List (String × A) → List (String × A)
allowed_part [] payload = []
allowed_part (key ∷ keys) payload =
    let rest = allowed_part keys payload in with_field key (entry key payload) rest

module _ {J : Type 0} where
  unfoldable pub history_with : Option (List String) → Event J → Option (Event J)
  history_with none row = none
  history_with (some allowed) row = some (record row { payload = allowed_part allowed row.payload })

  -- `_history_event`
  unfoldable pub history_event : Event J → Option (Event J)
  unfolding history_with
  history_event row = history_with (entry row.event_type history_event_fields) row

same_event : {J : Type 0} (a b : Event J) → some a ≡ some b → a ≡ b
same_event a b h = cc h

entry-other :
    {A : Type 0} (key k : String) (o : Option A) (rest : List (String × A))
    → (k == key) ≡ false
    → entry key (with_field k o rest) ≡ entry key rest
entry-other key k none rest h = refl
entry-other key k (some v) rest h = rw h refl

entry-same :
    {A : Type 0} (key : String) (o : Option A) (rest : List (String × A))
    → (o ≡ none → entry key rest ≡ none)
    → entry key (with_field key o rest) ≡ o
entry-same key none rest h = h refl
entry-same key (some v) rest h = rw (eq_refl key) refl

either_none : {A : Type 0} (b : Bool) (o : Option A) → o ≡ none → (if b then o else none) ≡ none
either_none true o h = h
either_none false o h = refl

entry-allowed_part :
    {A : Type 0} (key : String) (keys : List String) (payload : List (String × A))
    → entry key (allowed_part keys payload) ≡ (if elem key keys then entry key payload else none)
entry-allowed_part key [] payload = refl
entry-allowed_part key (k ∷ keys) payload =
    let ih = entry-allowed_part key keys payload in
    elim (Bool-cases (key == k)) [
      | inl q ↦
          rw (q, sym ((eq_iff key k).0 q))
            (entry-same key (entry key payload) (allowed_part keys payload)
              (λ e. ih ∙ either_none (elem key keys) (entry key payload) e))
      | inr q ↦ rw q (
          entry-other key k (entry k payload) (allowed_part keys payload)
            (ground (arith, q, eq_iff key k, eq_iff k key))
          ∙ ih)
    ]

module _ {J : Type 0} where
  -- An event that the replay shows is of a type in the table, stands at its place, and carries of its
  -- payload the fields that the table allows for the type, as they are, and no other.
  pub history_event_shows :
      (row shown : Event J) (key : String)
      → history_event row ≡ some shown
      → (allowed : List String) × (entry row.event_type history_event_fields ≡ some allowed)
        × (shown.sequence ≡ row.sequence)
        × (shown.event_type ≡ row.event_type)
        × (entry key shown.payload ≡ (if elem key allowed then entry key row.payload else none))
  unfolding history_event history_with
  history_event_shows row shown key h =
      elim (Option-cases (entry row.event_type history_event_fields)) [
        | inl e ↦ absurd (cc (rw e at h))
        | inr (allowed, e) ↦
            let same =
              same_event (record row { payload = allowed_part allowed row.payload }) shown
                (rw e at h) in
            (
              allowed,
              e,
              sym (ap (λ (x : Event J). x.sequence) same),
              sym (ap (λ (x : Event J). x.event_type) same),
              sym (ap (λ (x : Event J). entry key x.payload) same)
                  ∙ entry-allowed_part key allowed row.payload,
            )
      ]
