-- ===== src/Agents/Batches/Publish.antt =====
-- `publish` of batching.py, and any sequence of calls around it.
use code_explorer.Base.{
  String, true, false, not, ◌&&◌, ◌||◌, List, [], ◌∷◌, ◌≡◌, refl, arith, sym, subst, ◌∙◌, inl, inr,
  ◌⊎◌, All, All-map, elem, Bool-cases,
}
use code_explorer.Execution.Result.{Error, Outcome, returned, raised, value_error}
use code_explorer.Execution.Contracts.{is_empty}
use code_explorer.Execution.Exec.{Preserves, from_result, ◌>>=◌}
use code_explorer.Agents.Json.{Python}
use code_explorer.Agents.Batches.{
  ModelResponseMetadata, AnalysisBatches, Batch, ModelMessage, add_all, to_set, sorted, is_subset,
  is_same_set, start, select, observe, batch_of, closed_by, publish_checked, publish, is_true,
  report_transport_complete,
}
use code_explorer.Agents.Batches.Sets.{
  elem-add_all, All-subset, All-add_all, All-sorted, All-self, Apart, Done, Apart-append,
  Done-append, Done-more,
}
use code_explorer.Agents.Batches.Consistent.{
  IsConsistent, IsConsistent-start, id_lists, scope_lists, map-append_one, Preserves-select,
  Preserves-observe,
}

joined : (xs ns : List String) → All (λ i. elem i (add_all xs ns) ≡ true) xs
joined xs ns = All-map _ _ xs (λ i _ m. elem-add_all i xs ns ∙ ground (arith, m)) (All-self xs)

kept : (i : String) (xs ns : List String) → elem i ns ≡ true → elem i (add_all xs ns) ≡ true
kept i xs ns m = elem-add_all i xs ns ∙ ground (arith, m)

module _ {Ledger : Type 0} (parse_ledger : String → Outcome Ledger) (render : Ledger → String) where
  abbrev Reported :
      Ledger → List String → List String → AnalysisBatches Ledger → AnalysisBatches Ledger
  Reported ledger ids scopes b =
      closed_by parse_ledger render (batch_of parse_ledger render ledger ids scopes b) ids scopes b

  IsConsistent-closed_by :
      (ledger : Ledger) (ids scopes : List String) (b : AnalysisBatches Ledger)
      → is_subset ids b.active_ids ≡ true
      → is_subset (to_set scopes) b.scopes ≡ true
      → IsConsistent b
      → IsConsistent (Reported ledger ids scopes b)
  unfolding Apart
  IsConsistent-closed_by ledger ids scopes b si ss h =
      let batch = batch_of parse_ledger render ledger ids scopes b in
      let new_ids = All-sorted _ ids (All-subset _ ids b.active_ids si h.fresh) in
      let new_ranges =
        All-sorted _ (to_set scopes) (All-subset _ (to_set scopes) b.scopes ss h.new_scopes) in
      let ids_after = sym (map-append_one (λ (r : Batch Ledger). r.evidence_ids) b.reports batch) in
      let scopes_after = sym (map-append_one (λ (r : Batch Ledger). r.scopes) b.reports batch) in
      record {
        few = omega arith;
        visible = tt;
        fresh = tt;
        new_scopes = tt;
        done_ids = subst (Done (add_all ids b.completed_ids)) ids_after (
            Done-append _ (sorted ids) (id_lists b.reports)
              (Done-more b.completed_ids _ _ h.done_ids (λ i m. kept i ids b.completed_ids m))
              (All-sorted _ ids (joined ids b.completed_ids)));
        done_scopes = subst (Done (add_all scopes b.completed_scopes)) scopes_after (
            Done-append _ (sorted (to_set scopes)) (scope_lists b.reports)
              (Done-more b.completed_scopes _ _ h.done_scopes
                (λ i m. kept i scopes b.completed_scopes m))
              (All-sorted _ (to_set scopes)
                (All-add_all _ scopes [] (joined scopes b.completed_scopes) tt)));
        ids_once = subst Apart ids_after (
            Apart-append b.completed_ids (sorted ids) (id_lists b.reports) h.ids_once h.done_ids
              new_ids);
        scopes_once = subst Apart scopes_after (
            Apart-append b.completed_scopes (sorted (to_set scopes)) (scope_lists b.reports)
              h.scopes_once h.done_scopes new_ranges);
      }

  -- The tests that `publish` makes, all passed.
  pub record Passes (ids scopes : List String) (b : AnalysisBatches Ledger) : Type 0 where
    pub whole : is_same_set (to_set ids) b.active_ids ≡ true
    pub seen : is_subset (to_set ids) b.visible_ids ≡ true
    pub something : (is_empty scopes && is_empty (to_set ids)) ≡ false
    pub in_sight : is_subset (to_set scopes) b.scopes ≡ true

  publish_checked_cases :
      (ledger : Ledger) (ids scopes : List String) (b : AnalysisBatches Ledger)
      → (Passes ids scopes b
          × (publish_checked parse_ledger render ledger (to_set ids) scopes b ≡ (
            returned (batch_of parse_ledger render ledger (to_set ids) scopes b),
            Reported ledger (to_set ids) scopes b,
          )))
        ⊎ ((m : String) × (publish_checked parse_ledger render ledger (to_set ids) scopes b
              ≡ (raised (value_error m), b))
            × (Passes ids scopes b → ⊥))
  unfolding publish_checked
  publish_checked_cases ledger ids scopes b =
      elim (Bool-cases (
        not (is_same_set (to_set ids) b.active_ids)
        || not (is_subset (to_set ids) b.visible_ids))) [
          | inl e ↦
              rw e (inr (_, refl, λ (k : Passes ids scopes b). ground (arith, k.whole, k.seen, e)))
          | inr e ↦ elim (Bool-cases (is_empty scopes && is_empty (to_set ids))) [
            | inl e' ↦ rw (e, e') (inr (_, refl, λ (k : Passes ids scopes b). cc (k.something, e')))
            | inr e' ↦ elim (Bool-cases (is_subset (to_set scopes) b.scopes)) [
              | inl s ↦
                  rw (e, e', s)
                    (inl (
                      record {
                        whole = ground (arith, e);
                        seen = ground (arith, e);
                        something = e';
                        in_sight = s;
                      },
                      refl,
                    ))
              | inr s ↦
                  rw (e, e', s) (inr (_, refl, λ (k : Passes ids scopes b). cc (k.in_sight, s)))
            ]
          ]
        ]

  publish_parsed :
      (o : Outcome Ledger) (ids scopes : List String) (b : AnalysisBatches Ledger)
      → ((l : Ledger) × (o ≡ returned l)
          × Passes ids scopes b
          × ((from_result o >>= λ l. publish_checked parse_ledger render l (to_set ids) scopes) b
              ≡ (
                returned (batch_of parse_ledger render l (to_set ids) scopes b),
                Reported l (to_set ids) scopes b,
              )))
        ⊎ ((e : Error) × ((from_result o >>= λ l.
                  publish_checked parse_ledger render l (to_set ids) scopes)
                b
              ≡ (raised e, b))
            × (((l : Ledger) × (o ≡ returned l)) × Passes ids scopes b → ⊥))
  unfolding ◌>>=◌
  publish_parsed (raised e) ids scopes b = inr (e, refl, λ k. cc (k.0.1))
  publish_parsed (returned l) ids scopes b = elim (publish_checked_cases l ids scopes b) [
    | inl (k, run) ↦ inl (l, refl, k, run)
    | inr (m, run, refuse) ↦ inr (value_error m, run, λ k. refuse k.1)
  ]

  -- The two ways in which a publication ends.
  pub publish_cases :
      (json : String) (ids scopes : List String) (b : AnalysisBatches Ledger)
      → ((l : Ledger) × (parse_ledger json ≡ returned l)
          × Passes ids scopes b
          × (is_true (report_transport_complete b.metadata true) ≡ true)
          × (publish parse_ledger render json ids scopes b ≡ (
            returned (batch_of parse_ledger render l (to_set ids) scopes b),
            Reported l (to_set ids) scopes b,
          )))
        ⊎ ((e : Error) × (publish parse_ledger render json ids scopes b ≡ (raised e, b))
            × ((is_true (report_transport_complete b.metadata true) ≡ true)
                → ((l : Ledger) × (parse_ledger json ≡ returned l)) × Passes ids scopes b
                → ⊥))
  unfolding publish
  publish_cases json ids scopes b =
      elim (Bool-cases (is_true (report_transport_complete b.metadata true))) [
        | inr e ↦ rw e (inr (_, refl, λ t _. cc t))
        | inl e ↦ rw e (elim (publish_parsed (parse_ledger json) ids scopes b) [
          | inl (l, p, k, run) ↦ inl (l, p, k, refl, run)
          | inr (x, run, refuse) ↦ inr (x, run, λ _ k. refuse k)
        ])
      ]

  -- A publication that raises has changed nothing.
  pub publish_atomic :
      (json : String) (ids scopes : List String) (b : AnalysisBatches Ledger) (e : Error)
      → (publish parse_ledger render json ids scopes b).0 ≡ raised e
      → (publish parse_ledger render json ids scopes b).1 ≡ b
  publish_atomic json ids scopes b e h = elim (publish_cases json ids scopes b) [
    | inl (l, p, k, t, run) ↦ cc (rw run at h)
    | inr (x, run, refuse) ↦ rw run refl
  ]

  Preserves-publish :
      (json : String) (ids scopes : List String)
      → Preserves IsConsistent (publish parse_ledger render json ids scopes)
  Preserves-publish json ids scopes = record {
    at = λ b h. elim (publish_cases json ids scopes b) [
      | inl (l, p, k, t, run) ↦
          rw run
            (IsConsistent-closed_by l (to_set ids) scopes b (ground (arith, k.whole)) k.in_sight h)
      | inr (x, run, refuse) ↦ rw run h
    ];
  }

  pub data Call : Type 0 where
    select_evidence : String → Call
    observe_messages : List ModelMessage → Call
    publish_batch : String → List String → List String → Call
    -- the orchestrator's assignment of the metadata of a turn
    set_metadata : ModelResponseMetadata → Call

  module _ (py : Python) where
    unfoldable pub run_call : Call → AnalysisBatches Ledger → AnalysisBatches Ledger
    run_call (select_evidence i) b = (select i b).1
    run_call (observe_messages ms) b = (observe py ms b).1
    run_call (publish_batch json ids scopes) b = (publish parse_ledger render json ids scopes b).1
    run_call (set_metadata m) b = record b { metadata = m }

    unfoldable pub run_calls : List Call → AnalysisBatches Ledger → AnalysisBatches Ledger
    run_calls [] b = b
    run_calls (c ∷ cs) b = run_calls cs (run_call c b)

    IsConsistent-run_call :
        (c : Call) (b : AnalysisBatches Ledger) → IsConsistent b → IsConsistent (run_call c b)
    unfolding run_call
    IsConsistent-run_call (select_evidence i) b h = (Preserves-select i).at b h
    IsConsistent-run_call (observe_messages ms) b h = (Preserves-observe py ms).at b h
    IsConsistent-run_call (publish_batch json ids scopes) b h =
        (Preserves-publish json ids scopes).at b h
    IsConsistent-run_call (set_metadata m) b h = record {
      few = h.few;
      visible = h.visible;
      fresh = h.fresh;
      new_scopes = h.new_scopes;
      done_ids = h.done_ids;
      done_scopes = h.done_scopes;
      ids_once = h.ids_once;
      scopes_once = h.scopes_once;
    }

    pub run_calls-IsConsistent :
        (cs : List Call) (b : AnalysisBatches Ledger)
        → IsConsistent b
        → IsConsistent (run_calls cs b)
    unfolding run_calls
    run_calls-IsConsistent [] b h = h
    run_calls-IsConsistent (c ∷ cs) b h =
        run_calls-IsConsistent cs (run_call c b) (IsConsistent-run_call c b h)

    -- Whatever is called on a new ledger, and whatever raises: at most three items are open, no item
    -- that is open has been reported, only open ones count as shown, and no item and no range of lines
    -- stands in two reports.
    pub batches-IsConsistent :
        (cs : List Call) (m : ModelResponseMetadata) → IsConsistent (run_calls cs (start m))
    batches-IsConsistent cs m = run_calls-IsConsistent cs (start m) (IsConsistent-start m)
