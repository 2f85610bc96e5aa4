-- ===== src/Agents/Batches/Consistent.antt =====
-- What any sequence of calls keeps true of `AnalysisBatches`.
use code_explorer.Base.{
  ◌≤◌, String, Bool, true, false, not, ◌&&◌, Option, none, some, List, [], ◌∷◌, ◌++◌, ◌≡◌, refl,
  arith, ap, ◌∙◌, inl, inr, All, All-map, map, elem, length, leb, Bool-cases, if◌then◌else◌,
}
use code_explorer.Execution.Result.{Outcome}
use code_explorer.Execution.Exec.{Action, Preserves, Preserves-bind, pure, from_result}
use code_explorer.Agents.Json.{Json, null, boolean, number, string, array, object, Python, Members}
use code_explorer.Agents.Batches.{
  ModelResponseMetadata, AnalysisBatches, Batch, ModelMessage, add, start, modify, select,
  show_scope, show_id, mark_visible, keep_if, keep_frame, show_detail, show_range, show_matches,
  observe_content, observe_members, observe_result, observe_results, observe_value, observe,
}
use code_explorer.Agents.Batches.Sets.{elem-add, All-add, Apart, Done}

few_added :
    (i : String) (ids : List String)
    → (not (elem i ids) && leb 3 (length ids)) ≡ false
    → length ids ≤ 3
    → length (add i ids) ≤ 3
few_added i ids room le = elim (Bool-cases (elem i ids)) [
  | inl e ↦ rw e le
  | inr e ↦ rw e (ground (arith, rw e at room))
]

pub map-append_one :
    {A B : Type 0} (f : A → B) (xs : List A) (x : A) → map f (xs ++ x ∷ []) ≡ map f xs ++ f x ∷ []
map-append_one f [] x = refl
map-append_one f (y ∷ xs) x = ap (λ ys. f y ∷ ys) (map-append_one f xs x)

module _ {Ledger : Type 0} where
  abbrev pub id_lists : List (Batch Ledger) → List (List String)
  id_lists reports = map (λ (r : Batch Ledger). r.evidence_ids) reports

  abbrev pub scope_lists : List (Batch Ledger) → List (List String)
  scope_lists reports = map (λ (r : Batch Ledger). r.scopes) reports

  -- At most three items are open, none of them has been reported, and only open ones have been shown;
  -- what the reports name is recorded as reported, and no two reports share an item or a range.
  pub record IsConsistent (b : AnalysisBatches Ledger) : Type 0 where
    pub few : length b.active_ids ≤ 3
    pub visible : All (λ i. elem i b.active_ids ≡ true) b.visible_ids
    pub fresh : All (λ i. elem i b.completed_ids ≡ false) b.active_ids
    pub new_scopes : All (λ s. elem s b.completed_scopes ≡ false) b.scopes
    pub done_ids : Done b.completed_ids (id_lists b.reports)
    pub done_scopes : Done b.completed_scopes (scope_lists b.reports)
    pub ids_once : Apart (id_lists b.reports)
    pub scopes_once : Apart (scope_lists b.reports)

  pub IsConsistent-start : (m : ModelResponseMetadata) → IsConsistent (start m)
  unfolding Apart
  IsConsistent-start m = record {
    few = omega arith;
    visible = tt;
    fresh = tt;
    new_scopes = tt;
    done_ids = tt;
    done_scopes = tt;
    ids_once = tt;
    scopes_once = tt;
  }

  Preserves-modify :
      (f : AnalysisBatches Ledger → AnalysisBatches Ledger)
      → ((b : AnalysisBatches Ledger) → IsConsistent b → IsConsistent (f b))
      → Preserves IsConsistent (modify f)
  Preserves-modify f k = record { at = λ b h. k b h }

  Preserves-pure : {A : Type 0} (a : A) → Preserves IsConsistent (pure a)
  Preserves-pure a = record { at = λ b h. h }

  Preserves-result : {A : Type 0} (o : Outcome A) → Preserves IsConsistent (from_result o)
  Preserves-result o = record { at = λ b h. h }

  IsConsistent-show_scope :
      (s : String) (b : AnalysisBatches Ledger) → IsConsistent b → IsConsistent (show_scope s b)
  IsConsistent-show_scope s b h = elim (Bool-cases (elem s b.completed_scopes)) [
    | inl e ↦ rw e h
    | inr e ↦ rw e (record {
      few = h.few;
      visible = h.visible;
      fresh = h.fresh;
      new_scopes = All-add _ s b.scopes e h.new_scopes;
      done_ids = h.done_ids;
      done_scopes = h.done_scopes;
      ids_once = h.ids_once;
      scopes_once = h.scopes_once;
    })
  ]

  IsConsistent-show_id :
      (i : String) (b : AnalysisBatches Ledger) → IsConsistent b → IsConsistent (show_id i b)
  IsConsistent-show_id i b h = elim (Bool-cases (elem i b.active_ids)) [
    | inr e ↦ rw e h
    | inl e ↦ rw e (record {
      few = h.few;
      visible = All-add _ i b.visible_ids e h.visible;
      fresh = h.fresh;
      new_scopes = h.new_scopes;
      done_ids = h.done_ids;
      done_scopes = h.done_scopes;
      ids_once = h.ids_once;
      scopes_once = h.scopes_once;
    })
  ]

  pub Preserves-select : (i : String) → Preserves IsConsistent (select {Ledger = Ledger} i)
  unfolding select
  Preserves-select i = record {
    at = λ b h. elim (Bool-cases (elem i b.completed_ids)) [
      | inl e ↦ rw e h
      | inr e ↦ elim (Bool-cases (not (elem i b.active_ids) && leb 3 (length b.active_ids))) [
        | inl full ↦ rw (e, full) h
        | inr room ↦
            rw (e, room)
              (record {
                few = few_added i b.active_ids room h.few;
                visible =
                    All-map _ _ b.visible_ids
                      (λ j _ m. elem-add j i b.active_ids ∙ ground (arith, m)) h.visible;
                fresh = All-add _ i b.active_ids e h.fresh;
                new_scopes = h.new_scopes;
                done_ids = h.done_ids;
                done_scopes = h.done_scopes;
                ids_once = h.ids_once;
                scopes_once = h.scopes_once;
              })
      ]
    ];
  }

  Preserves-mark_visible :
      (v : Option Json) → Preserves IsConsistent (mark_visible {Ledger = Ledger} v)
  unfolding mark_visible
  Preserves-mark_visible none = Preserves-pure tt
  Preserves-mark_visible (some (string i)) = Preserves-modify (show_id i) (IsConsistent-show_id i)
  Preserves-mark_visible (some (array _)) = record { at = λ b h. h }
  Preserves-mark_visible (some (object _)) = record { at = λ b h. h }
  Preserves-mark_visible (some null) = Preserves-pure tt
  Preserves-mark_visible (some (boolean _)) = Preserves-pure tt
  Preserves-mark_visible (some (number _)) = Preserves-pure tt

  module _ (py : Python) where
    Preserves-keep_if :
        (found : Bool) (result : Json)
        → Preserves IsConsistent (keep_if {Ledger = Ledger} py found result)
    unfolding keep_if
    Preserves-keep_if false result = Preserves-pure tt
    Preserves-keep_if true result = record {
      at = λ b h. record {
        few = h.few;
        visible = h.visible;
        fresh = h.fresh;
        new_scopes = h.new_scopes;
        done_ids = h.done_ids;
        done_scopes = h.done_scopes;
        ids_once = h.ids_once;
        scopes_once = h.scopes_once;
      };
    }

    Preserves-keep_frame :
        (result : Json) (c : Members)
        → Preserves IsConsistent (keep_frame {Ledger = Ledger} py result c)
    unfolding keep_frame
    Preserves-keep_frame result c =
        Preserves-bind IsConsistent _ _ (Preserves-result _)
          (λ found. Preserves-keep_if found result)

    Preserves-if :
        (b : Bool) (p q : Action (AnalysisBatches Ledger) Unit)
        → Preserves IsConsistent p
        → Preserves IsConsistent q
        → Preserves IsConsistent (if b then p else q)
    Preserves-if true p q h k = h
    Preserves-if false p q h k = k

    Preserves-show_detail :
        (c : Members) → Preserves IsConsistent (show_detail {Ledger = Ledger} py c)
    unfolding show_detail
    Preserves-show_detail c = Preserves-if _ _ _ (Preserves-mark_visible _) (Preserves-pure tt)

    Preserves-show_range :
        (c : Members) (first last : Option Json)
        → Preserves IsConsistent (show_range {Ledger = Ledger} py c first last)
    unfolding show_range
    Preserves-show_range c first last =
        Preserves-if _ _ _ (Preserves-modify (show_scope _) (IsConsistent-show_scope _))
          (Preserves-pure tt)

    Preserves-show_matches :
        (ms : List Members) → Preserves IsConsistent (show_matches {Ledger = Ledger} py ms)
    unfolding show_matches
    Preserves-show_matches [] = Preserves-pure tt
    Preserves-show_matches (m ∷ ms) =
        Preserves-bind IsConsistent _ _ (Preserves-show_range m _ _)
          (λ _. Preserves-show_matches ms)

    Preserves-observe_content :
        (result : Json) (c : Members)
        → Preserves IsConsistent (observe_content {Ledger = Ledger} py result c)
    unfolding observe_content
    Preserves-observe_content result c =
        Preserves-bind IsConsistent _ _ (Preserves-keep_frame result c) (λ _.
          Preserves-bind IsConsistent _ _ (Preserves-show_detail c) (λ _.
            Preserves-bind IsConsistent _ _ (Preserves-show_range c _ _) (λ _.
              Preserves-bind IsConsistent _ _ (Preserves-result _)
                (λ ms. Preserves-show_matches ms))))

    Preserves-observe_members :
        (result : Json) (o : Option Json)
        → Preserves IsConsistent (observe_members {Ledger = Ledger} py result o)
    unfolding observe_members
    Preserves-observe_members result none = Preserves-pure tt
    Preserves-observe_members result (some (object c)) = Preserves-observe_content result c
    Preserves-observe_members result (some null) = Preserves-pure tt
    Preserves-observe_members result (some (boolean _)) = Preserves-pure tt
    Preserves-observe_members result (some (number _)) = Preserves-pure tt
    Preserves-observe_members result (some (string _)) = Preserves-pure tt
    Preserves-observe_members result (some (array _)) = Preserves-pure tt

    Preserves-observe_result :
        (r : Json) → Preserves IsConsistent (observe_result {Ledger = Ledger} py r)
    unfolding observe_result
    Preserves-observe_result (object ms) = Preserves-observe_members (object ms) _
    Preserves-observe_result null = Preserves-pure tt
    Preserves-observe_result (boolean _) = Preserves-pure tt
    Preserves-observe_result (number _) = Preserves-pure tt
    Preserves-observe_result (string _) = Preserves-pure tt
    Preserves-observe_result (array _) = Preserves-pure tt

    Preserves-observe_results :
        (rs : List Json) → Preserves IsConsistent (observe_results {Ledger = Ledger} py rs)
    unfolding observe_results
    Preserves-observe_results [] = Preserves-pure tt
    Preserves-observe_results (r ∷ rs) =
        Preserves-bind IsConsistent _ _ (Preserves-observe_result r)
          (λ _. Preserves-observe_results rs)

    Preserves-observe_value :
        (is_report : Bool) (v : Option Json)
        → Preserves IsConsistent (observe_value {Ledger = Ledger} py is_report v)
    unfolding observe_value
    Preserves-observe_value is_report none = Preserves-pure tt
    Preserves-observe_value is_report (some v) =
        Preserves-bind IsConsistent _ _ (Preserves-result _) (λ rs. Preserves-observe_results rs)

    pub Preserves-observe :
        (ms : List ModelMessage) → Preserves IsConsistent (observe {Ledger = Ledger} py ms)
    unfolding observe
    Preserves-observe [] = Preserves-pure tt
    Preserves-observe (m ∷ ms) =
        let rest = Preserves-observe ms in
        Preserves-if _ _ _
          (Preserves-bind IsConsistent _ _ (Preserves-observe_value _ _) (λ _. rest)) rest
