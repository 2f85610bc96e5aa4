-- ===== src/Agents/Batches/Accepted.antt =====
-- When `publish` of batching.py makes a batch, described by membership and by the fields of a response.
use code_explorer.Base.{
  String, true, false, ◌&&◌, List, [], ◌∷◌, ◌≡◌, ◌≢◌, ◌↔◌, refl, arith, ◌⊎◌, inl, inr, In, elem_iff,
}
use code_explorer.Execution.Contracts.{is_empty}
use code_explorer.Execution.Result.{Outcome, returned}
use code_explorer.Agents.Batches.{AnalysisBatches, Batch, to_set, is_subset, batch_of, publish}
use code_explorer.Agents.Batches.Sets.{elem-add_all}
use code_explorer.Agents.Batches.Publish.{Passes, publish_cases}
use code_explorer.Agents.Batches.Transport.{IsWhole, transport-IsWhole}

is_subset_iff :
    (xs ys : List String) → (is_subset xs ys ≡ true) ↔ ((i : String) → In i xs → In i ys)
is_subset_iff [] ys = (λ h i m. elim m [ ], λ k. refl)
is_subset_iff (x ∷ xs) ys = (
  λ h i m. elim m [
    | inl e ↦ (elem_iff i ys).0 (rw e (ground (arith, h)))
    | inr m' ↦ (is_subset_iff xs ys).0 (ground (arith, h)) i m'
  ],
  λ k.
      ground
        (arith, (elem_iff x ys).1 (k x (inl refl)), (is_subset_iff xs ys).1 (λ i m. k i (inr m))),
)

to_set_iff : (i : String) (ids : List String) → In i (to_set ids) ↔ In i ids
to_set_iff i ids = (
  λ m. (elem_iff i ids).0 (ground (arith, elem-add_all i ids [], (elem_iff i (to_set ids)).1 m)),
  λ m. (elem_iff i (to_set ids)).0 (ground (arith, elem-add_all i ids [], (elem_iff i ids).1 m)),
)

set_is_subset_iff :
    (xs ys : List String) → (is_subset (to_set xs) ys ≡ true) ↔ ((i : String) → In i xs → In i ys)
set_is_subset_iff xs ys = (
  λ h i m. (is_subset_iff (to_set xs) ys).0 h i ((to_set_iff i xs).1 m),
  λ k. (is_subset_iff (to_set xs) ys).1 (λ i m. k i ((to_set_iff i xs).0 m)),
)

is_empty-to_set : (ids : List String) → is_empty (to_set ids) ≡ is_empty ids
is_empty-to_set [] = refl
is_empty-to_set (x ∷ xs) = has_item (to_set (x ∷ xs)) ((to_set_iff x (x ∷ xs)).1 (inl refl))
  where
    has_item : (ys : List String) → In x ys → is_empty ys ≡ false
    has_item [] m = elim m [ ]
    has_item (y ∷ ys) m = refl

some_given_iff :
    (scopes ids : List String)
    → ((is_empty scopes && is_empty ids) ≡ false) ↔ ((scopes ≢ []) ⊎ (ids ≢ []))
some_given_iff [] [] = (λ h. cc, λ k. elim k [ inl e ↦ absurd (e refl) | inr e ↦ absurd (e refl) ])
some_given_iff [] (i ∷ ids) = (λ _. inr (λ e. cc e), λ _. refl)
some_given_iff (s ∷ scopes) ids = (λ _. inl (λ e. cc e), λ _. refl)

module _ {Ledger : Type 0} (parse_ledger : String → Outcome Ledger) (render : Ledger → String) where
  -- A batch names what is open, all of it shown, and ranges of lines in sight.
  pub record IsPublishable (ids scopes : List String) (b : AnalysisBatches Ledger) : Type 0 where
    pub current : (i : String) → In i ids ↔ In i b.active_ids
    pub seen : (i : String) → In i ids → In i b.visible_ids
    pub something : (scopes ≢ []) ⊎ (ids ≢ [])
    pub in_sight : (s : String) → In s scopes → In s b.scopes

  Passes-IsPublishable :
      (ids scopes : List String) (b : AnalysisBatches Ledger)
      → Passes parse_ledger render ids scopes b ↔ IsPublishable ids scopes b
  Passes-IsPublishable ids scopes b = (
    λ k. record {
      current = λ i. (
        (set_is_subset_iff ids b.active_ids).0 (ground (arith, k.whole)) i,
        λ m.
            (to_set_iff i ids).0
              ((is_subset_iff b.active_ids (to_set ids)).0 (ground (arith, k.whole)) i m),
      );
      seen = (set_is_subset_iff ids b.visible_ids).0 k.seen;
      something = (some_given_iff scopes ids).0 (rw is_empty-to_set at k.something);
      in_sight = (set_is_subset_iff scopes b.scopes).0 k.in_sight;
    },
    λ w. record {
      whole = ground (
        arith,
        (set_is_subset_iff ids b.active_ids).1 (λ i. (w.current i).0),
        (is_subset_iff b.active_ids (to_set ids)).1
            (λ i m. (to_set_iff i ids).1 ((w.current i).1 m)),
      );
      seen = (set_is_subset_iff ids b.visible_ids).1 w.seen;
      something = rw is_empty-to_set ((some_given_iff scopes ids).1 w.something);
      in_sight = (set_is_subset_iff scopes b.scopes).1 w.in_sight;
    },
  )

  -- `publish` makes a batch exactly if the response has been transmitted whole, the ledger can be
  -- read, the items named are the open ones and have all been shown, an item or a range of lines is
  -- named, and each range has been shown. A response is whole if it is not refused, gives no reason
  -- to be incomplete, has neither a failed status nor a cut end, and has ended in a way that is known,
  -- be it to ask for a tool.
  pub publish_iff :
      (json : String) (ids scopes : List String) (b : AnalysisBatches Ledger)
      → ((batch : Batch Ledger) × ((publish parse_ledger render json ids scopes b).0
            ≡ returned batch))
        ↔ (IsWhole b.metadata
            × ((l : Ledger) × (parse_ledger json ≡ returned l))
            × IsPublishable ids scopes b)
  publish_iff json ids scopes b = elim (publish_cases parse_ledger render json ids scopes b) [
    | inl (l, p, k, t, run) ↦ (
      λ _. ((transport-IsWhole b.metadata).0 t, (l, p), (Passes-IsPublishable ids scopes b).0 k),
      λ _. (batch_of parse_ledger render l (to_set ids) scopes b, rw run refl),
    )
    | inr (x, run, refuse) ↦ (
      λ (batch, h). cc (rw run at h),
      λ (w, l, k). absurd (
          refuse ((transport-IsWhole b.metadata).1 w) (l, (Passes-IsPublishable ids scopes b).1 k)),
    )
  ]
