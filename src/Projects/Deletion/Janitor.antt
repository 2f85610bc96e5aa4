-- ===== src/Projects/Deletion/Janitor.antt =====
-- projects/deletion_janitor.py: what its runs make of what a deletion has left.
use code_explorer.Base.{
  ℕ, String, Bool, true, false, Option, none, List, [], ◌∷◌, ◌≡◌, refl, ◌∙◌, ◌⊎◌, inl, inr, arith,
}
use code_explorer.Execution.Contracts.{is_some}
use code_explorer.Projects.Crash.{Fate, goes_through, ◌>>=◌, Reply, answer, exception, killed, Site}
use code_explorer.Projects.Crash.Triple
use code_explorer.Projects.Crash.Triple.{Triple}
use code_explorer.Projects.Files.{Files}
use code_explorer.Projects.Deletion.{
  recover_as, recover, cleanup_pending_operation, Recovery, restored, purged, delete,
}
use code_explorer.Projects.Deletion.Stages.{
  Stage, Settled, Gone, Deleted, Recoverable, staged, settled, gone, deleted, Left, Stage-restore,
  Stage-restore_quarantined_project, Settled-remove,
}
use code_explorer.Projects.Deletion.Ends.{Gone-purge_project, Gone-purge_quarantine, Deleted-remove}
use code_explorer.Projects.Deletion.Rows.{row-cleanup}
use code_explorer.Projects.Deletion.Safety.{AfterDelete, delete-AfterDelete}

module _ {C : Type 0} (w a : Option C) (fate : ℕ → Fate) (Faulty : Type 0)
    (mode : (t : ℕ) → (fate t ≡ goes_through) ⊎ Faulty) where
  abbrev Alive : Files C → Type 0
  Alive = Left w a fate Faulty mode

  abbrev Tidy : Recovery → Files C → Type 0
  Tidy r f = (Settled w a f ⊎ Deleted f) ⊎ (Faulty × Recoverable w a f)

  Tidy-restored :
      (x y : Bool) → Triple Alive (Stage w a x y) (recover_as fate true) (λ _. Settled w a) Alive
  unfolding recover_as
  Tidy-restored x y =
      Triple.Triple-bind Alive {Middle = λ _. Stage w a x false} _ _
        (Triple.Triple-weaken Alive _ (λ f k. k) (λ _ f k. k) (λ f (b, k). (b, staged x y k))
          (Stage-restore w a fate Faulty mode x y))
        λ _.
          Triple.Triple-bind Alive {Middle = λ _. Stage w a false false} _ _
            (Triple.Triple-weaken Alive _ (λ f k. k) (λ _ f k. k)
              (λ f (b, k). (b, staged x false k))
              (Stage-restore_quarantined_project w a fate Faulty mode x false))
            λ _.
              Triple.Triple-bind Alive {Middle = λ _. Settled w a} _ _
                (Triple.Triple-weaken Alive _ (λ f k. k) (λ _ f k. k)
                  (λ f (b, k). (b, elim k [ inl h ↦ staged false false h | inr h ↦ settled h ]))
                  (Settled-remove w a fate Faulty mode))
                λ _. Triple.Triple-pure Alive (λ _. Settled w a) restored

  Tidy-purged : Triple Alive Gone (recover_as fate false) (λ _. Deleted) Alive
  unfolding recover_as
  Tidy-purged =
      Triple.Triple-bind Alive {Middle = λ _ f. Gone f × (Unit {0} → f.workspace_quarantine ≡ none)}
        _ _
        (Triple.Triple-weaken Alive _ (λ f k. k) (λ _ f (k, e). (k, λ _. e))
          (λ f (b, k). (b, gone k)) (Gone-purge_project w a fate Faulty mode))
        λ _.
          Triple.Triple-bind Alive
            {Middle = λ _ f.
              Gone f × (f.workspace_quarantine ≡ none) × (f.artifact_quarantine ≡ none)}
            _ _
            (Triple.Triple-weaken Alive _ (λ f k. k) (λ _ f (k, e, h). (k, e tt, h))
              (λ f (b, k, _). (b, gone k)) (Gone-purge_quarantine w a fate Faulty mode (Unit {0})))
            λ _.
              Triple.Triple-bind Alive {Middle = λ _. Deleted} _ _
                (Triple.Triple-weaken Alive _ (λ f k. k) (λ _ f k. k)
                  (λ f (b, k). (b, elim k [ inl h ↦ gone h | inr h ↦ deleted h ]))
                  (Deleted-remove w a fate Faulty mode))
                λ _. Triple.Triple-pure Alive (λ _. Deleted) purged

  Tidy-recover :
      (pending owned : Bool)
      → Triple Alive
          (λ f. Recoverable w a f × (is_some f.journal ≡ pending) × (f.row ≡ owned))
          (recover fate pending owned)
          Tidy
          Alive
  unfolding recover
  Tidy-recover false owned = record {
    at = λ s (k, p, o). elim k [
      | staged x y h ↦ ground arith
      | settled h ↦ inl (inl h)
      | gone h ↦ ground arith
      | deleted h ↦ inl (inr h)
    ];
  }
  Tidy-recover true true = record {
    at = λ s (k, p, o). elim k [
      | staged x y h ↦
          (Triple.Triple-try Alive {Raised = Alive} {Then = Tidy} _ _ _ (Tidy-restored x y)
              (record { at = λ s' b. inr b }) (λ r. record { at = λ s' h'. inl (inl h') })).at
            s h
      | settled h ↦ ground arith
      | gone h ↦ ground arith
      | deleted h ↦ ground arith
    ];
  }
  Tidy-recover true false = record {
    at = λ s (k, p, o). elim k [
      | staged x y h ↦ ground arith
      | settled h ↦ ground arith
      | gone h ↦
          (Triple.Triple-try Alive {Raised = Alive} {Then = Tidy} _ _ _ Tidy-purged
              (record { at = λ s' b. inr b }) (λ r. record { at = λ s' h'. inl (inr h') })).at
            s h
      | deleted h ↦ ground arith
    ];
  }

  Tidy-cleanup : Triple Alive (Recoverable w a) (cleanup_pending_operation fate) Tidy Alive
  unfolding cleanup_pending_operation ◌>>=◌
  Tidy-cleanup = record {
    at = λ s k. (Tidy-recover (is_some s.files.journal) s.files.row).at s (k, refl, refl);
  }

-- A run that may fail or be killed at any change loses nothing.
pub cleanup-Recoverable :
    {C : Type 0} (w a : Option C) (fate : ℕ → Fate) (s : Site (Files C))
    → Recoverable w a s.files
    → Recoverable w a (cleanup_pending_operation fate s).1.files
cleanup-Recoverable {C} w a fate s k =
    after (cleanup_pending_operation fate s).0 (cleanup_pending_operation fate s).1.files
      ((Tidy-cleanup w a fate (Unit {0}) (λ t. inr tt)).at s k)
  where
    after :
        (r : Reply Recovery) (f : Files C)
        → Triple.Holds
            (Alive w a fate (Unit {0}) (λ t. inr tt))
            (Tidy w a fate (Unit {0}) (λ t. inr tt))
            (Alive w a fate (Unit {0}) (λ t. inr tt))
            r
            f
        → Recoverable w a f
    after (answer x) f (inl (inl h)) = settled h
    after (answer x) f (inl (inr h)) = deleted h
    after (answer x) f (inr h) = h.1
    after (exception e) f h = h.1
    after killed f h = h.1

-- A run whose changes go through puts everything right.
cleanup_calm :
    {C : Type 0} (w a : Option C) (s : Site (Files C))
    → Recoverable w a s.files
    → Settled w a (cleanup_pending_operation (λ _. goes_through) s).1.files
      ⊎ Deleted (cleanup_pending_operation (λ _. goes_through) s).1.files
cleanup_calm {C} w a s k =
    after (cleanup_pending_operation (λ _. goes_through) s).0
      (cleanup_pending_operation (λ _. goes_through) s).1.files
      ((Tidy-cleanup w a (λ _. goes_through) ⊥ (λ t. inl refl)).at s k)
  where
    after :
        (r : Reply Recovery) (f : Files C)
        → Triple.Holds
            (Alive w a (λ _. goes_through) ⊥ (λ t. inl refl))
            (Tidy w a (λ _. goes_through) ⊥ (λ t. inl refl))
            (Alive w a (λ _. goes_through) ⊥ (λ t. inl refl))
            r
            f
        → Settled w a f ⊎ Deleted f
    after (answer x) f (inl h) = h
    after (answer x) f (inr h) = absurd h.0
    after (exception e) f h = absurd h.0
    after killed f h = absurd h.0

-- Runs of the janitor, one after the other.
unfoldable pub cleanups : {C : Type 0} → List (ℕ → Fate) → Site (Files C) → Site (Files C)
cleanups [] s = s
cleanups (fate ∷ fates) s = cleanups fates (cleanup_pending_operation fate s).1

cleanups-Recoverable :
    {C : Type 0} (w a : Option C) (fates : List (ℕ → Fate)) (s : Site (Files C))
    → Recoverable w a s.files
    → Recoverable w a (cleanups fates s).files × ((cleanups fates s).files.row ≡ s.files.row)
unfolding cleanups
cleanups-Recoverable w a [] s k = (k, refl)
cleanups-Recoverable w a (fate ∷ fates) s k =
    let r =
      cleanups-Recoverable w a fates (cleanup_pending_operation fate s).1
        (cleanup-Recoverable w a fate s k) in
    (r.0, r.1 ∙ row-cleanup fate s)

AfterDelete-Recoverable :
    {C : Type 0} (w a : Option C) (fate : ℕ → Fate) (r : Reply (List String)) (f : Files C)
    → AfterDelete w a fate r f
    → Recoverable w a f
unfolding AfterDelete
AfterDelete-Recoverable w a fate (answer ws) f (inl h) = gone h
AfterDelete-Recoverable w a fate (answer ws) f (inr h) = deleted h
AfterDelete-Recoverable w a fate (exception e) f h = h.1
AfterDelete-Recoverable w a fate killed f h = h

-- After a deletion and any runs of the janitor, each of whose changes may go through, fail or be
-- the last that its process makes, a run whose changes go through leaves either the project as it was,
-- or nothing of it, and nothing in quarantine; which of the two, the row tells, as the deletion left it.
pub delete_recovers :
    {C : Type 0} (w a : Option C) (fate : ℕ → Fate) (fates : List (ℕ → Fate))
    (site : Site (Files C))
    → Settled w a site.files
    → let s = (delete fate site).1 in
      let e = (cleanup_pending_operation (λ _. goes_through) (cleanups fates s)).1.files in
      (Settled w a e ⊎ Deleted e) × (e.row ≡ s.files.row)
delete_recovers w a fate fates site k =
    let s = (delete fate site).1 in
    let r =
      AfterDelete-Recoverable w a fate (delete fate site).0 s.files
        (delete-AfterDelete w a fate site k) in
    let t = cleanups-Recoverable w a fates s r in
    (
      cleanup_calm w a (cleanups fates s) t.0,
      row-cleanup (λ _. goes_through) (cleanups fates s) ∙ t.1,
    )
