-- ===== src/Projects/Deletion/Safety.antt =====
-- A deletion that is cut short, by failures or by the end of the process, can always be put right.
use code_explorer.Base.{
  ℕ, String, Bool, true, false, Option, none, some, List, [], ◌∷◌, ◌++◌, ◌≡◌, refl, subst, ◌⊎◌, inl,
  inr,
}
use code_explorer.Execution.Contracts.{is_empty}
use code_explorer.Projects.Crash.{Fate, goes_through, ◌>>=◌, Reply, answer, exception, killed, Site}
use code_explorer.Projects.Crash.Triple
use code_explorer.Projects.Crash.Triple.{Triple}
use code_explorer.Projects.Files.{
  Files, restore, restore_quarantined_project, prepared, quarantined, database_deleted,
  cleanup_pending, write, purge_project_quarantine, purge_quarantine,
}
use code_explorer.Projects.Deletion.{
  restore_step, restore_isolated, drop_journal, roll_back, warned, close_journal, clean_up,
  committed, isolate, checked, delete, journal_warning, workspace_warning, artifact_warning,
}
use code_explorer.Projects.Deletion.Stages.{
  Stage, Settled, Gone, Deleted, Recoverable, staged, settled, Left, Stage-restore,
  Stage-quarantine, Stage-quarantine_project, Stage-restore_quarantined_project, Settled-remove,
}
use code_explorer.Projects.Deletion.Ends.{
  Isolated, Gone-delete_owned, Gone-write, Gone-purge_project, Gone-purge_quarantine,
  Deleted-remove,
}

module _ {C : Type 0} (w a : Option C) (fate : ℕ → Fate) where
  anything : (t : ℕ) → (fate t ≡ goes_through) ⊎ Unit {0}
  anything t = inr tt

  abbrev Alive : Files C → Type 0
  Alive = Left w a fate (Unit {0}) anything

  -- The project is still there, and at its place when no failure was noted.
  abbrev Partial : List String → Files C → Type 0
  Partial failures f =
      (x : Bool) × (y : Bool) × Stage w a x y f
      × (is_empty failures ≡ true → (x ≡ false) × (y ≡ false))

  -- What a deletion that raises leaves.
  abbrev pub RolledBack : Files C → Type 0
  RolledBack f = (f.row ≡ true) × Recoverable w a f

  Partial-artifact :
      (x y : Bool)
      → Triple Alive
          (Stage w a x y)
          (restore_step fate y (restore fate) "artifact" [])
          (λ fs f. (z : Bool) × Stage w a x z f × (is_empty fs ≡ true → z ≡ false))
          RolledBack
  unfolding restore_step
  Partial-artifact x false = record { at = λ s k. (false, k, λ e. refl) }
  Partial-artifact x true =
      Triple.Triple-try Alive _ _ _ (Stage-restore w a fate (Unit {0}) anything x true)
        (record { at = λ s (_, k). (true, k, λ e. cc) })
        (λ _. record { at = λ s k. (false, k, λ e. refl) })

  Partial-workspace :
      (x : Bool) (fs : List String)
      → Triple Alive
          (λ f. (z : Bool) × Stage w a x z f × (is_empty fs ≡ true → z ≡ false))
          (restore_step fate x (restore_quarantined_project fate) "workspace" fs)
          Partial
          RolledBack
  unfolding restore_step
  Partial-workspace false fs = record { at = λ s (z, k, e). (false, z, k, λ h. (refl, e h)) }
  Partial-workspace true fs = record {
    at = λ s (z, k, e).
        (Triple.Triple-try Alive {Then = Partial} _ _ _
            (Stage-restore_quarantined_project w a fate (Unit {0}) anything true z)
            (record { at = λ s' (_, k'). (true, z, k', λ h. absurd (not_empty fs h)) })
            (λ _. record { at = λ s' k'. (false, z, k', λ h. (refl, e h)) })).at
          s k;
  }
    where
      not_empty : (fs : List String) → is_empty (fs ++ "workspace" ∷ []) ≡ true → ⊥
      not_empty [] h = cc
      not_empty (x ∷ fs) h = cc

  Partial-isolated :
      (x y : Bool) → Triple Alive (Stage w a x y) (restore_isolated fate x y) Partial RolledBack
  unfolding restore_isolated
  Partial-isolated x y =
      Triple.Triple-bind Alive _ _ (Partial-artifact x y) (λ fs. Partial-workspace x fs)

  RolledBack-drop :
      (fs : List String)
      → Triple Alive (Partial fs) (drop_journal fate fs) (λ _. RolledBack) RolledBack
  unfolding drop_journal
  RolledBack-drop (n ∷ fs) = record { at = λ s (x, y, k, _). (k.0, staged x y k) }
  RolledBack-drop [] =
      Triple.Triple-weaken Alive {Before = Stage w a false false} {Raised = RolledBack}
        {Then = λ _. RolledBack} _
        (λ f (x, y, k, e).
          subst (λ z. Stage w a z false f) (e refl).0 (subst (λ z. Stage w a x z f) (e refl).1 k))
        (λ _ f k. k) (λ f k. k)
        (Triple.Triple-try Alive _ _ _ (Settled-remove w a fate (Unit {0}) anything)
          (record {
            at = λ s (_, k). elim k [
              | inl h ↦ (h.0, staged false false h)
              | inr h ↦ (h.0, settled h)
            ];
          })
          (λ _. record { at = λ s k. (k.0, settled k) }))

  -- After a failure of the `try` block, the project is still there.
  RolledBack-roll_back :
      {Then : List String → Files C → Type 0} (x y : Bool)
      → Triple Alive (Stage w a x y) (roll_back fate x y) Then RolledBack
  unfolding roll_back
  RolledBack-roll_back {Then} x y =
      Triple.Triple-bind Alive _ _ (Partial-isolated x y)
        (λ fs. Triple.Triple-bind Alive _ _ (RolledBack-drop fs) (λ _. Triple.Triple-throw Alive _))

  RolledBack-faulty :
      {Then : List String → Files C → Type 0} (x y : Bool)
      → Triple Alive (λ f. Unit {0} × Stage w a x y f) (roll_back fate x y) Then RolledBack
  RolledBack-faulty x y =
      Triple.Triple-weaken Alive _ (λ f k. k.1) (λ _ f k. k) (λ f k. k) (RolledBack-roll_back x y)

  -- What an answered deletion leaves; `warnings` says whether all of it is gone.
  abbrev pub Done : Files C → Type 0
  Done f = Gone f ⊎ Deleted f

  Done-close :
      (ws : List String)
      → Triple Alive
          (λ f.
            Gone f
            × (is_empty ws ≡ true
                → (f.workspace_quarantine ≡ none) × (f.artifact_quarantine ≡ none)))
          (close_journal fate ws)
          (λ _. Done)
          RolledBack
  unfolding close_journal warned
  Done-close [] = record {
    at = λ s (k, e).
        (Triple.Triple-try Alive {Raised = RolledBack} {Then = λ _. Done} _ _ _
            (Deleted-remove w a fate (Unit {0}) anything) (record { at = λ s' (_, k'). k' })
            (λ _. record { at = λ s' k'. inr k' })).at
          s (k, (e refl).0, (e refl).1);
  }
  Done-close (n ∷ ws) = record {
    at = λ s (k, e).
        (Triple.Triple-try Alive {Raised = RolledBack} {Then = λ _. Done} _ _ _
            (Gone-write w a fate (Unit {0}) anything cleanup_pending (λ _. Unit {0}) (λ f u. u))
            (record { at = λ s' (_, k', _). inl k' })
            (λ _. record { at = λ s' (k', _). inl k' })).at
          s (k, tt);
  }

  abbrev Cleared : List String → Files C → Type 0
  Cleared ws f = Gone f × (is_empty ws ≡ true → f.workspace_quarantine ≡ none)

  longer : (ws : List String) (x : String) → is_empty (ws ++ x ∷ []) ≡ true → ⊥
  longer [] x h = cc
  longer (y ∷ ws) x h = cc

  Cleared-project :
      (ws : List String)
      → Triple Alive Gone
          (warned fate (purge_project_quarantine fate) workspace_warning ws)
          Cleared
          RolledBack
  unfolding warned
  Cleared-project ws =
      Triple.Triple-try Alive {Raised = RolledBack} {Then = Cleared} _ _ _
        (Gone-purge_project w a fate (Unit {0}) anything)
        (record { at = λ s (_, k). (k, λ h. absurd (longer ws workspace_warning h)) })
        (λ _. record { at = λ s (k, e). (k, λ h. e) })

  Cleared-artifact :
      (ws : List String)
      → Triple Alive
          (Cleared ws)
          (warned fate (purge_quarantine fate) artifact_warning ws)
          (λ vs f.
            Gone f
            × (is_empty vs ≡ true
                → (f.workspace_quarantine ≡ none) × (f.artifact_quarantine ≡ none)))
          RolledBack
  unfolding warned
  Cleared-artifact ws =
      Triple.Triple-try Alive {Raised = RolledBack}
        {Then = λ vs f.
          Gone f
          × (is_empty vs ≡ true → (f.workspace_quarantine ≡ none) × (f.artifact_quarantine ≡ none))}
        _ _ _ (Gone-purge_quarantine w a fate (Unit {0}) anything (is_empty ws ≡ true))
        (record { at = λ s (_, k, _). (k, λ h. absurd (longer ws artifact_warning h)) })
        (λ _. record { at = λ s (k, q, e). (k, λ h. (q h, e)) })

  Done-clean_up : (ws : List String) → Triple Alive Gone (clean_up fate ws) (λ _. Done) RolledBack
  unfolding clean_up
  Done-clean_up ws =
      Triple.Triple-bind Alive _ _ (Cleared-project ws)
        (λ vs. Triple.Triple-bind Alive _ _ (Cleared-artifact vs) (λ us. Done-close us))

  Gone-warned :
      Triple Alive Gone
        (warned fate (write fate database_deleted) journal_warning [])
        (λ _. Gone)
        RolledBack
  unfolding warned
  Gone-warned =
      Triple.Triple-try Alive {Raised = RolledBack} {Then = λ _. Gone} _ _ _
        (Triple.Triple-weaken Alive {Raised' = Gone} {Then' = λ _. Gone} _ (λ f k. (k, tt))
          (λ _ f k. k.0) (λ f (_, k, _). k)
          (Gone-write w a fate (Unit {0}) anything database_deleted (λ _. Unit {0}) (λ f u. u)))
        (record { at = λ s k. k }) (λ _. record { at = λ s k. k })

  Done-committed :
      (x y done : Bool)
      → Triple Alive (λ f. (done ≡ true) × Gone f) (committed fate x y done) (λ _. Done) RolledBack
  unfolding committed
  Done-committed x y false = record { at = λ s (e, _). absurd (cc e) }
  Done-committed x y true =
      Triple.Triple-weaken Alive {Then' = λ _. Done} _ (λ f k. k.1) (λ _ f k. k) (λ f k. k)
        (Triple.Triple-bind Alive _ _ Gone-warned (λ vs. Done-clean_up vs))

  -- What is in quarantine stays there through a transition.
  Isolated-write :
      (x y : Bool)
      → Triple Alive
          (Isolated w a fate (Unit {0}) anything x y)
          (write fate quarantined)
          (λ _. Isolated w a fate (Unit {0}) anything x y)
          (Stage w a x y)
  unfolding write
  Isolated-write x y = Triple.Triple-effect Alive fate (Unit {0}) anything _ λ f (k, n, m).
      let k' : Stage w a x y (record f { journal = some quarantined }) =
        (k.0, refl, k.2, k.3, k.4, k.5) in
      ((k', n, m), λ bad. (k, (bad, staged x y k), (bad, staged x y k')))

  Done-isolate : Triple Alive (Stage w a false false) (isolate fate) (λ _. Done) RolledBack
  unfolding isolate
  Done-isolate =
      Triple.Triple-try Alive _ _ _ (Stage-quarantine_project w a fate (Unit {0}) anything false)
        (RolledBack-faulty false false)
        λ x.
          Triple.Triple-try Alive _ _ _ (Stage-quarantine w a fate (Unit {0}) anything x)
            (RolledBack-faulty x false)
            λ y. Triple.Triple-try Alive _ _ _ (Isolated-write x y) (RolledBack-roll_back x y) λ _.
              Triple.Triple-try Alive _ _ _ (Gone-delete_owned w a fate (Unit {0}) anything x y)
                (RolledBack-faulty x y) (Done-committed x y)

  Stage-begin :
      Triple Alive (Settled w a) (write fate prepared) (λ _. Stage w a false false) (Settled w a)
  unfolding write
  Stage-begin = Triple.Triple-effect Alive fate (Unit {0}) anything _ λ f k.
      let k' : Stage w a false false (record f { journal = some prepared }) =
        (k.0, refl, k.2, k.3, k.4, k.5) in
      (k', λ bad. (k, (bad, settled k), (bad, staged false false k')))

  Done-checked :
      (owned active : Bool)
      → Triple Alive (Settled w a) (checked fate owned active) (λ _. Done) RolledBack
  unfolding checked
  Done-checked false active = record { at = λ s k. (k.0, settled k) }
  Done-checked true true = record { at = λ s k. (k.0, settled k) }
  Done-checked true false =
      Triple.Triple-try Alive _ _ _ Stage-begin (record { at = λ s k. (k.0, settled k) })
        (λ _. Done-isolate)

  -- Of a deletion of a project that is at its place: an answer means that the row is gone, a raise that
  -- it is there, and even of a process that is killed everything that is left can be put right.
  unfoldable pub AfterDelete : Reply (List String) → Files C → Type 0
  AfterDelete (answer warnings) f = Gone f ⊎ Deleted f
  AfterDelete (exception e) f = (f.row ≡ true) × Recoverable w a f
  AfterDelete killed f = Recoverable w a f

  pub delete-AfterDelete :
      (site : Site (Files C))
      → Settled w a site.files
      → AfterDelete (delete fate site).0 (delete fate site).1.files
  unfolding delete AfterDelete ◌>>=◌
  delete-AfterDelete site k =
      after (checked fate site.files.row site.files.active site).0
        (checked fate site.files.row site.files.active site).1.files
        ((Done-checked site.files.row site.files.active).at site k)
    where
      after :
          (r : Reply (List String)) (f : Files C)
          → Triple.Holds Alive (λ _. Done) RolledBack r f
          → AfterDelete r f
      after (answer ws) f h = h
      after (exception e) f h = h
      after killed f h = h.1
