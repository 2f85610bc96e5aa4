-- ===== src/Projects/Deletion.antt =====
-- projects/deletion_service.py and projects/deletion_janitor.py: deleting a project, and putting
-- right what a deletion that was cut short has left.
pub mod Stages
pub mod Ends
pub mod Safety
pub mod Rows
pub mod Janitor
use code_explorer.Base.{
  ℕ, ◌+◌, suc, String, Bool, true, false, Option, none, some, List, [], ◌∷◌, ◌++◌, ◌&&◌, not,
  if◌then◌else◌,
}
use code_explorer.Execution.Contracts.{is_some, is_empty}
use code_explorer.Projects.Crash.{
  Fate, Process, Failure, fault, deletion_error, answer, ◌>>=◌, ◌>>◌, pure, throw, look, try,
}
use code_explorer.Projects.Files.{
  Files, State, prepared, quarantined, database_deleted, cleanup_pending, quarantine_project,
  restore_quarantined_project, purge_project_quarantine, quarantine, restore, purge_quarantine,
  write, remove, delete_owned_with_dependents,
}

abbrev pub journal_warning : String
journal_warning = "Deletion journal requires background cleanup."

abbrev pub workspace_warning : String
workspace_warning = "Workspace deletion quarantine requires background cleanup."

abbrev pub artifact_warning : String
artifact_warning = "Artifact deletion quarantine requires background cleanup."

abbrev pub rollback_message : List String → String
rollback_message [] = "Unable to delete all project resources safely."
rollback_message (_ ∷ _) = "Project deletion failed and some isolated resources require recovery."

-- What `cleanup_pending` counts an operation as.
pub data Recovery : Type 0 where
  nothing_pending restored purged failed : Recovery

module _ {C : Type 0} (fate : ℕ → Fate) where
  -- A step of `_restore`, whose failure is noted.
  unfoldable pub restore_step :
      Bool → Process (Files C) Unit → String → List String → Process (Files C) (List String)
  restore_step false step name failures = pure failures
  restore_step true step name failures =
      try step (pure (failures ++ name ∷ [])) (λ _. pure failures)

  -- `ProjectDeletionService._restore`
  unfoldable pub restore_isolated : Bool → Bool → Process (Files C) (List String)
  unfolding restore_step
  restore_isolated workspace_quarantined artifact_quarantined = do
    failures ← restore_step artifact_quarantined (restore fate) "artifact" []
    restore_step workspace_quarantined (restore_quarantined_project fate) "workspace" failures

  unfoldable pub drop_journal : List String → Process (Files C) Unit
  drop_journal [] = try (remove fate) (pure tt) (λ _. pure tt)
  drop_journal (_ ∷ _) = pure tt

  -- The handler of the `try` block of `_delete_sync`, with what its locals hold.
  unfoldable pub roll_back : Bool → Bool → Process (Files C) (List String)
  unfolding restore_isolated drop_journal
  roll_back workspace_quarantined artifact_quarantined = do
    failures ← restore_isolated workspace_quarantined artifact_quarantined
    drop_journal failures
    throw (deletion_error (rollback_message failures) 500)

  -- A cleaning step, whose failure is a warning.
  unfoldable pub warned :
      Process (Files C) Unit → String → List String → Process (Files C) (List String)
  warned step warning warnings = try step (pure (warnings ++ warning ∷ [])) (λ _. pure warnings)

  unfoldable pub close_journal : List String → Process (Files C) (List String)
  unfolding warned
  close_journal [] = warned (remove fate) journal_warning []
  close_journal (w ∷ ws) = try (write fate cleanup_pending) (pure (w ∷ ws)) (λ _. pure (w ∷ ws))

  -- What follows the `try` block, once the row is gone.
  unfoldable pub clean_up : List String → Process (Files C) (List String)
  unfolding warned close_journal
  clean_up warnings = do
    warnings ← warned (purge_project_quarantine fate) workspace_warning warnings
    warnings ← warned (purge_quarantine fate) artifact_warning warnings
    close_journal warnings

  -- `if not ...: raise RuntimeError`, and the transition that may fail.
  unfoldable pub committed : Bool → Bool → Bool → Process (Files C) (List String)
  unfolding roll_back clean_up warned
  committed workspace_quarantined artifact_quarantined false =
      roll_back workspace_quarantined artifact_quarantined
  committed workspace_quarantined artifact_quarantined true = do
    warnings ← warned (write fate database_deleted) journal_warning []
    clean_up warnings

  -- The `try` block after `journal.begin`, statement by statement.
  unfoldable pub isolate : Process (Files C) (List String)
  unfolding committed roll_back
  isolate = try (quarantine_project fate) (roll_back false false) λ w.
      try (quarantine fate) (roll_back w false) λ a.
        try (write fate quarantined) (roll_back w a)
          λ _. try (delete_owned_with_dependents fate) (roll_back w a) (committed w a)

  unfoldable pub checked : Bool → Bool → Process (Files C) (List String)
  unfolding isolate
  checked false active = throw (deletion_error "Project not found or unauthorized." 404)
  checked true true = throw (
      deletion_error
        "Project has an active agent or execution task; cancel it before deleting the project." 409)
  checked true false =
      try (write fate prepared)
        (throw (deletion_error "Unable to begin the recoverable project deletion." 500))
        (λ _. isolate)

  -- `ProjectDeletionService._delete_sync`, with the warnings of its result.
  unfoldable pub delete : Process (Files C) (List String)
  unfolding checked
  delete = do owned ← look λ f. f.row; active ← look λ f. f.active; checked owned active

  unfoldable pub recover_as : Bool → Process (Files C) Recovery
  recover_as false = do
    purge_project_quarantine fate
    purge_quarantine fate
    remove fate
    pure purged
  recover_as true = do restore fate; restore_quarantined_project fate; remove fate; pure restored

  unfoldable pub recover : Bool → Bool → Process (Files C) Recovery
  unfolding recover_as
  recover false owned = pure nothing_pending
  recover true owned = try (recover_as owned) (pure failed) (λ r. pure r)

  -- `ProjectDeletionJanitor.cleanup_pending`, as far as the journal of this deletion goes.
  unfoldable pub cleanup_pending_operation : Process (Files C) Recovery
  unfolding recover
  cleanup_pending_operation = do
    pending ← look λ f. is_some f.journal
    owned ← look λ f. f.row
    recover pending owned
