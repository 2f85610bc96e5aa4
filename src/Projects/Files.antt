-- ===== src/Projects/Files.antt =====
-- The files and the row of one project, and those of one deletion of it: what stands at the paths
-- that project_workspace/paths.py, projects/artifacts.py and projects/deletion_journal.py compute
-- from the three identifiers, and the methods that move and remove it. Distinct identifiers give
-- distinct paths, and directories that are only parents are left out.
use code_explorer.Base.{ℕ, Bool, true, false, Option, none, some}
use code_explorer.Execution.Contracts.{is_some}
use code_explorer.Projects.Crash.{Fate, Process, fault, ◌>>=◌, ◌>>◌, pure, throw, look, effect}

-- The phases that projects/deletion_service.py writes.
pub data State : Type 0 where
  prepared quarantined database_deleted cleanup_pending : State

pub record Files (C : Type 0) : Type 0 where
  -- <root>/<user>/projects/<project> and <root>/<user>/.deleting/<operation>/workspace
  pub workspace : Option C
  pub workspace_quarantine : Option C
  -- <artifacts>/<project>.json and .tmp, and those names under <artifacts>/.deleting/<operation>
  pub artifact : Option C
  pub artifact_quarantine : Option C
  pub leftover : Option C
  pub leftover_quarantine : Option C
  -- the row of the project, with this user
  pub row : Bool
  -- a queued or running run or task of the project
  pub active : Bool
  -- <journal>/<operation>.json
  pub journal : Option State

module _ {C : Type 0} (fate : ℕ → Fate) where
  -- `if not source.exists() ...: return False`; else the move, which refuses to overwrite.
  unfoldable pub move_project : Bool → Bool → Process (Files C) Bool
  move_project false taken = pure false
  move_project true true = throw fault
  move_project true false = do
    effect fate (λ f. record f { workspace = none; workspace_quarantine = f.workspace })
    pure true

  -- `WorkspaceFilesystem.quarantine_project`
  unfoldable pub quarantine_project : Process (Files C) Bool
  unfolding move_project
  quarantine_project = do
    here ← look λ f. is_some f.workspace
    taken ← look λ f. is_some f.workspace_quarantine
    move_project here taken

  unfoldable pub move_back : Bool → Bool → Process (Files C) Unit
  move_back false taken = pure tt
  move_back true true = throw fault
  move_back true false =
      effect fate
        (λ f. record f { workspace = f.workspace_quarantine; workspace_quarantine = none })

  -- `WorkspaceFilesystem.restore_quarantined_project`
  unfoldable pub restore_quarantined_project : Process (Files C) Unit
  unfolding move_back
  restore_quarantined_project = do
    there ← look λ f. is_some f.workspace_quarantine
    taken ← look λ f. is_some f.workspace
    move_back there taken

  -- `WorkspaceFilesystem.purge_project_quarantine`
  unfoldable pub purge_project_quarantine : Process (Files C) Unit
  purge_project_quarantine = effect fate (λ f. record f { workspace_quarantine = none })

  -- The two rounds of the loop of `ProjectArtifactRepository.quarantine`.
  unfoldable pub quarantine_json : Bool → Bool → Process (Files C) Bool
  quarantine_json false taken = pure false
  quarantine_json true true = throw fault
  quarantine_json true false = do
    effect fate (λ f. record f { artifact = none; artifact_quarantine = f.artifact })
    pure true

  unfoldable pub quarantine_tmp : Bool → Bool → Bool → Process (Files C) Bool
  quarantine_tmp moved false taken = pure moved
  quarantine_tmp moved true true = throw fault
  quarantine_tmp moved true false = do
    effect fate (λ f. record f { leftover = none; leftover_quarantine = f.leftover })
    pure true

  -- `ProjectArtifactRepository.quarantine`
  unfoldable pub quarantine : Process (Files C) Bool
  unfolding quarantine_json quarantine_tmp
  quarantine = do
    here ← look λ f. is_some f.artifact
    taken ← look λ f. is_some f.artifact_quarantine
    moved ← quarantine_json here taken
    here ← look λ f. is_some f.leftover
    taken ← look λ f. is_some f.leftover_quarantine
    quarantine_tmp moved here taken

  unfoldable pub restore_json : Bool → Bool → Process (Files C) Unit
  restore_json false taken = pure tt
  restore_json true true = throw fault
  restore_json true false =
      effect fate (λ f. record f { artifact = f.artifact_quarantine; artifact_quarantine = none })

  unfoldable pub restore_tmp : Bool → Bool → Process (Files C) Unit
  restore_tmp false taken = pure tt
  restore_tmp true true = throw fault
  restore_tmp true false =
      effect fate (λ f. record f { leftover = f.leftover_quarantine; leftover_quarantine = none })

  -- `ProjectArtifactRepository.restore`. Without the quarantine directory there is nothing in it.
  unfoldable pub restore : Process (Files C) Unit
  unfolding restore_json restore_tmp
  restore = do
    there ← look λ f. is_some f.artifact_quarantine
    taken ← look λ f. is_some f.artifact
    restore_json there taken
    there ← look λ f. is_some f.leftover_quarantine
    taken ← look λ f. is_some f.leftover
    restore_tmp there taken

  -- `ProjectArtifactRepository.purge_quarantine`, with the last removal that of the directory.
  unfoldable pub purge_quarantine : Process (Files C) Unit
  purge_quarantine = do
    effect fate (λ f. record f { artifact_quarantine = none })
    effect fate (λ f. record f { leftover_quarantine = none })
    effect fate (λ f. f)

  -- `ProjectDeletionJournal._write`, which replaces the file in one step
  unfoldable pub write : State → Process (Files C) Unit
  write state = effect fate (λ f. record f { journal = some state })

  -- `ProjectDeletionJournal.remove`: the file, then a temporary one that may be left.
  unfoldable pub remove : Process (Files C) Unit
  remove = do effect fate (λ f. record f { journal = none }); effect fate (λ f. f)

  unfoldable pub delete_row : Bool → Process (Files C) Bool
  delete_row false = pure false
  delete_row true = do effect fate (λ f. record f { row = false }); pure true

  -- `ProjectDeletionRepository.delete_owned_with_dependents`: one transaction. Of the rows that it
  -- deletes, the model has the project's.
  unfoldable pub delete_owned_with_dependents : Process (Files C) Bool
  unfolding delete_row
  delete_owned_with_dependents = do here ← look λ f. f.row; delete_row here
