-- ===== src/Projects/Tests.antt =====
-- Deletions of projects/deletion_service.py that fail or are killed, run on concrete files.
use code_explorer.Base.{ℕ, suc, String, true, false, none, some, List, [], ◌∷◌, ◌≡◌, refl, ◌⊎◌}
use code_explorer.Projects.Crash.{
  ◌>>=◌, try, effect, Fate, goes_through, raises, killed_before, killed_after, Site,
}
use code_explorer.Projects.Files.{
  Files, write, quarantine_project, quarantine, delete_owned_with_dependents,
  restore_quarantined_project, remove,
}
use code_explorer.Projects.Deletion.{delete, cleanup_pending_operation}
use code_explorer.Projects.Deletion.Stages.{Settled, Deleted}
use code_explorer.Projects.Deletion.Safety.{AfterDelete, delete-AfterDelete}
use code_explorer.Projects.Deletion.Janitor.{cleanups, delete_recovers}

abbrev imported : Files String
imported = record {
  workspace = some "sources";
  workspace_quarantine = none;
  artifact = some "analysis";
  artifact_quarantine = none;
  leftover = none;
  leftover_quarantine = none;
  row = true;
  active = false;
  journal = none;
}

abbrev at_start : Files String → Site (Files String)
at_start files = record { files = files; tick = 0 }

-- The fate of the changes, one after the other; later ones go through.
abbrev fated : List Fate → ℕ → Fate
fated [] n = goes_through
fated (d ∷ ds) ℕ.zero = d
fated (d ∷ ds) (suc n) = fated ds n

-- The commit goes through, and the process is killed.
abbrev killed_at_commit : ℕ → Fate
killed_at_commit =
    fated (goes_through ∷ goes_through ∷ goes_through ∷ goes_through ∷ killed_after ∷ [])

killed_is_isolated :
    (delete killed_at_commit (at_start imported)).1.files.workspace_quarantine ≡ some "sources"
unfolding delete ◌>>=◌ try write effect quarantine_project quarantine delete_owned_with_dependents
killed_is_isolated = refl

Settled-imported : Settled (some "sources") (some "analysis") imported
Settled-imported = (refl, refl, (refl, refl), (refl, refl), refl, refl)

delete-AfterDelete_example :
    AfterDelete
      (some "sources")
      (some "analysis")
      killed_at_commit
      (delete killed_at_commit (at_start imported)).0
      (delete killed_at_commit (at_start imported)).1.files
delete-AfterDelete_example =
    delete-AfterDelete (some "sources") (some "analysis") killed_at_commit (at_start imported)
      Settled-imported

delete_recovers_example :
    let s = (delete killed_at_commit (at_start imported)).1 in
    let e =
      (cleanup_pending_operation
        (λ _. goes_through)
        (cleanups ((λ _. killed_before) ∷ []) s)).1.files in
    (Settled (some "sources") (some "analysis") e ⊎ Deleted e) × (e.row ≡ s.files.row)
delete_recovers_example =
    delete_recovers (some "sources") (some "analysis") killed_at_commit ((λ _. killed_before) ∷ [])
      (at_start imported) Settled-imported

-- Beside a temporary file that an earlier write has left, the move of that file fails.
abbrev beside_leftover : Site (Files String)
beside_leftover =
    (delete (fated (goes_through ∷ goes_through ∷ goes_through ∷ raises ∷ []))
      (at_start (record imported { leftover = some "partial" }))).1

-- The artifact stays in quarantine, with no journal left to tell of it.
artifact_is_lost :
    (beside_leftover.files.row ≡ true)
    × (beside_leftover.files.artifact ≡ none)
    × (beside_leftover.files.artifact_quarantine ≡ some "analysis")
    × (beside_leftover.files.journal ≡ none)
unfolding delete ◌>>=◌ try write effect quarantine_project quarantine restore_quarantined_project
    remove
artifact_is_lost = (refl, refl, refl, refl)
