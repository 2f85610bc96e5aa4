-- ===== src/Projects/Deletion/Ends.antt =====
-- projects/deletion_service.py once the row of the project goes: the methods that clean up.
use code_explorer.Base.{ℕ, Bool, true, false, Option, none, some, ◌≡◌, refl, ◌⊎◌, inl, inr, arith}
use code_explorer.Projects.Crash.{Fate, goes_through, ◌>>=◌}
use code_explorer.Projects.Crash.Triple
use code_explorer.Projects.Crash.Triple.{Triple}
use code_explorer.Projects.Files.{
  Files, State, purge_project_quarantine, purge_quarantine, write, remove, delete_row,
  delete_owned_with_dependents,
}
use code_explorer.Projects.Deletion.Stages.{Stage, Gone, Deleted, staged, gone, deleted, Left}

module _ {C : Type 0} (w a : Option C) (fate : ℕ → Fate) (Faulty : Type 0)
    (mode : (t : ℕ) → (fate t ≡ goes_through) ⊎ Faulty) where
  abbrev Alive : Files C → Type 0
  Alive = Left w a fate Faulty mode

  -- With the things in quarantine.
  abbrev pub Isolated : Bool → Bool → Files C → Type 0
  Isolated x y f = Stage w a x y f × (f.workspace ≡ none) × (f.artifact ≡ none)

  Gone-delete_row :
      (x y b : Bool)
      → Triple Alive
          (λ f. Isolated x y f × (f.row ≡ b))
          (delete_row fate b)
          (λ done f. (done ≡ true) × Gone f)
          (λ f. Faulty × Stage w a x y f)
  unfolding delete_row
  Gone-delete_row x y false = record { at = λ s (k, h). ground arith }
  Gone-delete_row x y true =
      Triple.Triple-bind Alive _ _
        (Triple.Triple-effect Alive {Then = λ _. Gone} fate Faulty mode _ λ f ((k, n, m), _).
          let k' : Gone (record f { row = false }) = (refl, k.1, n, m, k.4, k.5) in
          (k', λ bad. ((bad, k), (bad, staged x y k), (bad, gone k'))))
        (λ _. record { at = λ s k. (refl, k) })

  -- The row goes, or raises and stays.
  pub Gone-delete_owned :
      (x y : Bool)
      → Triple Alive
          (Isolated x y)
          (delete_owned_with_dependents fate)
          (λ done f. (done ≡ true) × Gone f)
          (λ f. Faulty × Stage w a x y f)
  unfolding delete_owned_with_dependents ◌>>=◌
  Gone-delete_owned x y = record { at = λ s k. (Gone-delete_row x y s.files.row).at s (k, refl) }

  pub Gone-write :
      (state : State) (Extra : Files C → Type 0)
      → ((f : Files C) → Extra f → Extra (record f { journal = some state }))
      → Triple Alive
          (λ f. Gone f × Extra f)
          (write fate state)
          (λ _ f. Gone f × Extra f)
          (λ f. Faulty × Gone f × Extra f)
  unfolding write
  Gone-write state Extra same = Triple.Triple-effect Alive fate Faulty mode _ λ f (k, e).
      let k' : Gone (record f { journal = some state }) = (k.0, refl, k.2, k.3, k.4, k.5) in
      ((k', same f e), λ bad. ((bad, k, e), (bad, gone k), (bad, gone k')))

  pub Gone-purge_project :
      Triple Alive Gone
        (purge_project_quarantine fate)
        (λ _ f. Gone f × (f.workspace_quarantine ≡ none))
        (λ f. Faulty × Gone f)
  unfolding purge_project_quarantine
  Gone-purge_project =
      Triple.Triple-effect Alive fate Faulty mode _
        λ f k. ((k, refl), λ bad. ((bad, k), (bad, gone k), (bad, gone k)))

  -- `Q` says when the workspace's quarantine is known to be empty.
  pub Gone-purge_quarantine :
      (Q : Type 0)
      → Triple Alive
          (λ f. Gone f × (Q → f.workspace_quarantine ≡ none))
          (purge_quarantine fate)
          (λ _ f. Gone f × (Q → f.workspace_quarantine ≡ none) × (f.artifact_quarantine ≡ none))
          (λ f. Faulty × Gone f × (Q → f.workspace_quarantine ≡ none))
  unfolding purge_quarantine
  Gone-purge_quarantine Q =
      Triple.Triple-bind Alive _ _
        (Triple.Triple-effect Alive
          {Then = λ _ f.
            Gone f × (Q → f.workspace_quarantine ≡ none) × (f.artifact_quarantine ≡ none)}
          fate Faulty mode _
          λ f (k, q). ((k, q, refl), λ bad. ((bad, k, q), (bad, gone k), (bad, gone k))))
        (λ _.
          Triple.Triple-bind Alive _ _
            (Triple.Triple-effect Alive
              {Then = λ _ f.
                Gone f × (Q → f.workspace_quarantine ≡ none) × (f.artifact_quarantine ≡ none)}
              fate Faulty mode _
              λ f (k, q, e).
                let k' : Gone (record f { leftover_quarantine = none }) =
                  (k.0, k.1, k.2, k.3, k.4, refl) in
                ((k', q, e), λ bad. ((bad, k, q), (bad, gone k), (bad, gone k'))))
            (λ _.
              Triple.Triple-effect Alive fate Faulty mode _
                λ f (k, q, e). ((k, q, e), λ bad. ((bad, k, q), (bad, gone k), (bad, gone k)))))

  -- With the quarantine empty, the journal is not needed any more.
  pub Deleted-remove :
      Triple Alive
        (λ f. Gone f × (f.workspace_quarantine ≡ none) × (f.artifact_quarantine ≡ none))
        (remove fate)
        (λ _. Deleted)
        (λ f. Faulty × (Gone f ⊎ Deleted f))
  unfolding remove
  Deleted-remove =
      Triple.Triple-bind Alive _ _
        (Triple.Triple-effect Alive {Then = λ _. Deleted} fate Faulty mode _ λ f (k, q, r).
          let k' : Deleted (record f { journal = none }) = (k.0, refl, k.2, q, k.3, r, k.4, k.5) in
          (k', λ bad. ((bad, inl k), (bad, gone k), (bad, deleted k'))))
        (λ _.
          Triple.Triple-effect Alive fate Faulty mode _
            λ f k. (k, λ bad. ((bad, inr k), (bad, deleted k), (bad, deleted k))))
