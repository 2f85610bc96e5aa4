-- ===== src/Projects/Deletion/Rows.antt =====
-- projects/deletion_janitor.py takes the row of the project as it is: no run of it changes the row.
use code_explorer.Base.{ℕ, Bool, true, false, ◌≡◌, refl, inr}
use code_explorer.Projects.Crash.{
  Fate, Process, ◌>>=◌, effect, pure, Reply, answer, exception, killed, Site,
}
use code_explorer.Projects.Crash.Triple
use code_explorer.Projects.Crash.Triple.{Triple}
use code_explorer.Projects.Files.{
  Files, move_back, restore_quarantined_project, purge_project_quarantine, restore_json,
  restore_tmp, restore, purge_quarantine, remove,
}
use code_explorer.Projects.Deletion.{recover_as, recover, cleanup_pending_operation}

module _ {C : Type 0} (fate : ℕ → Fate) (b : Bool) where
  abbrev HasRow : Files C → Type 0
  HasRow f = f.row ≡ b

  abbrev Steady : {A : Type 0} → Process (Files C) A → Type 0
  Steady step = Triple HasRow HasRow step (λ _. HasRow) HasRow

  Steady-effect :
      (change : Files C → Files C)
      → ((f : Files C) → (change f).row ≡ f.row)
      → Steady (effect fate change)
  Steady-effect change same =
      Triple.Triple-effect HasRow fate (Unit {0}) (λ t. inr tt) change
        λ f k. (rw (same f) k, λ _. (k, k, rw (same f) k))

  Steady-bind :
      {A B : Type 0} (step : Process (Files C) A) (rest : A → Process (Files C) B)
      → Steady step
      → ((a : A) → Steady (rest a))
      → Steady (step >>= rest)
  Steady-bind step rest h k = Triple.Triple-bind HasRow step rest h k

  Steady-pure : {A : Type 0} (value : A) → Steady (pure value)
  Steady-pure value = record { at = λ s k. k }

  Steady-move_back : (x y : Bool) → Steady (move_back fate x y)
  unfolding move_back
  Steady-move_back false y = Steady-pure tt
  Steady-move_back true true = record { at = λ s k. k }
  Steady-move_back true false = Steady-effect _ (λ f. refl)

  Steady-restore_json : (x y : Bool) → Steady (restore_json fate x y)
  unfolding restore_json
  Steady-restore_json false y = Steady-pure tt
  Steady-restore_json true true = record { at = λ s k. k }
  Steady-restore_json true false = Steady-effect _ (λ f. refl)

  Steady-restore_tmp : (x y : Bool) → Steady (restore_tmp fate x y)
  unfolding restore_tmp
  Steady-restore_tmp false y = Steady-pure tt
  Steady-restore_tmp true true = record { at = λ s k. k }
  Steady-restore_tmp true false = Steady-effect _ (λ f. refl)

  Steady-recover_as : (owned : Bool) → Steady (recover_as fate owned)
  unfolding recover_as purge_project_quarantine purge_quarantine remove restore
      restore_quarantined_project
  Steady-recover_as false = Steady-bind _ _ (Steady-effect _ (λ f. refl)) λ _.
      Steady-bind _ _
        (Steady-bind _ _ (Steady-effect _ (λ f. refl))
          λ _. Steady-bind _ _ (Steady-effect _ (λ f. refl)) λ _. Steady-effect _ (λ f. refl))
        λ _.
          Steady-bind _ _
            (Steady-bind _ _ (Steady-effect _ (λ f. refl)) λ _. Steady-effect _ (λ f. refl))
            λ _. Steady-pure _
  Steady-recover_as true =
      Steady-bind _ _
        (Steady-bind _ _ (record { at = λ s k. k })
          λ x.
            Steady-bind _ _ (record { at = λ s k. k })
              λ y. Steady-bind _ _ (Steady-restore_json x y) λ _.
                Steady-bind _ _ (record { at = λ s k. k })
                  λ x. Steady-bind _ _ (record { at = λ s k. k }) λ y. Steady-restore_tmp x y)
        λ _.
          Steady-bind _ _
            (Steady-bind _ _ (record { at = λ s k. k })
              λ x. Steady-bind _ _ (record { at = λ s k. k }) λ y. Steady-move_back x y)
            λ _.
              Steady-bind _ _
                (Steady-bind _ _ (Steady-effect _ (λ f. refl)) λ _. Steady-effect _ (λ f. refl))
                λ _. Steady-pure _

  Steady-recover : (pending owned : Bool) → Steady (recover fate pending owned)
  unfolding recover
  Steady-recover false owned = Steady-pure _
  Steady-recover true owned =
      Triple.Triple-try HasRow _ _ _ (Steady-recover_as owned) (Steady-pure _) (λ r. Steady-pure r)

  Steady-cleanup : Steady (cleanup_pending_operation fate)
  unfolding cleanup_pending_operation
  Steady-cleanup =
      Steady-bind _ _ (record { at = λ s k. k })
        λ p. Steady-bind _ _ (record { at = λ s k. k }) λ o. Steady-recover p o

pub row-cleanup :
    {C : Type 0} (fate : ℕ → Fate) (s : Site (Files C))
    → (cleanup_pending_operation fate s).1.files.row ≡ s.files.row
row-cleanup {C} fate s =
    after (cleanup_pending_operation fate s).0 (cleanup_pending_operation fate s).1.files
      ((Steady-cleanup fate s.files.row).at s refl)
  where
    after :
        {A : Type 0} (r : Reply A) (f : Files C)
        → Triple.Holds
            (HasRow fate s.files.row)
            (λ _. HasRow fate s.files.row)
            (HasRow fate s.files.row)
            r
            f
        → f.row ≡ s.files.row
    after (answer x) f h = h
    after (exception e) f h = h
    after killed f h = h
