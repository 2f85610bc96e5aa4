-- ===== src/Projects/Deletion/Stages.antt =====
-- The states that a deletion of projects/deletion_service.py passes through, and what each method on
-- files does between them.
use code_explorer.Base.{
  ℕ, Bool, true, false, Option, none, some, ◌≡◌, refl, sym, ◌∙◌, ◌⊎◌, inl, inr,
}
use code_explorer.Execution.Contracts.{is_some}
use code_explorer.Projects.Crash.{Fate, goes_through, ◌>>=◌, effect}
use code_explorer.Projects.Crash.Triple
use code_explorer.Projects.Crash.Triple.{Triple}
use code_explorer.Projects.Files.{
  Files, State, move_project, quarantine_project, move_back, restore_quarantined_project,
  quarantine_json, quarantine_tmp, quarantine, restore_json, restore_tmp, restore, write, remove,
}

-- A thing at its place, or in quarantine.
abbrev pub Piece : {C : Type 0} → Bool → Option C → Option C → Option C → Type 0
Piece false here there whole = (here ≡ whole) × (there ≡ none)
Piece true here there whole = (here ≡ none) × (there ≡ whole)

none_of : {C : Type 0} (o : Option C) → is_some o ≡ false → o ≡ none
none_of none h = refl
none_of (some c) h = cc

not_there : {C : Type 0} (o : Option C) → o ≡ none → is_some o ≡ true → ⊥
not_there none e h = cc
not_there (some c) e h = cc

-- With nothing in quarantine, a thing is at its place.
back :
    {C : Type 0} (y : Bool) (here there o : Option C)
    → Piece y here there o
    → is_some there ≡ false
    → Piece false here there o
back false here there o k h = k
back true here there o k h = (k.0 ∙ sym (none_of there h) ∙ k.1, none_of there h)

-- The row is gone, and a journal tells of what may be in quarantine.
abbrev pub Gone : {C : Type 0} → Files C → Type 0
Gone f =
    (f.row ≡ false)
    × (is_some f.journal ≡ true)
    × (f.workspace ≡ none)
    × (f.artifact ≡ none)
    × (f.leftover ≡ none)
    × (f.leftover_quarantine ≡ none)

-- Nothing is left of the project.
abbrev pub Deleted : {C : Type 0} → Files C → Type 0
Deleted f =
    (f.row ≡ false)
    × (is_some f.journal ≡ false)
    × (f.workspace ≡ none)
    × (f.workspace_quarantine ≡ none)
    × (f.artifact ≡ none)
    × (f.artifact_quarantine ≡ none)
    × (f.leftover ≡ none)
    × (f.leftover_quarantine ≡ none)

-- `w` and `a` are the workspace and the artifact that the project has.
module _ {C : Type 0} (w a : Option C) where
  -- The row is there and a journal tells of the operation.
  abbrev pub Stage : Bool → Bool → Files C → Type 0
  Stage x y f =
      (f.row ≡ true)
      × (is_some f.journal ≡ true)
      × Piece x f.workspace f.workspace_quarantine w
      × Piece y f.artifact f.artifact_quarantine a
      × (f.leftover ≡ none)
      × (f.leftover_quarantine ≡ none)

  -- The project is as it was.
  abbrev pub Settled : Files C → Type 0
  Settled f =
      (f.row ≡ true)
      × (is_some f.journal ≡ false)
      × Piece false f.workspace f.workspace_quarantine w
      × Piece false f.artifact f.artifact_quarantine a
      × (f.leftover ≡ none)
      × (f.leftover_quarantine ≡ none)

  pub data Recoverable (f : Files C) : Type 0 where
    staged : (x y : Bool) → Stage x y f → Recoverable f
    settled : Settled f → Recoverable f
    gone : Gone f → Recoverable f
    deleted : Deleted f → Recoverable f

  -- `Faulty` says whether changes may fail; a process is killed only then.
  module _ (fate : ℕ → Fate) (Faulty : Type 0)
      (mode : (t : ℕ) → (fate t ≡ goes_through) ⊎ Faulty) where
    abbrev pub Left : Files C → Type 0
    Left f = Faulty × Recoverable f

    abbrev Raised : (Files C → Type 0) → Files C → Type 0
    Raised P f = Faulty × P f

    -- A change from one stage to a later one.
    pub step :
        {Before : Files C → Type 0} {Then : Unit → Files C → Type 0} (change : Files C → Files C)
        → ((f : Files C) → Before f → Then tt (change f))
        → ((f : Files C) → Before f → Recoverable f)
        → ((f : Files C) → Before f → Recoverable (change f))
        → Triple Left Before (effect fate change) Then (Raised Before)
    step change t b r =
        Triple.Triple-effect Left fate Faulty mode change
          λ f k. (t f k, λ bad. ((bad, k), (bad, b f k), (bad, r f k)))

    pub Stage-write :
        (x y : Bool) (state : State)
        → Triple Left (Stage x y) (write fate state) (λ _. Stage x y) (Raised (Stage x y))
    unfolding write
    Stage-write x y state =
        step _ (λ f k. (k.0, refl, k.2, k.3, k.4, k.5)) (λ f k. staged x y k)
          (λ f k. staged x y (k.0, refl, k.2, k.3, k.4, k.5))

    Stage-move_project :
        (y b c : Bool)
        → Triple Left
            (λ f.
              Stage false y f × (is_some f.workspace ≡ b) × (is_some f.workspace_quarantine ≡ c))
            (move_project fate b c)
            (λ r f. Stage r y f × (f.workspace ≡ none))
            (Raised (Stage false y))
    unfolding move_project
    Stage-move_project y false c = record { at = λ s (k, h, _). (k, none_of _ h) }
    Stage-move_project y true true = record {
      at = λ s (k, _, h). absurd (not_there s.files.workspace_quarantine k.2.1 h);
    }
    Stage-move_project y true false =
        Triple.Triple-bind Left _ _
          (Triple.Triple-effect Left {Then = λ _ f. Stage true y f × (f.workspace ≡ none)} fate
            Faulty mode _
            λ f (k, _, _).
              let k' : Stage true y
                  (record f { workspace = none; workspace_quarantine = f.workspace }) =
                (k.0, k.1, (refl, k.2.0), k.3, k.4, k.5) in
              ((k', refl), λ bad. ((bad, k), (bad, staged false y k), (bad, staged true y k'))))
          (λ _. Triple.Triple-pure Left (λ r f. Stage r y f × (f.workspace ≡ none)) true)

    -- Of a project at its place: what is there is moved.
    pub Stage-quarantine_project :
        (y : Bool)
        → Triple Left
            (Stage false y)
            (quarantine_project fate)
            (λ r f. Stage r y f × (f.workspace ≡ none))
            (Raised (Stage false y))
    unfolding quarantine_project ◌>>=◌
    Stage-quarantine_project y = record {
      at = λ s k.
          (Stage-move_project y (is_some s.files.workspace)
              (is_some s.files.workspace_quarantine)).at
            s (k, refl, refl);
    }

    Stage-quarantine_json :
        (x b c : Bool)
        → Triple Left
            (λ f.
              (Stage x false f × (f.workspace ≡ none))
              × (is_some f.artifact ≡ b)
              × (is_some f.artifact_quarantine ≡ c))
            (quarantine_json fate b c)
            (λ r f. Stage x r f × (f.workspace ≡ none) × (f.artifact ≡ none))
            (Raised (Stage x false))
    unfolding quarantine_json
    Stage-quarantine_json x false c = record {
      at = λ s ((k, n), h, _). (k, n, none_of s.files.artifact h);
    }
    Stage-quarantine_json x true true = record {
      at = λ s ((k, _), _, h). absurd (not_there s.files.artifact_quarantine k.3.1 h);
    }
    Stage-quarantine_json x true false =
        Triple.Triple-bind Left _ _
          (Triple.Triple-effect Left
            {Then = λ _ f. Stage x true f × (f.workspace ≡ none) × (f.artifact ≡ none)} fate Faulty
            mode _
            λ f ((k, n), _, _).
              let k' : Stage x true
                  (record f { artifact = none; artifact_quarantine = f.artifact }) =
                (k.0, k.1, k.2, (refl, k.3.0), k.4, k.5) in
              ((k', n, refl), λ bad. ((bad, k), (bad, staged x false k), (bad, staged x true k'))))
          (λ _.
            Triple.Triple-pure Left
              (λ r f. Stage x r f × (f.workspace ≡ none) × (f.artifact ≡ none)) true)

    Stage-quarantine_tmp :
        (x r b c : Bool)
        → Triple Left
            (λ f.
              (Stage x r f × (f.workspace ≡ none) × (f.artifact ≡ none)) × (is_some f.leftover ≡ b))
            (quarantine_tmp fate r b c)
            (λ m f. Stage x m f × (f.workspace ≡ none) × (f.artifact ≡ none))
            (Raised (Stage x false))
    unfolding quarantine_tmp
    Stage-quarantine_tmp x r false c = record { at = λ s (k, _). k }
    Stage-quarantine_tmp x r true c = record {
      at = λ s (k, h). absurd (not_there s.files.leftover k.0.4 h);
    }

    -- Without a temporary file there is only the artifact to move.
    pub Stage-quarantine :
        (x : Bool)
        → Triple Left
            (λ f. Stage x false f × (f.workspace ≡ none))
            (quarantine fate)
            (λ r f. Stage x r f × (f.workspace ≡ none) × (f.artifact ≡ none))
            (Raised (Stage x false))
    unfolding quarantine quarantine_tmp ◌>>=◌
    Stage-quarantine x = record {
      at = λ s k.
          (Triple.Triple-bind Left
              (quarantine_json fate (is_some s.files.artifact)
                (is_some s.files.artifact_quarantine))
              _
              (Stage-quarantine_json x (is_some s.files.artifact)
                (is_some s.files.artifact_quarantine))
              (λ r. record {
                at = λ s' k'.
                    (Stage-quarantine_tmp x r (is_some s'.files.leftover) _).at s' (k', refl);
              })).at
            s (k, refl, refl);
    }

    Stage-restore_json :
        (x y b c : Bool)
        → Triple Left
            (λ f. Stage x y f × (is_some f.artifact_quarantine ≡ b) × (is_some f.artifact ≡ c))
            (restore_json fate b c)
            (λ _. Stage x false)
            (Raised (Stage x y))
    unfolding restore_json
    Stage-restore_json x y false c = record {
      at = λ s (k, h, _). (k.0, k.1, k.2, back y _ _ a k.3 h, k.4, k.5);
    }
    Stage-restore_json x false true c = record {
      at = λ s (k, h, _). absurd (not_there s.files.artifact_quarantine k.3.1 h);
    }
    Stage-restore_json x true true true = record {
      at = λ s (k, _, h). absurd (not_there s.files.artifact k.3.0 h);
    }
    Stage-restore_json x true true false =
        Triple.Triple-effect Left fate Faulty mode _ λ f (k, _, _).
          let k' : Stage x false
              (record f { artifact = f.artifact_quarantine; artifact_quarantine = none }) =
            (k.0, k.1, k.2, (k.3.1, refl), k.4, k.5) in
          (k', λ bad. ((bad, k), (bad, staged x true k), (bad, staged x false k')))

    Stage-restore_tmp :
        (x y b c : Bool)
        → Triple Left
            (λ f. Stage x false f × (is_some f.leftover_quarantine ≡ b))
            (restore_tmp fate b c)
            (λ _. Stage x false)
            (Raised (Stage x y))
    unfolding restore_tmp
    Stage-restore_tmp x y false c = record { at = λ s (k, _). k }
    Stage-restore_tmp x y true c = record {
      at = λ s (k, h). absurd (not_there s.files.leftover_quarantine k.5 h);
    }

    pub Stage-restore :
        (x y : Bool)
        → Triple Left (Stage x y) (restore fate) (λ _. Stage x false) (Raised (Stage x y))
    unfolding restore ◌>>=◌
    Stage-restore x y = record {
      at = λ s k.
          (Triple.Triple-bind Left
              (restore_json fate (is_some s.files.artifact_quarantine) (is_some s.files.artifact)) _
              (Stage-restore_json x y (is_some s.files.artifact_quarantine)
                (is_some s.files.artifact))
              (λ r. record {
                at = λ s' k'.
                    (Stage-restore_tmp x y (is_some s'.files.leftover_quarantine) _).at s'
                      (k', refl);
              })).at
            s (k, refl, refl);
    }

    Stage-move_back :
        (x y b c : Bool)
        → Triple Left
            (λ f. Stage x y f × (is_some f.workspace_quarantine ≡ b) × (is_some f.workspace ≡ c))
            (move_back fate b c)
            (λ _. Stage false y)
            (Raised (Stage x y))
    unfolding move_back
    Stage-move_back x y false c = record {
      at = λ s (k, h, _). (k.0, k.1, back x _ _ w k.2 h, k.3, k.4, k.5);
    }
    Stage-move_back false y true c = record {
      at = λ s (k, h, _). absurd (not_there s.files.workspace_quarantine k.2.1 h);
    }
    Stage-move_back true y true true = record {
      at = λ s (k, _, h). absurd (not_there s.files.workspace k.2.0 h);
    }
    Stage-move_back true y true false = Triple.Triple-effect Left fate Faulty mode _ λ f (k, _, _).
        let k' : Stage false y
            (record f { workspace = f.workspace_quarantine; workspace_quarantine = none }) =
          (k.0, k.1, (k.2.1, refl), k.3, k.4, k.5) in
        (k', λ bad. ((bad, k), (bad, staged true y k), (bad, staged false y k')))

    pub Stage-restore_quarantined_project :
        (x y : Bool)
        → Triple Left
            (Stage x y)
            (restore_quarantined_project fate)
            (λ _. Stage false y)
            (Raised (Stage x y))
    unfolding restore_quarantined_project ◌>>=◌
    Stage-restore_quarantined_project x y = record {
      at = λ s k.
          (Stage-move_back x y (is_some s.files.workspace_quarantine)
              (is_some s.files.workspace)).at
            s (k, refl, refl);
    }

    -- The journal of a project at its place is not needed any more.
    pub Settled-remove :
        Triple Left
          (Stage false false)
          (remove fate)
          (λ _. Settled)
          (Raised (λ f. Stage false false f ⊎ Settled f))
    unfolding remove
    Settled-remove =
        Triple.Triple-bind Left _ _
          (Triple.Triple-effect Left {Then = λ _. Settled} fate Faulty mode _ λ f k.
            let k' : Settled (record f { journal = none }) = (k.0, refl, k.2, k.3, k.4, k.5) in
            (k', λ bad. ((bad, inl k), (bad, staged false false k), (bad, settled k'))))
          (λ _.
            Triple.Triple-effect Left fate Faulty mode _
              λ f k. (k, λ bad. ((bad, inr k), (bad, settled k), (bad, settled k))))
