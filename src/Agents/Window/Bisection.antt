-- ===== src/Agents/Window/Bisection.antt =====
-- The binary search of conversation_window.py for a limit of characters.
use code_explorer.Base.{
  ℕ, suc, zero, ◌+◌, ◌-◌, ◌/◌, ◌≤◌, ◌<◌, Bool, true, false, Option, none, some, List, ◌≡◌, refl,
  arith, sym, subst, inl, inr, ◌⊎◌, ltb, Bool-cases,
}
use code_explorer.Agents.Window.{
  WindowMessage, ToolRound, Codec, ended, bisect, largest, round_messages, fits, limit_of,
}

-- The end of a range, or a number that fails the test.
abbrev pub Stops : (ℕ → Bool) → ℕ → ℕ → Type 0
Stops test bound n = (n ≡ bound) ⊎ (test n ≡ false)

-- A number of a range that passes the test while the next one stops it; or what was found before, where
-- the first one stops it.
abbrev pub IsEdge : (ℕ → Bool) → ℕ → ℕ → Option ℕ → Option ℕ → Type 0
IsEdge test low bound found o =
    ((o ≡ found) × Stops test bound low)
    ⊎ ((m : ℕ) × (o ≡ some m)
        × (low ≤ m)
        × (m < bound)
        × (test m ≡ true)
        × Stops test bound (suc m))

middle_within :
    (low bound : ℕ)
    → low < bound
    → (low ≤ (low + (bound - 1)) / 2) × ((low + (bound - 1)) / 2 < bound)
middle_within low bound h = (omega (arith, h), omega (arith, h))

-- The end of a shorter range that fails the test stops the longer one too.
Stops-lower :
    (test : ℕ → Bool) (middle bound n : ℕ)
    → test middle ≡ false
    → Stops test middle n
    → Stops test bound n
Stops-lower test middle bound n fails (inl e) = inr (subst (λ k. test k ≡ false) (sym e) fails)
Stops-lower test middle bound n fails (inr f) = inr f

range_over : (low bound : ℕ) → low ≤ bound → ltb low bound ≡ false → low ≡ bound
range_over low bound le over = ground (arith, le, over)

pub bisect-IsEdge :
    (fuel : ℕ) (test : ℕ → Bool) (low bound : ℕ) (found : Option ℕ)
    → low ≤ bound
    → bound ≤ low + fuel
    → (o : Option ℕ) × (bisect fuel test low bound found ≡ ended o) × IsEdge test low bound found o
bisect-IsEdge zero test low bound found le enough = elim (Bool-cases (ltb low bound)) [
  | inl open_range ↦ absurd (ground (arith, open_range, enough))
  | inr over ↦ rw over (found, refl, inl (refl, inl (range_over low bound le over)))
]
bisect-IsEdge (suc fuel) test low bound found le enough =
    let middle : ℕ = (low + (bound - 1)) / 2 in
    elim (Bool-cases (ltb low bound)) [
      | inr over ↦ rw over (found, refl, inl (refl, inl (range_over low bound le over)))
      | inl open_range ↦
          let (above, below) = middle_within low bound (ground (arith, open_range)) in
          elim (Bool-cases (test middle)) [
            | inl passes ↦
                let (o, run, edge) =
                  bisect-IsEdge fuel test (suc middle) bound (some middle) below
                    (omega (arith, enough, above)) in
                rw (open_range, passes)
                  (
                    o,
                    run,
                    elim edge [
                      | inl (same, stop) ↦ inr (middle, same, above, below, passes, stop)
                      | inr (m, same, ge, lt, ok, stop) ↦
                          inr (m, same, omega (arith, ge, above), lt, ok, stop)
                    ],
                  )
            | inr fails ↦
                let (o, run, edge) =
                  bisect-IsEdge fuel test low middle found above (omega (arith, enough, below)) in
                rw (open_range, fails)
                  (
                    o,
                    run,
                    elim edge [
                      | inl (same, stop) ↦ inl (same, Stops-lower test middle bound low fails stop)
                      | inr (m, same, ge, lt, ok, stop) ↦ inr (
                        m,
                        same,
                        ge,
                        omega (arith, lt, below),
                        ok,
                        Stops-lower test middle bound (suc m) fails stop,
                      )
                    ],
                  )
          ]
    ]

-- The search for the limit of a round ends within its fuel. A limit that it finds is no longer than the
-- longest observation, the round fits with it, and does not with one character more, unless there is no
-- longer one to try; it finds none only where the round does not fit with no characters at all.
pub limit_of-IsEdge :
    (codec : Codec) (report_only : Bool) (planner_fits : List WindowMessage → Bool) (total : ℕ)
    (tail : List WindowMessage) (r : ToolRound) (groups : List (List WindowMessage))
    → let test = (λ (n : ℕ).
      fits codec report_only planner_fits total tail groups
        (round_messages codec report_only r (some n))) in
      let longest = largest codec report_only r.observations in
      (o : Option ℕ) × (limit_of codec report_only planner_fits total tail r groups ≡ ended o)
      × (((o ≡ none) × (test 0 ≡ false))
          ⊎ ((m : ℕ) × (o ≡ some m)
              × (m ≤ longest)
              × (test m ≡ true)
              × ((m ≡ longest) ⊎ (test (suc m) ≡ false))))
limit_of-IsEdge codec report_only planner_fits total tail r groups =
    let test : ℕ → Bool = (λ n.
      fits codec report_only planner_fits total tail groups
        (round_messages codec report_only r (some n))) in
    let longest : ℕ = largest codec report_only r.observations in
    let (o, run, edge) =
      bisect-IsEdge (suc longest) test 0 (suc longest) none (omega arith) (omega arith) in
    (
      o,
      run,
      elim edge [
        | inl (same, stop) ↦ inl (same, elim stop [ inl e ↦ absurd (omega (arith, e)) | inr f ↦ f ])
        | inr (m, same, _, lt, ok, stop) ↦ inr (
          m,
          same,
          omega (arith, lt),
          ok,
          elim stop [ inl e ↦ inl (omega (arith, e)) | inr f ↦ inr f ],
        )
      ],
    )
