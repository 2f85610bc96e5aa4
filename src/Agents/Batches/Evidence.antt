-- ===== src/Agents/Batches/Evidence.antt =====
-- `evidence_message` of batching.py: the archive that the last report is given.
use code_explorer.Base.{
  ℕ, ◌+◌, ◌≤◌, true, List, [], ◌∷◌, ◌++◌, ◌≡◌, refl, arith, sym, subst, ap, ◌∙◌, inl, inr, ◌⊎◌,
  length, leb, Bool-cases,
}
use code_explorer.Agents.Json.{Json}
use code_explorer.Agents.Batches.{
  AnalysisBatches, Envelope, with_row, rows_of, take_rows, evidence_message,
}

-- Some of the items of a list, in their order.
pub data Subsequence {A : Type 0} : List A → List A → Type 0 where
  nothing : Subsequence [] []
  keep : (a : A) (xs ys : List A) → Subsequence xs ys → Subsequence (a ∷ xs) (a ∷ ys)
  skip : (a : A) (xs ys : List A) → Subsequence xs ys → Subsequence xs (a ∷ ys)

append_one : {A : Type 0} (xs : List A) (x : A) (zs : List A) → (xs ++ x ∷ []) ++ zs ≡ xs ++ x ∷ zs
append_one [] x zs = refl
append_one (y ∷ xs) x zs = ap (λ l. y ∷ l) (append_one xs x zs)

append_nil : {A : Type 0} (xs : List A) → xs ++ [] ≡ xs
append_nil [] = refl
append_nil (x ∷ xs) = ap (λ l. x ∷ l) (append_nil xs)

-- What the loop makes of an envelope: more rows, the others left out, and a text within the limit
-- unless no row was chosen.
pub record Fills (size : Envelope → ℕ) (max_chars : ℕ) (rows : List (ℕ × Json)) (e e' : Envelope)
    : Type 0 where
  pub chosen : List (ℕ × Json)
  pub in_order : Subsequence chosen rows
  pub shown : e'.observations ≡ e.observations ++ chosen
  pub left_out : e'.omitted + length chosen ≡ e.omitted
  pub within : (e' ≡ e) ⊎ (size e' ≤ max_chars)

module _ (size : Envelope → ℕ) (max_chars : ℕ) where
  within_limit : (n : ℕ) → leb n max_chars ≡ true → n ≤ max_chars
  within_limit n h = ground (arith, h)

  take_rows-Fills :
      (rows : List (ℕ × Json)) (e : Envelope)
      → length rows ≤ e.omitted
      → Fills size max_chars rows e (take_rows size max_chars rows e)
  take_rows-Fills [] e le = record {
    chosen = [];
    in_order = nothing;
    shown = sym (append_nil e.observations);
    left_out = omega arith;
    within = inl refl;
  }
  take_rows-Fills (row ∷ rows) e le = elim (Bool-cases (leb (size (with_row row e)) max_chars)) [
    | inr no_room ↦
        let k = take_rows-Fills rows e (omega (arith, le)) in
        rw no_room (record {
          chosen = k.chosen;
          in_order = skip row k.chosen rows k.in_order;
          shown = k.shown;
          left_out = k.left_out;
          within = k.within;
        })
    | inl room ↦
        let k = take_rows-Fills rows (with_row row e) (omega (arith, le)) in
        let filled : Fills size max_chars (row ∷ rows) e
            (take_rows size max_chars rows (with_row row e)) =
          record {
            chosen = row ∷ k.chosen;
            in_order = keep row k.chosen rows k.in_order;
            shown = k.shown ∙ append_one e.observations row k.chosen;
            left_out = omega (arith, k.left_out, le);
            within = elim k.within [
              | inl same ↦ inr (
                  subst (λ (x : Envelope). size x ≤ max_chars) (sym same)
                    (within_limit (size (with_row row e)) room))
              | inr ok ↦ inr ok
            ];
          } in
        rw room filled
  ]

  -- The archive shows a part of the archived observations in their order, counts exactly those that it
  -- leaves out, and is within its limit unless it shows none.
  pub evidence_message-Fills :
      {Ledger : Type 0} (b : AnalysisBatches Ledger)
      → Fills size max_chars
          (rows_of b.archives)
          (record { observations = []; omitted = length (rows_of b.archives) })
          (evidence_message size max_chars b)
  unfolding evidence_message
  evidence_message-Fills b = take_rows-Fills (rows_of b.archives) _ (omega arith)
