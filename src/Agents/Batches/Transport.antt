-- ===== src/Agents/Batches/Transport.antt =====
-- When `report_transport_complete` of experiments/report.py takes a response for whole, by the fields
-- of the response.
use code_explorer.Base.{
  String, Bool, true, false, not, ◌&&◌, ◌||◌, Option, none, some, List, [], ◌∷◌, ◌≡◌, ◌↔◌, refl,
  arith, sym, ap, ◌∙◌, ◌⊎◌, inl, inr, In, elem_iff, eq_iff, Bool-cases, if◌then◌else◌,
}
use code_explorer.Agents.Batches.{
  ModelResponseMetadata, is_one_of, is_given, is_true, report_transport_complete,
}

-- A text of the list is given.
abbrev pub OneOf : Option String → List String → Type 0
OneOf o names = (s : String) × (o ≡ some s) × In s names

-- A response that has been transmitted whole; it may end by asking for a tool.
pub record IsWhole (m : ModelResponseMetadata) : Type 0 where
  pub kept : m.refused ≡ false
  pub complete : (m.incomplete_reason ≡ none) ⊎ (m.incomplete_reason ≡ some "")
  pub status : OneOf m.response_status ("incomplete" ∷ "failed" ∷ "cancelled" ∷ []) → ⊥
  pub uncut : OneOf m.finish_reason ("length" ∷ "content_filter" ∷ []) → ⊥
  pub ending :
      OneOf m.finish_reason ("tool_calls" ∷ "function_call" ∷ "stop" ∷ [])
      ⊎ (m.response_status ≡ some "completed")

is_one_of_iff :
    (o : Option String) (names : List String) → (is_one_of o names ≡ true) ↔ OneOf o names
is_one_of_iff none names = (λ h. cc h, λ (s, e, m). cc e)
is_one_of_iff (some s) names = (
  λ h. (s, refl, (elem_iff s names).0 h),
  λ (u, e, m). (elem_iff s names).1 (rw (same_text s u e) m),
)
  where
    same_text : (a b : String) → some a ≡ some b → a ≡ b
    same_text a b h = cc h

not_given_iff : (o : Option String) → (is_given o ≡ false) ↔ ((o ≡ none) ⊎ (o ≡ some ""))
not_given_iff none = (λ _. inl refl, λ _. refl)
not_given_iff (some s) = (
  λ h. inr (ap some ((eq_iff s "").0 (ground (arith, h)))),
  λ k. elim k [ inl e ↦ cc e | inr e ↦ ap is_given e ],
)

one_more :
    (o : Option String) (a b c : String)
    → (is_one_of o (a ∷ b ∷ []) || is_one_of o (c ∷ [])) ≡ is_one_of o (a ∷ b ∷ c ∷ [])
one_more none a b c = refl
one_more (some s) a b c = ground arith

decision :
    (a b c d e f g : Bool)
    → is_true (
        if a || b || c
        then some false
        else (if d
            then some false
            else (if e then some true else (if f || g then some true else none))))
      ≡ (not a && not b && not c && not d && (e || f || g))
decision true b c d e f g = refl
decision false true c d e f g = refl
decision false false true d e f g = refl
decision false false false true e f g = refl
decision false false false false true f g = refl
decision false false false false false true g = refl
decision false false false false false false true = refl
decision false false false false false false false = refl

transport_tests :
    (m : ModelResponseMetadata)
    → is_true (report_transport_complete m true)
      ≡ not m.refused
        && not (is_given m.incomplete_reason)
        && not (is_one_of m.response_status ("incomplete" ∷ "failed" ∷ "cancelled" ∷ []))
        && not (is_one_of m.finish_reason ("length" ∷ "content_filter" ∷ []))
        && (is_one_of m.finish_reason ("tool_calls" ∷ "function_call" ∷ [])
            || is_one_of m.finish_reason ("stop" ∷ [])
            || is_one_of m.response_status ("completed" ∷ []))
unfolding report_transport_complete
transport_tests m = decision m.refused _ _ _ _ _ _

fails : {b : Bool} {P : Type 0} → (b ≡ true) ↔ P → not b ≡ true → P → ⊥
fails k h p = cc (k.1 p, h)

passes_not : (b : Bool) {P : Type 0} → (b ≡ true) ↔ P → (P → ⊥) → not b ≡ true
passes_not true k no_p = absurd (no_p (k.0 refl))
passes_not false k no_p = refl

only_name : (o : Option String) (a : String) → OneOf o (a ∷ []) → o ≡ some a
only_name o a (s, e, inl same) = e ∙ ap some same
only_name o a (s, e, inr m) = elim m [ ]

-- What the tests come to, one by one.
all_of :
    (a b c d e : Bool)
    → (not a && not b && not c && not d && e) ≡ true
    → (a ≡ false) × (b ≡ false) × (not c ≡ true) × (not d ≡ true) × (e ≡ true)
all_of a b c d e h = (ground arith, ground arith, ground arith, ground arith, ground arith)

of_all :
    (a b c d e : Bool)
    → a ≡ false
    → b ≡ false
    → not c ≡ true
    → not d ≡ true
    → e ≡ true
    → (not a && not b && not c && not d && e) ≡ true
of_all a b c d e ha hb hc hd he = ground arith

ending_tests :
    (m : ModelResponseMetadata)
    → ((is_one_of m.finish_reason ("tool_calls" ∷ "function_call" ∷ [])
          || is_one_of m.finish_reason ("stop" ∷ [])
          || is_one_of m.response_status ("completed" ∷ []))
        ≡ true)
      ↔ (OneOf m.finish_reason ("tool_calls" ∷ "function_call" ∷ "stop" ∷ [])
          ⊎ (m.response_status ≡ some "completed"))
ending_tests m =
    let tools = is_one_of_iff m.finish_reason ("tool_calls" ∷ "function_call" ∷ "stop" ∷ []) in
    let done = is_one_of_iff m.response_status ("completed" ∷ []) in
    let more = one_more m.finish_reason "tool_calls" "function_call" "stop" in
    (
      λ h. elim (Bool-cases (is_one_of m.response_status ("completed" ∷ []))) [
        | inl e ↦ inr (only_name _ _ (done.0 e))
        | inr e ↦ inl (tools.0 (sym more ∙ ground (arith, h, e)))
      ],
      λ k. elim k [
        | inl t ↦ ground (arith, more, tools.1 t)
        | inr c ↦ ground (arith, done.1 ("completed", c, inl refl))
      ],
    )

pub transport-IsWhole :
    (m : ModelResponseMetadata) → (is_true (report_transport_complete m true) ≡ true) ↔ IsWhole m
transport-IsWhole m =
    let bad = is_one_of_iff m.response_status ("incomplete" ∷ "failed" ∷ "cancelled" ∷ []) in
    let cut = is_one_of_iff m.finish_reason ("length" ∷ "content_filter" ∷ []) in
    let given = not_given_iff m.incomplete_reason in
    (
      λ h.
          let (r, g, b, c, e) = all_of _ _ _ _ _ (sym (transport_tests m) ∙ h) in
          record {
            kept = r;
            complete = given.0 g;
            status = fails bad b;
            uncut = fails cut c;
            ending = (ending_tests m).0 e;
          },
      λ w.
          transport_tests m
          ∙ of_all _ _ _ _ _ w.kept (given.1 w.complete) (passes_not _ bad w.status)
              (passes_not _ cut w.uncut) ((ending_tests m).1 w.ending),
    )
