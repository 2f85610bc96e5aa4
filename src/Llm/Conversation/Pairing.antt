-- ===== src/Llm/Conversation/Pairing.antt =====
-- `validate_messages`: the calls of tools and their results.
use code_explorer.Base.{
  ℕ, ◌+◌, ◌≤◌, String, Bool, true, false, not, ◌&&◌, ◌||◌, List, [], ◌∷◌, ◌++◌, ◌==◌, ◌≡◌, refl,
  arith, sym, ap, ◌∙◌, inl, inr, ◌⊎◌, elem, eq_iff, if◌then◌else◌, Bool-cases,
}
use code_explorer.Execution.Result.{returned, chain_returned}
use code_explorer.Execution.Contracts.{is_empty}
use code_explorer.Llm.Conversation.{
  ToolCall, Message, or_empty, remove, add_calls, spoken, validate_from, validate_messages,
}

abbrev pub one_if : Bool → ℕ
one_if true = 1
one_if false = 0

-- How many of the calls have the identifier.
abbrev pub calls_with : String → List ToolCall → ℕ
calls_with i [] = 0
calls_with i (c ∷ cs) = one_if (i == or_empty c.id) + calls_with i cs

module _ {J : Type 0} where
  abbrev pub requested_by : String → Message J → ℕ
  requested_by i m = if m.role == "tool" then 0 else calls_with i m.tool_calls

  abbrev pub answered_by : String → Message J → ℕ
  answered_by i m = if m.role == "tool" then one_if (i == or_empty m.tool_call_id) else 0

  -- How often the messages call a tool, and answer, under the identifier.
  abbrev pub requests : String → List (Message J) → ℕ
  requests i [] = 0
  requests i (m ∷ ms) = requested_by i m + requests i ms

  abbrev pub answers : String → List (Message J) → ℕ
  answers i [] = 0
  answers i (m ∷ ms) = answered_by i m + answers i ms

gone : (b c : Bool) → (c && not b) ≡ (b || c) && not b
gone b c = ground arith

two_names : (i m n : String) → (m == n) ≡ false → ((i == m) && (i == n)) ≡ false
two_names i m n e = elim (Bool-cases (i == m)) [
  | inl q ↦ rw (q, (eq_iff i m).0 q) e
  | inr q ↦ rw q refl
]

stays : (a b c : Bool) → (a && c) ≡ false → a || (b && not c) ≡ (a || b) && not c
stays a b c h = ground (arith, h)

elem-remove : (i n : String) (ns : List String) → elem i (remove n ns) ≡ elem i ns && not (i == n)
elem-remove i n [] = refl
elem-remove i n (m ∷ ns) = elim (Bool-cases (m == n)) [
  | inl e ↦ rw e (elem-remove i n ns ∙ rw ((eq_iff m n).0 e) (gone (i == n) (elem i ns)))
  | inr e ↦ rw e (
      ap (λ b. i == m || b) (elem-remove i n ns)
      ∙ stays (i == m) (elem i ns) (i == n) (two_names i m n e))
]

still : (a b c : Bool) → (b ≡ true → c ≡ true) → (a || b) ≡ true → (a || c) ≡ true
still a b c k h = ground (arith, h, k)

new_name : (i n : String) (s : List String) → elem n s ≡ false → ((i == n) && elem i s) ≡ false
new_name i n s h = elim (Bool-cases (i == n)) [
  | inl q ↦ rw (q, (eq_iff i n).0 q) h
  | inr q ↦ rw q refl
]

one_if-or : (a b : Bool) → (a && b) ≡ false → one_if (a || b) ≡ one_if a + one_if b
one_if-or false b h = omega arith
one_if-or true false h = omega arith
one_if-or true true h = cc h

below_too : (a b c : Bool) → (b ≡ true → c ≡ true) → (a && c) ≡ false → (a && b) ≡ false
below_too a b c k h = ground (arith, h, k)

add_calls-calls_with :
    (cs : List ToolCall) (p s p' s' : List String) (i : String)
    → add_calls cs p s ≡ returned (p', s')
    → (elem i p ≡ true → elem i s ≡ true)
    → (one_if (elem i p') ≡ one_if (elem i p) + calls_with i cs)
      × (one_if (elem i s') ≡ one_if (elem i s) + calls_with i cs)
      × (elem i p' ≡ true → elem i s' ≡ true)
unfolding add_calls
add_calls-calls_with [] p s p' s' i h k =
    let same_p : p' ≡ p = cc h in
    let same_s : s' ≡ s = cc h in rw (same_p, same_s) (omega arith, omega arith, k)
add_calls-calls_with (c ∷ cs) p s p' s' i h k =
    let call_id : String = or_empty c.id in
    elim (Bool-cases (call_id == "" || elem call_id s)) [
      | inl e ↦ absurd (cc (rw e at h))
      | inr e ↦
          let (ps, ss, below) =
            add_calls-calls_with cs (call_id ∷ p) (call_id ∷ s) p' s' i (rw e at h)
              (λ m. still (i == call_id) (elem i p) (elem i s) k m) in
          let apart_s = new_name i call_id s (ground (arith, e)) in
          let apart_p = below_too (i == call_id) (elem i p) (elem i s) k apart_s in
          (
            omega (arith, ps, one_if-or (i == call_id) (elem i p) apart_p),
            omega (arith, ss, one_if-or (i == call_id) (elem i s) apart_s),
            below,
          )
    ]

kept_one : (b : Bool) → one_if (b && true) + 0 ≡ one_if b
kept_one true = omega arith
kept_one false = omega arith

at_most_one : (b : Bool) → one_if b + 0 ≤ 1
at_most_one true = omega arith
at_most_one false = omega arith

removed :
    (i n : String) (p : List String)
    → elem n p ≡ true
    → one_if (elem i (remove n p)) + one_if (i == n) ≡ one_if (elem i p)
removed i n p h = elim (Bool-cases (i == n)) [
  | inl q ↦ rw (elem-remove i n p, q, (eq_iff i n).0 q, h) refl
  | inr q ↦ rw (elem-remove i n p, q) (kept_one (elem i p))
]

empty_elem : (i : String) (p : List String) → is_empty p ≡ true → elem i p ≡ false
empty_elem i [] h = refl
empty_elem i (x ∷ p) h = cc h

first_true : (a b : Bool) → (a && b) ≡ true → a ≡ true
first_true a b h = ground (arith, h)

module _ {J : Type 0} where
  -- What the checks of a message that is no result have found.
  spoken_added :
      (m : Message J) (p s : List String) (sets : List String × List String)
      → spoken m p s ≡ returned sets
      → (is_empty p ≡ true) × (add_calls m.tool_calls p s ≡ returned sets)
  unfolding spoken
  spoken_added m p s sets h = elim (Bool-cases (is_empty p)) [
    | inr e ↦ absurd (cc (rw e at h))
    | inl e ↦ elim (Bool-cases (m.role == "user" || m.role == "assistant")) [
      | inr r ↦ absurd (cc (rw (e, r) at h))
      | inl r ↦ elim (Bool-cases (not (m.role == "assistant") && not (is_empty m.tool_calls))) [
        | inl c ↦ absurd (cc (rw (e, r, c) at h))
        | inr c ↦ (e, rw (e, r, c) at h)
      ]
    ]
  ]

  -- One message of a conversation that is accepted.
  accepted_message :
      (m : Message J) (ms : List (Message J)) (p s : List String)
      → validate_from (m ∷ ms) p s ≡ returned tt
      → ((m.role == "tool") ≡ true
          × (elem (or_empty m.tool_call_id) p ≡ true)
          × (validate_from ms (remove (or_empty m.tool_call_id) p) s ≡ returned tt))
        ⊎ (((m.role == "tool") ≡ false)
            × (is_empty p ≡ true)
            × ((sets : List String × List String) × (add_calls m.tool_calls p s ≡ returned sets)
                × (validate_from ms sets.0 sets.1 ≡ returned tt)))
  unfolding validate_from
  accepted_message m ms p s h = elim (Bool-cases (m.role == "tool")) [
    | inl t ↦ elim (Bool-cases (elem (or_empty m.tool_call_id) p)) [
      | inl e ↦ inl (t, e, rw (t, e) at h)
      | inr e ↦ absurd (cc (rw (t, e) at h))
    ]
    | inr t ↦
        let (sets, added, rest) =
          chain_returned (spoken m p s)
            (λ (sets : List String × List String). validate_from ms sets.0 sets.1) (rw t at h) in
        let (none_waits, calls) = spoken_added m p s sets added in
        inr (t, none_waits, (sets, calls, rest))
  ]

  -- What is pending and what is requested later makes up the answers, and each identifier is used once.
  balance :
      (ms : List (Message J)) (p s : List String) (i : String)
      → validate_from ms p s ≡ returned tt
      → (elem i p ≡ true → elem i s ≡ true)
      → (one_if (elem i p) + requests i ms ≡ answers i ms) × (one_if (elem i s) + requests i ms ≤ 1)
  unfolding validate_from
  balance [] p s i h k = elim (Bool-cases (is_empty p)) [
    | inl e ↦ rw (empty_elem i p e) (omega arith, at_most_one (elem i s))
    | inr e ↦ absurd (cc (rw e at h))
  ]
  balance (m ∷ ms) p s i h k = elim (accepted_message m ms p s h) [
    | inl (t, e, rest) ↦
        let (same, once) =
          balance ms (remove (or_empty m.tool_call_id) p) s i rest
            (λ q. k (first_true _ _ (sym (elem-remove i (or_empty m.tool_call_id) p) ∙ q))) in
        let back = removed i (or_empty m.tool_call_id) p e in
        rw t (omega (arith, same, back), omega (arith, once))
    | inr (t, none_waits, (sets, calls, rest)) ↦
        let (ps, ss, below) = add_calls-calls_with m.tool_calls p s sets.0 sets.1 i calls k in
        let (same, once) = balance ms sets.0 sets.1 i rest below in
        rw t (omega (arith, same, ps), omega (arith, once, ss))
  ]

  -- In the beginning of a conversation, no more answers than what is pending or has been requested.
  answers_follow :
      (xs ys : List (Message J)) (p s : List String) (i : String)
      → validate_from (xs ++ ys) p s ≡ returned tt
      → (elem i p ≡ true → elem i s ≡ true)
      → answers i xs ≤ one_if (elem i p) + requests i xs
  answers_follow [] ys p s i h k = omega arith
  answers_follow (m ∷ xs) ys p s i h k = elim (accepted_message m (xs ++ ys) p s h) [
    | inl (t, e, rest) ↦
        let le =
          answers_follow xs ys (remove (or_empty m.tool_call_id) p) s i rest
            (λ q. k (first_true _ _ (sym (elem-remove i (or_empty m.tool_call_id) p) ∙ q))) in
        let back = removed i (or_empty m.tool_call_id) p e in rw t (omega (arith, le, back))
    | inr (t, none_waits, (sets, calls, rest)) ↦
        let (ps, ss, below) = add_calls-calls_with m.tool_calls p s sets.0 sets.1 i calls k in
        let le = answers_follow xs ys sets.0 sets.1 i rest below in rw t (omega (arith, le, ps))
  ]

  -- In a conversation that validate_messages accepts, each identifier is requested at most once and
  -- answered as often as it is requested, and no beginning of it answers what it has not requested.
  pub validate_messages_pairs :
      (xs ys : List (Message J)) (i : String)
      → validate_messages (xs ++ ys) ≡ returned tt
      → (requests i (xs ++ ys) ≡ answers i (xs ++ ys))
        × (requests i (xs ++ ys) ≤ 1)
        × (answers i xs ≤ requests i xs)
  unfolding validate_messages
  validate_messages_pairs xs ys i h =
      let (same, once) = balance (xs ++ ys) [] [] i h (λ e. e) in
      let le = answers_follow xs ys [] [] i h (λ e. e) in
      (omega (arith, same), omega (arith, once), omega (arith, le))
