-- ===== src/Agents/Window/Fits.antt =====
-- `render_conversation_window`: what it returns is within the budget, and keeps the latest round.
use code_explorer.Base.{
  ℕ, suc, zero, ◌+◌, ◌-◌, ◌/◌, ◌≤◌, subst, ltb, Bool, true, false, Option, none, some, List, [],
  ◌∷◌, ◌≡◌, refl, arith, inl, inr, ◌⊎◌, length, Bool-cases,
}
use code_explorer.Execution.Contracts.{is_empty}
use code_explorer.Execution.Result.{returned, chain_returned}
use code_explorer.Agents.Window.{
  WindowMessage, initial, ToolRound, Codec, Kept, Window, concat_onto, reverse_onto,
  count_observations, round_messages, largest, SearchEnd, ended, out_of_fuel, bisect, fits,
  keep_group, limit_of, keep_limited, keep_round, keep_rounds, window_of,
  render_conversation_window,
}

found_one : (test : ℕ → Bool) (m n : ℕ) → test m ≡ true → some m ≡ some n → test n ≡ true
found_one test m n passes e = subst (λ x. test x ≡ true) (cc e) passes

same_end : (o o' : Option ℕ) → ended o ≡ ended o' → o ≡ o'
same_end o o' h = cc h

-- A limit that the search finds has passed its test.
bisect-passes :
    (fuel : ℕ) (test : ℕ → Bool) (low bound : ℕ) (found : Option ℕ) (m : ℕ)
    → ((n : ℕ) → found ≡ some n → test n ≡ true)
    → bisect fuel test low bound found ≡ ended (some m)
    → test m ≡ true
bisect-passes zero test low bound found m k h = elim (Bool-cases (ltb low bound)) [
  | inl e ↦ absurd (cc (rw e at h))
  | inr e ↦ k m (same_end found (some m) (rw e at h))
]
bisect-passes (suc fuel) test low bound found m k h =
    let middle : ℕ = (low + (bound - 1)) / 2 in
    elim (Bool-cases (ltb low bound)) [
      | inr over ↦ k m (same_end found (some m) (rw over at h))
      | inl open_range ↦ elim (Bool-cases (test middle)) [
        | inl passes ↦
            bisect-passes fuel test (suc middle) bound (some middle) m
              (λ n e. found_one test middle n passes e) (rw (open_range, passes) at h)
        | inr fails ↦ bisect-passes fuel test low middle found m k (rw (open_range, fails) at h)
      ]
    ]

same_kept : (a b : Kept) → returned a ≡ returned b → a ≡ b
same_kept a b h = cc h

from_returned :
    (a b : Kept) → returned a ≡ returned b → is_empty a.groups ≡ false → is_empty b.groups ≡ false
from_returned a b h s = subst (λ (x : Kept). is_empty x.groups ≡ false) (same_kept a b h) s

module _ (codec : Codec) (report_only : Bool) (planner_fits : List WindowMessage → Bool) (total : ℕ)
    (tail : List WindowMessage) where
  -- The groups that are kept fit together, under a notice that counts every result as compacted.
  pub record IsWithin (left : ℕ) (k : Kept) : Type 0 where
    pub budget :
        (k.groups ≡ [])
        ⊎ (planner_fits (initial (length k.groups) total ∷ concat_onto k.groups tail) ≡ true)
    pub counts : k.compacted ≤ k.included
    pub room : k.included + left ≤ total

  IsWithin-keep_group :
      (group : List WindowMessage) (count compacted left : ℕ) (k : Kept)
      → fits codec report_only planner_fits total tail k.groups group ≡ true
      → compacted ≤ count
      → IsWithin (count + left) k
      → IsWithin left (keep_group codec report_only planner_fits total tail group count compacted k)
  IsWithin-keep_group group count compacted left k f le w = record {
    budget = inr f;
    counts = omega (arith, w.counts, le);
    room = omega (arith, w.room);
  }

  IsWithin-fewer : (count left : ℕ) (k : Kept) → IsWithin (count + left) k → IsWithin left k
  IsWithin-fewer count left k w = record {
    budget = w.budget;
    counts = w.counts;
    room = omega (arith, w.room);
  }

  keep_limited-IsWithin :
      (newest : Bool) (r : ToolRound) (o : SearchEnd) (left : ℕ) (k k' : Kept)
      → keep_limited codec report_only planner_fits total tail newest r o k ≡ returned k'
      → ((n : ℕ)
          → o ≡ ended (some n)
          → fits codec report_only planner_fits total tail k.groups
              (round_messages codec report_only r (some n))
            ≡ true)
      → IsWithin (length r.observations + left) k
      → IsWithin left k'
  unfolding keep_limited
  keep_limited-IsWithin newest r (ended (some n)) left k k' h f w = subst (IsWithin left) (cc h) (
      IsWithin-keep_group (round_messages codec report_only r (some n)) (length r.observations)
        (length r.observations) left k (f n refl) (omega arith) w)
  keep_limited-IsWithin true r (ended none) left k k' h f w = absurd (cc h)
  keep_limited-IsWithin newest r out_of_fuel left k k' h f w = absurd (cc h)
  keep_limited-IsWithin false r (ended none) left k k' h f w =
      subst (IsWithin left) (cc h) (IsWithin-fewer (length r.observations) left k w)

  keep_round-IsWithin :
      (newest : Bool) (r : ToolRound) (left : ℕ) (k k' : Kept)
      → keep_round codec report_only planner_fits total tail newest r k ≡ returned k'
      → IsWithin (length r.observations + left) k
      → IsWithin left k'
  unfolding keep_round
  keep_round-IsWithin newest r left k k' h w =
      let group : List WindowMessage = round_messages codec report_only r none in
      elim (Bool-cases (fits codec report_only planner_fits total tail k.groups group)) [
        | inl e ↦
            subst (IsWithin left) (cc (rw e at h))
              (IsWithin-keep_group group (length r.observations) 0 left k e (omega arith) w)
        | inr e ↦
            keep_limited-IsWithin newest r
              (limit_of codec report_only planner_fits total tail r k.groups) left k k' (rw e at h)
              (λ n found.
                bisect-passes (suc (largest codec report_only r.observations))
                  (λ m.
                    fits codec report_only planner_fits total tail k.groups
                      (round_messages codec report_only r (some m)))
                  0 (suc (largest codec report_only r.observations)) none n
                  (λ m never. absurd (cc never)) found)
              w
      ]

  keep_rounds-IsWithin :
      (newest : Bool) (rounds : List ToolRound) (k k' : Kept)
      → keep_rounds codec report_only planner_fits total tail newest rounds k ≡ returned k'
      → IsWithin (count_observations rounds) k
      → IsWithin 0 k'
  unfolding keep_rounds
  keep_rounds-IsWithin newest [] k k' h w = subst (IsWithin 0) (cc h) w
  keep_rounds-IsWithin newest (r ∷ rounds) k k' h w =
      let (k1, e, rest) =
        chain_returned (keep_round codec report_only planner_fits total tail newest r k)
          (keep_rounds codec report_only planner_fits total tail false rounds) h in
      keep_rounds-IsWithin false rounds k1 k' rest
        (keep_round-IsWithin newest r (count_observations rounds) k k1 e w)

  keep_limited-some :
      (r : ToolRound) (o : SearchEnd) (k k' : Kept)
      → keep_limited codec report_only planner_fits total tail true r o k ≡ returned k'
      → is_empty k'.groups ≡ false
  unfolding keep_limited
  keep_limited-some r (ended (some n)) k k' h = from_returned _ k' h refl
  keep_limited-some r out_of_fuel k k' h = absurd (cc h)
  keep_limited-some r (ended none) k k' h = absurd (cc h)

  -- The latest round is kept where the loop goes on behind it.
  keep_round-some :
      (r : ToolRound) (k k' : Kept)
      → keep_round codec report_only planner_fits total tail true r k ≡ returned k'
      → is_empty k'.groups ≡ false
  unfolding keep_round
  keep_round-some r k k' h =
      elim (Bool-cases (
        fits codec report_only planner_fits total tail k.groups
          (round_messages codec report_only r none))) [
            | inl e ↦ from_returned _ k' (rw e at h) refl
            | inr e ↦
                keep_limited-some r (limit_of codec report_only planner_fits total tail r k.groups)
                  k k' (rw e at h)
          ]

  keep_limited-more :
      (newest : Bool) (r : ToolRound) (o : SearchEnd) (k k' : Kept)
      → keep_limited codec report_only planner_fits total tail newest r o k ≡ returned k'
      → is_empty k.groups ≡ false
      → is_empty k'.groups ≡ false
  unfolding keep_limited
  keep_limited-more newest r (ended (some n)) k k' h s = from_returned _ k' h refl
  keep_limited-more newest r out_of_fuel k k' h s = absurd (cc h)
  keep_limited-more true r (ended none) k k' h s = absurd (cc h)
  keep_limited-more false r (ended none) k k' h s = from_returned _ k' h s

  keep_round-more :
      (newest : Bool) (r : ToolRound) (k k' : Kept)
      → keep_round codec report_only planner_fits total tail newest r k ≡ returned k'
      → is_empty k.groups ≡ false
      → is_empty k'.groups ≡ false
  unfolding keep_round
  keep_round-more newest r k k' h s =
      elim (Bool-cases (
        fits codec report_only planner_fits total tail k.groups
          (round_messages codec report_only r none))) [
            | inl e ↦ from_returned _ k' (rw e at h) refl
            | inr e ↦
                keep_limited-more newest r
                  (limit_of codec report_only planner_fits total tail r k.groups) k k' (rw e at h) s
          ]

  keep_rounds-more :
      (newest : Bool) (rounds : List ToolRound) (k k' : Kept)
      → keep_rounds codec report_only planner_fits total tail newest rounds k ≡ returned k'
      → is_empty k.groups ≡ false
      → is_empty k'.groups ≡ false
  unfolding keep_rounds
  keep_rounds-more newest [] k k' h s = from_returned _ k' h s
  keep_rounds-more newest (r ∷ rounds) k k' h s =
      let (k1, e, rest) =
        chain_returned (keep_round codec report_only planner_fits total tail newest r k)
          (keep_rounds codec report_only planner_fits total tail false rounds) h in
      keep_rounds-more false rounds k1 k' rest (keep_round-more newest r k k1 e s)

  keep_rounds-some :
      (rounds : List ToolRound) (k k' : Kept)
      → keep_rounds codec report_only planner_fits total tail true rounds k ≡ returned k'
      → is_empty rounds ≡ false
      → is_empty k'.groups ≡ false
  unfolding keep_rounds
  keep_rounds-some [] k k' h s = cc s
  keep_rounds-some (r ∷ rounds) k k' h s =
      let (k1, e, rest) =
        chain_returned (keep_round codec report_only planner_fits total tail true r k)
          (keep_rounds codec report_only planner_fits total tail false rounds) h in
      keep_rounds-more false rounds k1 k' rest (keep_round-some r k k1 e)

some-reverse_onto :
    (rounds done : List ToolRound)
    → (is_empty rounds ≡ false) ⊎ (is_empty done ≡ false)
    → is_empty (reverse_onto rounds done) ≡ false
some-reverse_onto [] done (inl h) = cc h
some-reverse_onto [] done (inr h) = h
some-reverse_onto (r ∷ rounds) done h = some-reverse_onto rounds (r ∷ done) (inr refl)

count-reverse_onto :
    (rounds done : List ToolRound)
    → count_observations (reverse_onto rounds done)
      ≡ count_observations rounds + count_observations done
count-reverse_onto [] done = omega arith
count-reverse_onto (r ∷ rounds) done = omega (arith, count-reverse_onto rounds (r ∷ done))

-- A window of some rounds that is returned is within the budget as it is sent, if a notice that counts fewer results as
-- compacted never takes it over the budget. It counts its observations right: those included, at least
-- as many as are compacted, and those omitted make up all.
pub render_conversation_window_fits :
    (codec : Codec) (report_only : Bool) (planner_fits : List WindowMessage → Bool)
    (tail : List WindowMessage) (rounds : List ToolRound) (w : Window)
    → ((kept m n : ℕ) (rest : List WindowMessage)
        → m ≤ n
        → planner_fits (initial kept n ∷ rest) ≡ true
        → planner_fits (initial kept m ∷ rest) ≡ true)
    → render_conversation_window codec report_only planner_fits tail rounds ≡ returned w
    → is_empty rounds ≡ false
    → (planner_fits w.messages ≡ true)
      × (w.compacted_observations ≤ w.included_observations)
      × (w.included_observations + w.omitted_observations ≡ w.total_observations)
unfolding render_conversation_window
render_conversation_window_fits codec report_only planner_fits tail rounds w mono h given_rounds =
    let total : ℕ = count_observations rounds in
    let empty : Kept = record { groups = []; included = 0; compacted = 0 } in
    let (k, run, out) =
      chain_returned
        (keep_rounds codec report_only planner_fits total tail true (reverse_onto rounds []) empty)
        (λ (x : Kept). returned (window_of total tail x)) h in
    let start : IsWithin codec report_only planner_fits total tail
        (count_observations (reverse_onto rounds [])) empty =
      record {
        budget = inl refl;
        counts = omega arith;
        room = omega (arith, count-reverse_onto rounds []);
      } in
    let inv =
      keep_rounds-IsWithin codec report_only planner_fits total tail true (reverse_onto rounds [])
        empty k run start in
    let nonempty =
      keep_rounds-some codec report_only planner_fits total tail (reverse_onto rounds []) empty k
        run (some-reverse_onto rounds [] (inl given_rounds)) in
    let same : window_of total tail k ≡ w = cc out in
    subst
      (λ (x : Window).
        (planner_fits x.messages ≡ true)
        × (x.compacted_observations ≤ x.included_observations)
        × (x.included_observations + x.omitted_observations ≡ x.total_observations))
      same
      (
        elim inv.budget [
          | inl none_kept ↦ absurd (cc (rw none_kept at nonempty))
          | inr ok ↦
              mono (length k.groups) k.compacted total _ (omega (arith, inv.counts, inv.room)) ok
        ],
        inv.counts,
        omega (arith, inv.room),
      )
