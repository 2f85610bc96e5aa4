-- ===== src/Execution/Docker/Output.antt =====
-- docker_executor.py: what a run's listener has been given.
use code_explorer.Base.{
  ℕ, zero, suc, ◌-◌, min, Option, none, some, List, [], ◌∷◌, ◌++◌, ◌≡◌, refl, arith, sym, ap, ◌∙◌,
  length, length-append, take, ltb, if◌then◌else◌,
}
use code_explorer.Execution.Docker.{Streamed, accept, drain}

-- The bytes of the chunks before the reader's end.
abbrev pub bytes_of : List (Option (List ℕ)) → List ℕ
bytes_of [] = []
bytes_of (none ∷ _) = []
bytes_of (some chunk ∷ chunks) = chunk ++ bytes_of chunks

-- Of all the bytes so far, the listener has the first ones up to the limit, and the mark says
-- whether there were more.
pub record Shows (limit : ℕ) (all : List ℕ) (s : Streamed) : Type 0 where
  pub output : s.output ≡ take limit all
  pub counted : s.output_bytes ≡ length s.output
  pub marked : s.truncated ≡ ltb limit (length all)

minus_zero : (n : ℕ) → n ≡ n - 0
minus_zero n = omega arith

zero_minus : (n : ℕ) → 0 - n ≡ 0
zero_minus n = omega arith

minus_suc : (n k : ℕ) → suc n - suc k ≡ n - k
minus_suc n k = omega arith

take_append :
    (n : ℕ) (xs ys : List ℕ) → take n xs ++ take (n - length (take n xs)) ys ≡ take n (xs ++ ys)
take_append zero xs ys = ap (λ k. take k ys) (zero_minus 0)
take_append (suc n) [] ys = ap (λ k. take k ys) (sym (minus_zero (suc n)))
take_append (suc n) (x ∷ xs) ys =
    ap (λ k. x ∷ (take n xs ++ take k ys)) (minus_suc n (length (take n xs)))
    ∙ ap (λ l. x ∷ l) (take_append n xs ys)

length-take : (n : ℕ) (xs : List ℕ) → length (take n xs) ≡ min n (length xs)
length-take zero xs = omega arith
length-take (suc n) [] = omega arith
length-take (suc n) (x ∷ xs) = omega (arith, length-take n xs)

-- The test on `remaining` only saves a call.
accepted_lem : (n : ℕ) (chunk : List ℕ) → (if ltb 0 n then take n chunk else []) ≡ take n chunk
accepted_lem zero chunk = refl
accepted_lem (suc n) chunk = ground arith

Shows-accept :
    (limit : ℕ) (all chunk : List ℕ) (s : Streamed)
    → Shows limit all s
    → Shows limit (all ++ chunk) (accept limit chunk s)
unfolding accept
Shows-accept limit all chunk s h =
    let e = h.counted ∙ ap length h.output in
    let a = accepted_lem (limit - s.output_bytes) chunk in
    record {
      output = rw (a, h.output, e) (take_append limit all chunk);
      counted =
          rw
            (
              length-append s.output (
                  if ltb 0 (limit - s.output_bytes)
                  then take (limit - s.output_bytes) chunk
                  else []),
              h.counted,
            )
            refl;
      marked = ground (arith, h.marked, e, length-take limit all, length-append all chunk);
    }

append_assoc : (xs ys zs : List ℕ) → (xs ++ ys) ++ zs ≡ xs ++ (ys ++ zs)
append_assoc [] ys zs = refl
append_assoc (x ∷ xs) ys zs = ap (λ l. x ∷ l) (append_assoc xs ys zs)

append_nil : (xs : List ℕ) → xs ++ [] ≡ xs
append_nil [] = refl
append_nil (x ∷ xs) = ap (λ l. x ∷ l) (append_nil xs)

-- A round keeps this: of all the bytes read so far, the listener has been given exactly the first
-- max_output_bytes, and `truncated` is set exactly when there were more.
pub drain-Shows :
    (limit : ℕ) (chunks : List (Option (List ℕ))) (all : List ℕ) (s : Streamed)
    → Shows limit all s
    → Shows limit (all ++ bytes_of chunks) (drain limit chunks s).0
unfolding drain
drain-Shows limit [] all s h = rw (append_nil all) h
drain-Shows limit (none ∷ chunks) all s h = rw (append_nil all) h
drain-Shows limit (some chunk ∷ chunks) all s h =
    rw (sym (append_assoc all chunk (bytes_of chunks)))
      (drain-Shows limit chunks (all ++ chunk) _ (Shows-accept limit all chunk s h))
