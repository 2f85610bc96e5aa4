-- ===== src/Execution/Docker.antt =====
-- backend/app/execution/docker_executor.py: the output limit of `execute`. A byte is a number.
pub mod Output
mod Tests
use code_explorer.Base.{
  ℕ, ◌+◌, ◌-◌, Bool, true, false, ◌||◌, Option, none, some, List, [], ◌∷◌, ◌++◌, length, take, ltb,
  if◌then◌else◌,
}

-- `output_bytes` and `truncated`, with the bytes that `on_output` has been given.
pub record Streamed : Type 0 where
  pub output : List ℕ
  pub output_bytes : ℕ
  pub truncated : Bool

-- A chunk from the queue. `output_bytes` stays within the limit, so that `remaining` does.
unfoldable pub accept : ℕ → List ℕ → Streamed → Streamed
accept max_output_bytes chunk s =
    let remaining = max_output_bytes - s.output_bytes in
    let accepted = if ltb 0 remaining then take remaining chunk else [] in
    record {
      output = s.output ++ accepted;
      output_bytes = s.output_bytes + length accepted;
      truncated = s.truncated || ltb remaining (length chunk);
    }

-- The inner loop of a round: what the queue holds now, up to the reader's `None`. The flag is
-- `reader_finished`.
unfoldable pub drain : ℕ → List (Option (List ℕ)) → Streamed → Streamed × Bool
unfolding accept
drain max_output_bytes [] s = (s, false)
drain max_output_bytes (none ∷ _) s = (s, true)
drain max_output_bytes (some chunk ∷ chunks) s =
    drain max_output_bytes chunks (accept max_output_bytes chunk s)
