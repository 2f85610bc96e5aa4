-- ===== src/Execution/Docker/Tests.antt =====
-- A round of docker_executor.py over its output limit.
use code_explorer.Base.{ℕ, false, true, Option, none, some, List, [], ◌∷◌, ◌≡◌, refl}
use code_explorer.Execution.Docker.{Streamed, drain}
use code_explorer.Execution.Docker.Output.{Shows, drain-Shows}

abbrev silent : Streamed
silent = record { output = []; output_bytes = 0; truncated = false }

abbrev two_chunks : List (Option (List ℕ))
two_chunks = some (7 ∷ 8 ∷ []) ∷ some (9 ∷ 10 ∷ []) ∷ none ∷ []

drains_two :
    drain 3 two_chunks silent
    ≡ (record { output = 7 ∷ 8 ∷ 9 ∷ []; output_bytes = 3; truncated = true }, true)
unfolding drain
drains_two = refl

Shows-silent : Shows 3 [] silent
Shows-silent = record { output = refl; counted = refl; marked = refl }

drain-Shows_example : Shows 3 (7 ∷ 8 ∷ 9 ∷ 10 ∷ []) (drain 3 two_chunks silent).0
drain-Shows_example = drain-Shows 3 two_chunks [] silent Shows-silent
