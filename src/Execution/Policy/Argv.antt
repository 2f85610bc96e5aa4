-- ===== src/Execution/Policy/Argv.antt =====
-- `_IMAGE_PATTERN` and `_validate_argv` of policy.py.
pub mod Images
use Prim.Native.Char.{code}
use Prim.Native.String.{len}
use code_explorer.Base.{
  ℕ, suc, ◌+◌, String, Bool, true, false, ◌&&◌, ◌||◌, List, [], ◌∷◌, ◌==◌, length, leb, ltb,
}
use code_explorer.Execution.Result.{Outcome, returned, raised, execution_error, ◌>>=◌}
use code_explorer.Execution.Contracts.{is_empty}

is_alnum : ℕ → Bool
is_alnum c = leb b'A' c && leb c b'Z' || leb b'a' c && leb c b'z' || leb b'0' c && leb c b'9'

-- `._/:@-`
is_mark : ℕ → Bool
is_mark c =
    leb b'.' c && leb c b'.'
    || leb b'_' c && leb c b'_'
    || leb b'/' c && leb c b'/'
    || leb b':' c && leb c b':'
    || leb b'@' c && leb c b'@'
    || leb b'-' c && leb c b'-'

-- `[A-Za-z0-9._/:@-]{0,n}` up to the end of the text
rest_matches : ℕ → String → Bool
unfolding is_alnum is_mark
rest_matches n String.[] = true
rest_matches ℕ.zero (String.◌∷◌ c s) = false
rest_matches (suc n) (String.◌∷◌ c s) = (is_alnum (code c) || is_mark (code c)) && rest_matches n s

-- `_IMAGE_PATTERN.fullmatch(image)`
unfoldable pub image_matches : String → Bool
unfolding is_alnum rest_matches
image_matches String.[] = false
image_matches (String.◌∷◌ c s) = is_alnum (code c) && rest_matches 254 s

-- `"\x00" in argument`
abbrev pub has_nul : String → Bool
has_nul String.[] = false
has_nul (String.◌∷◌ c s) = leb (code c) 0 || has_nul s

-- The loop over the arguments; `encoded` is the number of bytes of an argument's UTF-8 form.
unfoldable pub measure_argv : ℕ → List String → Outcome ℕ
measure_argv total [] = returned total
measure_argv total (argument ∷ rest) =
    let encoded = len argument in
    elim (argument == "" || has_nul argument) [
      | true ↦ raised (execution_error "Execution argv contains an invalid item." 422)
      | false ↦ elim (ltb 2048 encoded) [
        | true ↦ raised (execution_error "Execution argument is too long." 422)
        | false ↦ measure_argv (total + encoded) rest
      ]
    ]

unfoldable pub validate_argv : List String → Outcome Unit
unfolding measure_argv
validate_argv argv = elim (is_empty argv || ltb 64 (length argv)) [
  | true ↦ raised (execution_error "Execution argv must contain between 1 and 64 items." 422)
  | false ↦ do
    total ← measure_argv 0 argv
    elim (ltb 8192 total) [
      | true ↦ raised (execution_error "Execution argv exceeds the total size limit." 422)
      | false ↦ returned tt
    ]
]
