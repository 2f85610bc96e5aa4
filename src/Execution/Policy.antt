-- ===== src/Execution/Policy.antt =====
-- backend/app/execution/policy.py: image allowlists, argument limits and resource quotas.
pub mod Argv
pub mod Conforms
pub mod Revalidation
pub mod Resolution
pub mod Requests
use Prim.Native.String.{◌++◌}
use code_explorer.Base.{
  ℕ, String, Bool, true, false, not, ◌||◌, Option, none, some, List, [], ◌∷◌, ◌==◌, elem, ltb, map,
}
use code_explorer.Execution.Result.{Outcome, returned, raised, execution_error, ◌>>=◌, ◌>>◌}
use code_explorer.Execution.Contracts.{
  Floats, Kind, command, security_scan, Profile, bandit, semgrep, TaskRequest, Plan, is_empty,
}
use Argv.{image_matches, validate_argv}

-- `settings.scan_images`, a `dict`: the first entry of a name is its value.
abbrev pub lookup : String → List (String × String) → Option String
lookup k [] = none
lookup k ((j, v) ∷ m) = elim (j == k) [ true ↦ some v | false ↦ lookup k m ]

abbrev pub values : List (String × String) → List String
values [] = []
values ((_, v) ∷ m) = v ∷ values m

pub record Settings (F : Type 0) : Type 0 where
  pub allowed_images : List String
  pub scan_images : List (String × String)
  pub max_timeout_seconds : ℕ
  pub max_cpu : F
  pub max_memory_mb : ℕ
  pub max_pids : ℕ
  pub max_output_bytes : ℕ
  pub max_active_tasks_per_user : ℕ
  pub docker_binary : String

abbrev pub profile_name : Profile → String
profile_name bandit = "bandit"
profile_name semgrep = "semgrep"

-- `_SCAN_COMMANDS`
abbrev pub scan_command : Profile → List String
scan_command bandit = "bandit" ∷ "-r" ∷ "/workspace" ∷ "-f" ∷ "json" ∷ []
scan_command semgrep = "semgrep" ∷ "scan" ∷ "--config" ∷ "/rules" ∷ "--json" ∷ "/workspace" ∷ []

abbrev pub or_empty : Option String → String
or_empty none = ""
or_empty (some s) = s

-- `if not image`: both `None` and the empty text
configured_image : Option String → Outcome String
configured_image none =
    raised (execution_error "Requested security scan profile is not configured." 409)
configured_image (some image) = elim (image == "") [
  | true ↦ raised (execution_error "Requested security scan profile is not configured." 409)
  | false ↦ returned image
]

exceeds : String → Outcome Unit
exceeds label =
    raised (execution_error ("Requested " ++ label ++ " limit exceeds server policy.") 422)

-- One round of the loop over `limits`.
limit : Bool → String → Outcome Unit
unfolding exceeds
limit over label = elim over [ true ↦ exceeds label | false ↦ returned tt ]

module _ (fl : Floats) (settings : Settings fl.Float) where
  open fl use {Float, gt}
  open settings use {
    allowed_images, scan_images, max_timeout_seconds, max_cpu, max_memory_mb, max_pids,
  }

  unfoldable pub configured : Bool
  configured = not (is_empty allowed_images) || not (is_empty scan_images)

  -- The image and the arguments of a security scan.
  scan_target : Option Profile → Outcome (String × List String)
  unfolding configured_image
  scan_target none = raised (execution_error "Security scan profile is required." 400)
  scan_target (some profile) = do
    image ← configured_image (lookup (profile_name profile) scan_images)
    returned (image, scan_command profile)

  -- The image and the arguments of a command.
  command_target : TaskRequest Float → Outcome (String × List String)
  command_target request =
      let image = or_empty request.image in
      elim (elem image allowed_images) [
        | false ↦ raised (execution_error "Container image is not in the execution allowlist." 403)
        | true ↦ returned (image, request.argv)
      ]

  target : TaskRequest Float → Kind → Outcome (String × List String)
  unfolding scan_target command_target
  target request security_scan = scan_target request.scan_profile
  target request command = command_target request

  -- The loop over `limits`, in its order.
  check_limits : TaskRequest Float → Outcome Unit
  unfolding limit
  check_limits request = do
    limit (ltb max_timeout_seconds request.timeout_seconds) "timeout"
    limit (gt request.cpu_limit max_cpu) "CPU"
    limit (ltb max_memory_mb request.memory_mb) "memory"
    limit (ltb max_pids request.pids_limit) "PID"

  unfoldable pub plan_of : TaskRequest Float → String → List String → Plan Float
  plan_of request image argv = record {
    kind = request.kind;
    image = image;
    argv = argv;
    scan_profile = elim request.scan_profile [ none ↦ none | some p ↦ some (profile_name p) ];
    timeout_seconds = request.timeout_seconds;
    cpu_limit = request.cpu_limit;
    memory_mb = request.memory_mb;
    pids_limit = request.pids_limit;
  }

  -- What follows the choice of the image and the arguments.
  admit : TaskRequest Float → String × List String → Outcome (Plan Float)
  unfolding check_limits plan_of
  admit request (image, argv) = elim (image_matches image) [
    | false ↦ raised (execution_error "Configured container image is invalid." 500)
    | true ↦ do validate_argv argv; check_limits request; returned (plan_of request image argv)
  ]

  unfoldable pub resolve : TaskRequest Float → Outcome (Plan Float)
  unfolding target admit
  resolve request = do chosen ← target request request.kind; admit request chosen

  -- `any(requested > maximum for ...)`
  over_policy : Plan Float → Bool
  over_policy plan =
      ltb max_timeout_seconds plan.timeout_seconds
      || gt plan.cpu_limit max_cpu
      || ltb max_memory_mb plan.memory_mb
      || ltb max_pids plan.pids_limit

  unfoldable pub validate_plan : Plan Float → Outcome Unit
  unfolding over_policy
  validate_plan plan =
      elim (elem plan.image allowed_images || elem plan.image (values scan_images)) [
        | false ↦ raised (execution_error "Queued container image is no longer allowed." 403)
        | true ↦ do
          validate_argv plan.argv
          elim (over_policy plan) [
            | true ↦
                raised (execution_error "Queued task exceeds current server resource policy." 422)
            | false ↦ returned tt
          ]
      ]
