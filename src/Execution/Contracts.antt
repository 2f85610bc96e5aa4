-- ===== src/Execution/Contracts.antt =====
-- backend/app/execution/contracts.py: requests, plans, views and the states of a task.
use Prim.Native.String.{count}
use code_explorer.Base.{
  ℕ, String, Bool, true, false, not, ◌&&◌, ◌||◌, Option, none, some, List, [], ◌∷◌, ◌≡◌, length,
  leb,
}
use code_explorer.Base.Int.{ℤ}
use code_explorer.Execution.Result.{Outcome, returned, raised, value_error}

-- Python's floats: the type, the two orders the code uses, and `str` with the `float` that reads it.
pub record Floats : Type 1 where
  pub Float : Type 0
  pub of_ℕ : ℕ → Float
  pub gt : Float → Float → Bool
  pub le : Float → Float → Bool
  pub str : Float → String
  pub parse : String → Float
  pub parse-str : (x : Float) → parse (str x) ≡ x

-- `ExecutionKind`, and the literals it is stored as
pub data Kind : Type 0 where
  command security_scan : Kind

-- The two names that `scan_profile` takes in a request.
pub data Profile : Type 0 where
  bandit semgrep : Profile

-- `ExecutionStatus`
pub data Status : Type 0 where
  queued running cancel_requested completed failed cancelled timed_out : Status

-- `TERMINAL_EXECUTION_STATUSES`
abbrev pub is_terminal : Status → Bool
is_terminal queued = false
is_terminal running = false
is_terminal cancel_requested = false
is_terminal _ = true

module _ (F : Type 0) where
  pub record TaskRequest : Type 0 where
    pub kind : Kind
    pub image : Option String
    pub argv : List String
    pub scan_profile : Option Profile
    pub timeout_seconds : ℕ
    pub cpu_limit : F
    pub memory_mb : ℕ
    pub pids_limit : ℕ

  pub record Plan : Type 0 where
    pub kind : Kind
    pub image : String
    pub argv : List String
    pub scan_profile : Option String
    pub timeout_seconds : ℕ
    pub cpu_limit : F
    pub memory_mb : ℕ
    pub pids_limit : ℕ

  pub record TaskView : Type 0 where
    pub id : String
    pub project_id : String
    pub user_id : String
    pub kind : Kind
    pub status : Status
    pub image : String
    pub argv : List String
    pub scan_profile : Option String
    pub timeout_seconds : ℕ
    pub cpu_limit : F
    pub memory_mb : ℕ
    pub pids_limit : ℕ
    pub exit_code : Option ℤ
    pub error : Option String
    pub output_truncated : Bool
    pub created_at : ℕ
    pub started_at : Option ℕ
    pub finished_at : Option ℕ

-- `not value` of an optional text
abbrev pub is_empty_text : Option String → Bool
is_empty_text none = true
is_empty_text (some s) = leb (count s) 0

abbrev pub is_some {ℓ} : {A : Type ℓ} → Option A → Bool
is_some none = false
is_some (some _) = true

abbrev pub is_empty {ℓ} : {A : Type ℓ} → List A → Bool
is_empty [] = true
is_empty (_ ∷ _) = false

module _ (fl : Floats) where
  open fl use {Float, of_ℕ, gt, le}

  between : ℕ → ℕ → ℕ → Bool
  between lo hi n = leb lo n && leb n hi

  image_fits : Option String → Bool
  unfolding between
  image_fits none = true
  image_fits (some s) = between 1 255 (count s)

  -- The limits that the fields of `ExecutionTaskRequest` declare.
  unfoldable pub fields_fit : TaskRequest Float → Bool
  unfolding between image_fits
  fields_fit r =
      image_fits r.image
      && leb (length r.argv) 64
      && between 1 900 r.timeout_seconds
      && (gt r.cpu_limit (of_ℕ 0) && le r.cpu_limit (of_ℕ 4))
      && between 64 4096 r.memory_mb
      && between 16 512 r.pids_limit

  command_shape : TaskRequest Float → Outcome (TaskRequest Float)
  command_shape r = elim (is_empty_text r.image || is_empty r.argv) [
    | true ↦ raised (value_error "command tasks require image and argv")
    | false ↦ elim (is_some r.scan_profile) [
      | true ↦ raised (value_error "command tasks cannot set scan_profile")
      | false ↦ returned r
    ]
  ]

  scan_shape : TaskRequest Float → Outcome (TaskRequest Float)
  scan_shape r = elim (is_some r.scan_profile) [
    | false ↦ raised (value_error "security_scan tasks require scan_profile")
    | true ↦ elim (not (is_empty_text r.image) || not (is_empty r.argv)) [
      | true ↦ raised (value_error "security_scan image and argv are selected by server policy")
      | false ↦ returned r
    ]
  ]

  unfoldable pub validate_shape : TaskRequest Float → Outcome (TaskRequest Float)
  unfolding command_shape scan_shape
  validate_shape r = elim r.kind [ command ↦ command_shape r | security_scan ↦ scan_shape r ]
