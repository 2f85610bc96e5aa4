-- ===== src/Execution/Policy/Revalidation.antt =====
-- What `resolve` and `validate_plan` of policy.py accept, and that they agree.
use code_explorer.Base.{◌≤◌, String, false, some, List, [], ◌∷◌, ◌≡◌, ◌↔◌, ◌⊎◌, arith, In, elem_iff}
use code_explorer.Execution.Result.{returned}
use code_explorer.Execution.Contracts.{Floats, Plan}
use code_explorer.Execution.Policy.Conforms.{IsValidArgv, validate_argv_iff}
use code_explorer.Execution.Policy.{Settings, lookup, values, validate_plan}

pub In-values : (k v : String) (m : List (String × String)) → lookup k m ≡ some v → In v (values m)
In-values k v [] h = cc
In-values k v ((j, w) ∷ m) h = ground (arith, In-values k v m)

module _ (fl : Floats) (settings : Settings fl.Float) where
  open fl use {Float, gt}

  -- A plan within the operator's settings.
  pub record IsAllowed (plan : Plan Float) : Type 0 where
    pub image : In plan.image settings.allowed_images ⊎ In plan.image (values settings.scan_images)
    pub argv : IsValidArgv plan.argv
    pub timeout : plan.timeout_seconds ≤ settings.max_timeout_seconds
    pub cpu : gt plan.cpu_limit settings.max_cpu ≡ false
    pub memory : plan.memory_mb ≤ settings.max_memory_mb
    pub pids : plan.pids_limit ≤ settings.max_pids

  validate_plan_sound :
      (plan : Plan Float) → validate_plan fl settings plan ≡ returned tt → IsAllowed plan
  unfolding validate_plan
  validate_plan_sound plan h = record {
    image = ground (
      arith,
      elem_iff plan.image settings.allowed_images,
      elem_iff plan.image (values settings.scan_images),
    );
    argv = (validate_argv_iff plan.argv).0 (ground arith);
    timeout = ground arith;
    cpu = ground arith;
    memory = ground arith;
    pids = ground arith;
  }

  validate_plan_complete :
      (plan : Plan Float) → IsAllowed plan → validate_plan fl settings plan ≡ returned tt
  unfolding validate_plan
  validate_plan_complete plan h = ground (
    arith,
    h.image,
    (validate_argv_iff plan.argv).1 h.argv,
    h.timeout,
    h.cpu,
    h.memory,
    h.pids,
    elem_iff plan.image settings.allowed_images,
    elem_iff plan.image (values settings.scan_images),
  )

  -- The worker's second check accepts a plan exactly when its image is in the allowlist or
  -- configured for a scan, its arguments are valid and each limit is within the settings.
  pub validate_plan_iff :
      (plan : Plan Float) → (validate_plan fl settings plan ≡ returned tt) ↔ IsAllowed plan
  validate_plan_iff plan = (validate_plan_sound plan, validate_plan_complete plan)
