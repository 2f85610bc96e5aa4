-- ===== src/Execution/Policy/Resolution.antt =====
-- When `resolve` of policy.py makes a plan, in terms of what it calls.
use code_explorer.Base.{
  ◌≤◌, String, true, false, Option, none, some, List, ◌≡◌, ◌≢◌, ◌⊎◌, refl, subst, arith, eq_iff, In,
  elem_iff, inl, inr,
}
use code_explorer.Execution.Result.{returned, outcome_cases, chain_returned}
use code_explorer.Execution.Contracts.{
  Floats, Kind, command, security_scan, Profile, TaskRequest, Plan,
}
use code_explorer.Execution.Policy.Argv.{image_matches}
use code_explorer.Execution.Policy.Conforms.{IsValidArgv, validate_argv_iff}
use code_explorer.Execution.Policy.Revalidation.{In-values, validate_plan_iff}
use code_explorer.Execution.Policy.{
  Settings, lookup, values, or_empty, profile_name, scan_command, resolve, validate_plan, target,
  scan_target, admit, configured_image, plan_of,
}

configured_image_sound :
    (o : Option String) (image : String) → configured_image o ≡ returned image → o ≡ some image
unfolding configured_image
configured_image_sound none image h = cc
configured_image_sound (some i) image h = ground arith

configured_image_complete :
    (image : String) → image ≢ "" → configured_image (some image) ≡ returned image
unfolding configured_image
configured_image_complete image h = ground (arith, eq_iff image "")

ne-empty_of_matches : (image : String) → image_matches image ≡ true → image ≢ ""
unfolding image_matches
ne-empty_of_matches image m e = cc (subst (λ i. image_matches i ≡ true) e m)

module _ (fl : Floats) (settings : Settings fl.Float) where
  open fl use {Float, gt}

  scan_target_sound :
      (o : Option Profile) (image : String) (argv : List String)
      → scan_target fl settings o ≡ returned (image, argv)
      → (p : Profile) × (o ≡ some p)
        × (lookup (profile_name p) settings.scan_images ≡ some image)
        × (argv ≡ scan_command p)
  unfolding scan_target
  scan_target_sound none image argv h = cc
  scan_target_sound (some p) image argv h =
      let found = lookup (profile_name p) settings.scan_images in
      elim (outcome_cases (configured_image found)) [
        | inl (i, e) ↦
            (p, refl, ground (arith, e, configured_image_sound found i e), ground (arith, e))
        | inr (x, e) ↦ ground (arith, e)
      ]

  -- The image and the arguments that a request of each kind asks for.
  unfoldable pub Chooses : TaskRequest Float → Kind → String → List String → Type 0
  Chooses r command image argv =
      In image settings.allowed_images × (image ≡ or_empty r.image) × (argv ≡ r.argv)
  Chooses r security_scan image argv =
      (p : Profile) × (r.scan_profile ≡ some p)
      × (lookup (profile_name p) settings.scan_images ≡ some image)
      × (argv ≡ scan_command p)

  pub record Accepts (r : TaskRequest Float) (image : String) (argv : List String) : Type 0 where
    pub chosen : Chooses r r.kind image argv
    pub pattern : image_matches image ≡ true
    pub arguments : IsValidArgv argv
    pub timeout : r.timeout_seconds ≤ settings.max_timeout_seconds
    pub cpu : gt r.cpu_limit settings.max_cpu ≡ false
    pub memory : r.memory_mb ≤ settings.max_memory_mb
    pub pids : r.pids_limit ≤ settings.max_pids

  target_sound :
      (r : TaskRequest Float) (k : Kind) (image : String) (argv : List String)
      → target fl settings r k ≡ returned (image, argv)
      → Chooses r k image argv
  unfolding target Chooses
  target_sound r command image argv h =
      ground (arith, elem_iff (or_empty r.image) settings.allowed_images)
  target_sound r security_scan image argv h = scan_target_sound r.scan_profile image argv h

  admit_sound :
      (r : TaskRequest Float) (image : String) (argv : List String) (p : Plan Float)
      → admit fl settings r (image, argv) ≡ returned p
      → Chooses r r.kind image argv
      → Accepts r image argv × (p ≡ plan_of fl settings r image argv)
  unfolding admit
  admit_sound r image argv p h c = (
    record {
      chosen = c;
      pattern = ground arith;
      arguments = (validate_argv_iff argv).0 (ground arith);
      timeout = ground arith;
      cpu = ground arith;
      memory = ground arith;
      pids = ground arith;
    },
    ground arith,
  )

  admit_complete :
      (r : TaskRequest Float) (image : String) (argv : List String)
      → Accepts r image argv
      → admit fl settings r (image, argv) ≡ returned (plan_of fl settings r image argv)
  unfolding admit
  admit_complete r image argv a =
      ground (
        arith,
        (validate_argv_iff argv).1 a.arguments,
        a.pattern,
        a.timeout,
        a.cpu,
        a.memory,
        a.pids,
      )

  target_complete :
      (r : TaskRequest Float) (k : Kind) (image : String) (argv : List String)
      → image_matches image ≡ true
      → Chooses r k image argv
      → target fl settings r k ≡ returned (image, argv)
  unfolding target Chooses
  target_complete r command image argv m c =
      ground (arith, elem_iff (or_empty r.image) settings.allowed_images)
  target_complete r security_scan image argv m (p, e, f, g) =
      ground (arith, e, f, configured_image_complete image (ne-empty_of_matches image m))

  -- `resolve` makes exactly the plan of an accepted request.
  pub resolve_sound :
      (r : TaskRequest Float) (p : Plan Float)
      → resolve fl settings r ≡ returned p
      → (image : String) × (argv : List String) × Accepts r image argv
        × (p ≡ plan_of fl settings r image argv)
  unfolding resolve
  resolve_sound r p h =
      let ((image, argv), e, f) =
        chain_returned (target fl settings r r.kind) (admit fl settings r) h in
      let (a, g) = admit_sound r image argv p f (target_sound r r.kind image argv e) in
      (image, argv, a, g)

  pub resolve_complete :
      (r : TaskRequest Float) (image : String) (argv : List String)
      → Accepts r image argv
      → resolve fl settings r ≡ returned (plan_of fl settings r image argv)
  unfolding resolve
  resolve_complete r image argv a =
      rw (target_complete r r.kind image argv a.pattern a.chosen) (admit_complete r image argv a)

  Chooses-allowed :
      (r : TaskRequest Float) (k : Kind) (image : String) (argv : List String)
      → Chooses r k image argv
      → In image settings.allowed_images ⊎ In image (values settings.scan_images)
  unfolding Chooses
  Chooses-allowed r command image argv c = inl c.0
  Chooses-allowed r security_scan image argv (p, _, f, _) =
      inr (In-values (profile_name p) image settings.scan_images f)

  -- Every plan that `resolve` makes passes the worker's second check under the same settings.
  pub validate_plan-resolve :
      (r : TaskRequest Float) (p : Plan Float)
      → resolve fl settings r ≡ returned p
      → validate_plan fl settings p ≡ returned tt
  unfolding plan_of
  validate_plan-resolve r p h =
      let (image, argv, a, e) = resolve_sound r p h in
      rw e (
        (validate_plan_iff fl settings (plan_of fl settings r image argv)).1 (record {
          image = Chooses-allowed r r.kind image argv a.chosen;
          argv = a.arguments;
          timeout = a.timeout;
          cpu = a.cpu;
          memory = a.memory;
          pids = a.pids;
        }))
