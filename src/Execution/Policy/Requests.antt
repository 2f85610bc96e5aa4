-- ===== src/Execution/Policy/Requests.antt =====
-- Which plan `resolve` of policy.py makes of a request, described without the code's helpers.
use code_explorer.Base.{
  ◌≤◌, String, false, Option, none, some, List, [], ◌∷◌, ◌++◌, ◌==◌, ◌≡◌, ◌≢◌, ◌↔◌, ◌⊎◌, refl, ap,
  sym, subst, ◌∙◌, arith, eq_iff, All, In, inl, inr, Bool-cases,
}
use code_explorer.Execution.Result.{returned}
use code_explorer.Execution.Contracts.{
  Floats, Kind, command, security_scan, Profile, bandit, semgrep, TaskRequest, Plan,
}
use code_explorer.Execution.Policy.Argv.Images.{IsImage, image_matches_iff}
use code_explorer.Execution.Policy.Conforms.{IsValidArgv}
use code_explorer.Execution.Policy.{Settings, lookup, or_empty, profile_name, resolve, plan_of}
use code_explorer.Execution.Policy.Resolution.{Chooses, Accepts, resolve_sound, resolve_complete}

-- The first entry under a name.
pub record IsEntry (name image : String) (entries : List (String × String)) : Type 0 where
  pub before : List (String × String)
  pub after : List (String × String)
  pub place : entries ≡ before ++ (name, image) ∷ after
  pub earlier : All (λ e. e.0 ≢ name) before

lookup_sound :
    (name image : String) (m : List (String × String))
    → lookup name m ≡ some image
    → IsEntry name image m
lookup_sound name image [] h = cc h
lookup_sound name image ((j, v) ∷ m) h = elim (Bool-cases (j == name)) [
  | inl e ↦
      let same : v ≡ image = cc (rw (e, lookup) at h) in
      record { before = []; after = m; place = rw ((eq_iff j name).0 e, same) refl; earlier = tt }
  | inr e ↦
      let k = lookup_sound name image m (rw (e, lookup) at h) in
      record {
        before = (j, v) ∷ k.before;
        after = k.after;
        place = ap (λ es. (j, v) ∷ es) k.place;
        earlier = (λ q. cc (e, (eq_iff j name).1 q), k.earlier);
      }
]

lookup_past :
    (name image : String) (before after : List (String × String))
    → All (λ e. e.0 ≢ name) before
    → lookup name (before ++ (name, image) ∷ after) ≡ some image
lookup_past name image [] after h = ground (arith, (eq_iff name name).1 refl)
lookup_past name image ((j, v) ∷ before) after (h, hs) = elim (Bool-cases (j == name)) [
  | inl e ↦ absurd (h ((eq_iff j name).0 e))
  | inr e ↦ rw (e, lookup) (lookup_past name image before after hs)
]

lookup_complete :
    (name image : String) (m : List (String × String))
    → IsEntry name image m
    → lookup name m ≡ some image
lookup_complete name image m k =
    ap (lookup name) k.place ∙ lookup_past name image k.before k.after k.earlier

module _ (fl : Floats) (settings : Settings fl.Float) where
  open fl use {Float, gt}

  -- The image and the arguments that a request asks for: of a command its own, of a scan those that
  -- are fixed for its profile.
  pub Asks : TaskRequest Float → Kind → String → List String → Type 0
  Asks r command image argv =
      In image settings.allowed_images
      × ((r.image ≡ some image) ⊎ ((r.image ≡ none) × (image ≡ "")))
      × (argv ≡ r.argv)
  Asks r security_scan image argv =
      ((r.scan_profile ≡ some bandit)
        × IsEntry "bandit" image settings.scan_images
        × (argv ≡ "bandit" ∷ "-r" ∷ "/workspace" ∷ "-f" ∷ "json" ∷ []))
      ⊎ ((r.scan_profile ≡ some semgrep)
          × IsEntry "semgrep" image settings.scan_images
          × (argv ≡ "semgrep" ∷ "scan" ∷ "--config" ∷ "/rules" ∷ "--json" ∷ "/workspace" ∷ []))

  -- The column of the profile.
  pub Names : Option Profile → Option String → Type 0
  Names o text =
      ((o ≡ none) × (text ≡ none))
      ⊎ ((o ≡ some bandit) × (text ≡ some "bandit"))
      ⊎ ((o ≡ some semgrep) × (text ≡ some "semgrep"))

  -- A plan that a request may be given, field by field.
  pub record Fulfils (r : TaskRequest Float) (p : Plan Float) : Type 0 where
    pub asked : Asks r r.kind p.image p.argv
    pub image : IsImage p.image
    pub arguments : IsValidArgv p.argv
    pub kind : p.kind ≡ r.kind
    pub profile : Names r.scan_profile p.scan_profile
    pub timeout :
        (p.timeout_seconds ≡ r.timeout_seconds) × (r.timeout_seconds ≤ settings.max_timeout_seconds)
    pub cpu : (p.cpu_limit ≡ r.cpu_limit) × (gt r.cpu_limit settings.max_cpu ≡ false)
    pub memory : (p.memory_mb ≡ r.memory_mb) × (r.memory_mb ≤ settings.max_memory_mb)
    pub pids : (p.pids_limit ≡ r.pids_limit) × (r.pids_limit ≤ settings.max_pids)

  own_image :
      (o : Option String) (image : String)
      → (image ≡ or_empty o) ↔ ((o ≡ some image) ⊎ ((o ≡ none) × (image ≡ "")))
  own_image none image = (λ e. inr (refl, e), λ k. elim k [ inl e ↦ cc e | inr (_, e) ↦ e ])
  own_image (some i) image =
      (λ e. inl (ap some (sym e)), λ k. elim k [ inl e ↦ cc e | inr (e, _) ↦ cc e ])

  Chooses-Asks :
      (r : TaskRequest Float) (k : Kind) (image : String) (argv : List String)
      → Chooses fl settings r k image argv
      → Asks r k image argv
  unfolding Chooses Asks
  Chooses-Asks r command image argv (m, e, f) = (m, (own_image r.image image).0 e, f)
  Chooses-Asks r security_scan image argv (bandit, e, f, g) =
      inl (e, lookup_sound "bandit" image settings.scan_images f, g)
  Chooses-Asks r security_scan image argv (semgrep, e, f, g) =
      inr (e, lookup_sound "semgrep" image settings.scan_images f, g)

  Asks-Chooses :
      (r : TaskRequest Float) (k : Kind) (image : String) (argv : List String)
      → Asks r k image argv
      → Chooses fl settings r k image argv
  unfolding Chooses Asks
  Asks-Chooses r command image argv (m, e, f) = (m, (own_image r.image image).1 e, f)
  Asks-Chooses r security_scan image argv (inl (e, f, g)) =
      (bandit, e, lookup_complete "bandit" image settings.scan_images f, g)
  Asks-Chooses r security_scan image argv (inr (e, f, g)) =
      (semgrep, e, lookup_complete "semgrep" image settings.scan_images f, g)

  abbrev profile_text : Option Profile → Option String
  profile_text o = elim o [ none ↦ none | some p ↦ some (profile_name p) ]

  profile_text-Names : (o : Option Profile) → Names o (profile_text o)
  unfolding Names
  profile_text-Names none = inl (refl, refl)
  profile_text-Names (some bandit) = inr (inl (refl, refl))
  profile_text-Names (some semgrep) = inr (inr (refl, refl))

  Names-profile_text :
      (o : Option Profile) (text : Option String) → Names o text → text ≡ profile_text o
  unfolding Names
  Names-profile_text o text (inl (e, f)) = rw (e, f) refl
  Names-profile_text o text (inr (inl (e, f))) = rw (e, f) refl
  Names-profile_text o text (inr (inr (e, f))) = rw (e, f) refl

  is_plan_of :
      (r : TaskRequest Float) (p : Plan Float)
      → Fulfils r p
      → p ≡ plan_of fl settings r p.image p.argv
  unfolding plan_of
  is_plan_of r p k = λ i. record {
    kind = k.kind i;
    image = p.image;
    argv = p.argv;
    scan_profile = Names-profile_text r.scan_profile p.scan_profile k.profile i;
    timeout_seconds = k.timeout.0 i;
    cpu_limit = k.cpu.0 i;
    memory_mb = k.memory.0 i;
    pids_limit = k.pids.0 i;
  }

  plan_of-Fulfils :
      (r : TaskRequest Float) (image : String) (argv : List String)
      → Accepts fl settings r image argv
      → Fulfils r (plan_of fl settings r image argv)
  unfolding plan_of
  plan_of-Fulfils r image argv a = record {
    asked = Chooses-Asks r r.kind image argv a.chosen;
    image = (image_matches_iff image).0 a.pattern;
    arguments = a.arguments;
    kind = refl;
    profile = profile_text-Names r.scan_profile;
    timeout = (refl, a.timeout);
    cpu = (refl, a.cpu);
    memory = (refl, a.memory);
    pids = (refl, a.pids);
  }

  accepted :
      (r : TaskRequest Float) (p : Plan Float) → Fulfils r p → Accepts fl settings r p.image p.argv
  accepted r p k = record {
    chosen = Asks-Chooses r r.kind p.image p.argv k.asked;
    pattern = (image_matches_iff p.image).1 k.image;
    arguments = k.arguments;
    timeout = k.timeout.1;
    cpu = k.cpu.1;
    memory = k.memory.1;
    pids = k.pids.1;
  }

  -- `resolve` makes a plan exactly if it fulfils the request: the request asks for an allowed image
  -- and its own command, or for the fixed command of a scanner whose image is configured; the image
  -- name is a letter or a digit and at most 254 more characters out of letters, digits and `._/:@-`;
  -- the arguments are valid; each limit is that of the request and within the settings; the kind
  -- and the profile are those of the request.
  pub resolve_iff :
      (r : TaskRequest Float) (p : Plan Float) → (resolve fl settings r ≡ returned p) ↔ Fulfils r p
  resolve_iff r p = (
    λ h.
        let (image, argv, a, e) = resolve_sound fl settings r p h in
        subst (Fulfils r) (sym e) (plan_of-Fulfils r image argv a),
    λ k.
        resolve_complete fl settings r p.image p.argv (accepted r p k)
        ∙ ap (λ (q : Plan Float). returned q) (sym (is_plan_of r p k)),
  )
