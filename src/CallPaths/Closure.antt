-- ===== src/CallPaths/Closure.antt =====
-- The reverse closure of path_finder.py: which nodes the search keeps.
use code_explorer.Base.{
  ℕ, zero, suc, ◌+◌, ◌≤◌, String, false, List, [], ◌∷◌, ◌==◌, ◌≡◌, refl, arith, sym, subst, ◌↔◌,
  ◌⊎◌, inl, inr, In, In-map, map-In, length, elem, elem_iff, eq_iff, Bool-cases, if◌then◌else◌,
}
use code_explorer.CallPaths.Walks.{Walk, In-select, select-In}
use code_explorer.CallPaths.{Edge, callers, add_callers, close, relevant_to}

-- The edges whose caller is not in the set.
unseen : List Edge → List String → ℕ
unseen [] seen = 0
unseen (e ∷ es) seen = let rest = unseen es seen in if elem e.source seen then rest else suc rest

unseen_all : (es : List Edge) (seen : List String) → unseen es seen ≤ length es
unfolding unseen
unseen_all [] seen = omega arith
unseen_all (e ∷ es) seen = ground (arith, unseen_all es seen)

unseen_fewer :
    (es : List Edge) (c : String) (seen : List String) → unseen es (c ∷ seen) ≤ unseen es seen
unfolding unseen
unseen_fewer [] c seen = omega arith
unseen_fewer (e ∷ es) c seen = ground (arith, unseen_fewer es c seen)

unseen_drops :
    (es : List Edge) (e : Edge) (seen : List String)
    → In e es
    → elem e.source seen ≡ false
    → suc (unseen es (e.source ∷ seen)) ≤ unseen es seen
unfolding unseen
unseen_drops (f ∷ es) e seen (inl q) h =
    ground (arith, unseen_fewer es e.source seen, eq_iff f.source e.source)
unseen_drops (f ∷ es) e seen (inr m) h = ground (arith, unseen_drops es e seen m h)
unseen_drops [] e seen m h = absurd m

-- What the new callers leave of the stack and the set.
module _ (es : List Edge) where
  record Adds (cs : List String) (pending seen pending' seen' : List String) : Type 0 where
    all_seen : (x : String) → In x cs → In x seen'
    still_seen : (x : String) → In x seen → In x seen'
    still_pending : (x : String) → In x pending → In x pending'
    new_pending : (x : String) → In x seen' → In x seen ⊎ In x pending'
    shrinks : length pending' + unseen es seen' ≤ length pending + unseen es seen

  new_caller_shrinks :
      (n k : ℕ) (c : String) (seen : List String)
      → (e : Edge) × In e es × (e.source ≡ c)
      → elem c seen ≡ false
      → n ≤ suc k + unseen es (c ∷ seen)
      → n ≤ k + unseen es seen
  new_caller_shrinks n k c seen (e, m, q) h r = omega (
    arith,
    subst (λ x. suc (unseen es (x ∷ seen)) ≤ unseen es seen) q
        (unseen_drops es e seen m (subst (λ x. elem x seen ≡ false) (sym q) h)),
  )

  Adds-add_callers :
      (cs pending seen : List String)
      → ((x : String) → In x cs → (e : Edge) × In e es × (e.source ≡ x))
      → Adds cs pending seen (add_callers cs (pending, seen)).0 (add_callers cs (pending, seen)).1
  unfolding add_callers
  Adds-add_callers [] pending seen src = record {
    all_seen = λ x m. absurd m;
    still_seen = λ x m. m;
    still_pending = λ x m. m;
    new_pending = λ x m. inl m;
    shrinks = omega arith;
  }
  Adds-add_callers (c ∷ cs) pending seen src = elim (Bool-cases (elem c seen)) [
    | inl h ↦
        rw (h, add_callers)
          (let r = Adds-add_callers cs pending seen (λ x m. src x (inr m)) in
            record {
              all_seen = λ x m. elim m [
                | inl e ↦ r.still_seen x (subst (λ y. In y seen) (sym e) ((elem_iff c seen).0 h))
                | inr m' ↦ r.all_seen x m'
              ];
              still_seen = r.still_seen;
              still_pending = r.still_pending;
              new_pending = r.new_pending;
              shrinks = r.shrinks;
            })
    | inr h ↦
        rw (h, add_callers)
          (let r = Adds-add_callers cs (c ∷ pending) (c ∷ seen) (λ x m. src x (inr m)) in
            record {
              all_seen =
                  λ x m. elim m [ inl e ↦ r.still_seen x (inl e) | inr m' ↦ r.all_seen x m' ];
              still_seen = λ x m. r.still_seen x (inr m);
              still_pending = λ x m. r.still_pending x (inr m);
              new_pending = λ x m. elim (r.new_pending x m) [
                | inl (inl e) ↦ inr (r.still_pending x (inl e))
                | inl (inr m') ↦ inl m'
                | inr m' ↦ inr m'
              ];
              shrinks = new_caller_shrinks _ _ c seen (src c (inl refl)) h r.shrinks;
            })
  ]

  -- The set is closed but for what the stack will add.
  IsClosedBut : List String → List String → Type 0
  IsClosedBut pending seen =
      (e : Edge) → In e es → In e.target seen → In e.source seen ⊎ In e.target pending

  pub record IsClosure (seen result : List String) : Type 0 where
    pub still_in : (x : String) → In x seen → In x result
    pub is_closed : (e : Edge) → In e es → In e.target result → In e.source result

  callers_named :
      (x : String) → (y : String) → In y (callers es x) → (e : Edge) × In e es × (e.source ≡ y)
  unfolding callers
  callers_named x y m =
      let k = In-map (λ (e : Edge). e.source) y _ m in
      (k.0, (In-select (λ (e : Edge). e.target == x) k.0 es k.1).0, k.2)

  named_callers : (x : String) → (e : Edge) → In e es → e.target ≡ x → In e.source (callers es x)
  unfolding callers
  named_callers x e m t =
      map-In (λ (f : Edge). f.source) e _
        (select-In (λ (f : Edge). f.target == x) e es m ((eq_iff e.target x).1 t))

  IsClosedBut-add_callers :
      (x : String) (pending seen : List String) {pending' seen' : List String}
      → IsClosedBut (x ∷ pending) seen
      → Adds (callers es x) pending seen pending' seen'
      → IsClosedBut pending' seen'
  unfolding IsClosedBut
  IsClosedBut-add_callers x pending seen c a e m t = elim (a.new_pending e.target t) [
    | inl s ↦ elim (c e m s) [
      | inl s' ↦ inl (a.still_seen e.source s')
      | inr (inl q) ↦ inl (a.all_seen e.source (named_callers x e m q))
      | inr (inr p) ↦ inr (a.still_pending e.target p)
    ]
    | inr p ↦ inr p
  ]

  IsClosure-close :
      (fuel : ℕ) (pending seen : List String)
      → length pending + unseen es seen ≤ fuel
      → IsClosedBut pending seen
      → IsClosure seen (close es fuel (pending, seen))
  unfolding close IsClosedBut
  IsClosure-close zero [] seen b c = record {
    still_in = λ x m. m;
    is_closed = λ e m t. elim (c e m t) [ inl r ↦ r | inr n ↦ absurd n ];
  }
  IsClosure-close (suc fuel) [] seen b c = record {
    still_in = λ x m. m;
    is_closed = λ e m t. elim (c e m t) [ inl r ↦ r | inr n ↦ absurd n ];
  }
  IsClosure-close zero (x ∷ pending) seen b c = absurd (omega (arith, b))
  IsClosure-close (suc fuel) (x ∷ pending) seen b c =
      let a = Adds-add_callers (callers es x) pending seen (callers_named x) in
      let r =
        IsClosure-close fuel (add_callers (callers es x) (pending, seen)).0
          (add_callers (callers es x) (pending, seen)).1 (omega (arith, b, a.shrinks))
          (IsClosedBut-add_callers x pending seen c a) in
      record { still_in = λ y m. r.still_in y (a.still_seen y m); is_closed = r.is_closed }

  -- Every target is relevant, and so is every caller of a relevant node.
  pub IsClosure-relevant_to : (targets : List String) → IsClosure targets (relevant_to es targets)
  unfolding relevant_to IsClosedBut
  IsClosure-relevant_to targets =
      IsClosure-close _ targets targets (omega (arith, unseen_all es targets)) (λ e m t. inr t)

  -- The node has a walk to a target.
  abbrev pub Reaches : List String → String → Type 0
  Reaches targets u = (v : String) × In v targets × ((ws : List Edge) × Walk es u ws v)

  Reaches-caller :
      (targets : List String) (e : Edge)
      → In e es
      → Reaches targets e.target
      → Reaches targets e.source
  Reaches-caller targets e m (v, t, (ws, w)) = (v, t, (e ∷ ws, (m, refl, w)))

  -- A property of nodes that callers share holds of all that the stack and the set get.
  module _ (P : String → Type 0) (to_caller : (e : Edge) → In e es → P e.target → P e.source) where
    abbrev Every : List String → Type 0
    Every xs = (x : String) → In x xs → P x

    Every-add_callers :
        (cs pending seen : List String)
        → Every cs
        → Every pending
        → Every seen
        → Every (add_callers cs (pending, seen)).0 × Every (add_callers cs (pending, seen)).1
    unfolding add_callers
    Every-add_callers [] pending seen c p s = (p, s)
    Every-add_callers (d ∷ cs) pending seen c p s = elim (Bool-cases (elem d seen)) [
      | inl h ↦ rw (h, add_callers) (Every-add_callers cs pending seen (λ x m. c x (inr m)) p s)
      | inr h ↦
          rw (h, add_callers)
            (Every-add_callers cs (d ∷ pending) (d ∷ seen) (λ x m. c x (inr m))
              (λ x m. elim m [ inl e ↦ c x (inl e) | inr n ↦ p x n ])
              (λ x m. elim m [ inl e ↦ c x (inl e) | inr n ↦ s x n ]))
    ]

    Every-callers : (x : String) → P x → Every (callers es x)
    unfolding callers
    Every-callers x p y m =
        let k = In-map (λ (e : Edge). e.source) y _ m in
        let n = In-select (λ (e : Edge). e.target == x) k.0 es k.1 in
        subst P k.2 (to_caller k.0 n.0 (subst P (sym ((eq_iff k.0.target x).0 n.1)) p))

    Every-close :
        (fuel : ℕ) (pending seen : List String)
        → Every pending
        → Every seen
        → Every (close es fuel (pending, seen))
    unfolding close
    Every-close zero pending seen p s = s
    Every-close (suc fuel) [] seen p s = s
    Every-close (suc fuel) (x ∷ pending) seen p s =
        let a =
          Every-add_callers (callers es x) pending seen (Every-callers x (p x (inl refl)))
            (λ y m. p y (inr m)) s in
        Every-close fuel (add_callers (callers es x) (pending, seen)).0
          (add_callers (callers es x) (pending, seen)).1 a.0 a.1

  closed_reach :
      (targets : List String) (u : String) (ws : List Edge) (v : String)
      → In v targets
      → Walk es u ws v
      → In u (relevant_to es targets)
  closed_reach targets u [] v t w =
      subst (λ x. In x (relevant_to es targets)) (sym w)
        ((IsClosure-relevant_to targets).still_in v t)
  closed_reach targets u (e ∷ ws) v t (m, q, w) =
      subst (λ x. In x (relevant_to es targets)) q
        ((IsClosure-relevant_to targets).is_closed e m (closed_reach targets e.target ws v t w))

  -- The reverse closure holds exactly the nodes that have a walk to a target.
  pub relevant_to_iff :
      (targets : List String) (u : String) → In u (relevant_to es targets) ↔ Reaches targets u
  unfolding relevant_to
  relevant_to_iff targets u = (
    λ m.
        Every-close (Reaches targets) (Reaches-caller targets) _ targets targets
          (λ x i. (x, i, ([], refl))) (λ x i. (x, i, ([], refl))) u m,
    λ (v, t, (ws, w)). closed_reach targets u ws v t w,
  )
