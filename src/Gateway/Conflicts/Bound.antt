-- ===== src/Gateway/Conflicts/Bound.antt =====
-- The routes that resolveModuleConflicts of internal/gateway/bind.go groups under a Gateway: each that
-- holds it, once.
use rsync_gateway.Prelude.{
  ◌≡◌, ◌≢◌, refl, sym, ap, ◌∙◌, subst, ◌⊎◌, inl, inr, true, false, List, [], ◌∷◌, ◌++◌, map,
  append-nil, append_assoc, All, All-map, Bool-cases, Distinct, any_of,
}
use rsync_gateway.Prelude.Keys.{◌==◌, Map, lookup, insert, ==_refl}
use rsync_gateway.Gateway.Objects.{NamespacedName, NamespacedName_eq}
use rsync_gateway.Gateway.Bind.{ParentResult}
use rsync_gateway.Gateway.Conflicts.{Results, slice_at, bind_once, bound_routes}
use rsync_gateway.Gateway.Conflicts.Reject.{Holds, HoldsIn}
use rsync_gateway.Gateway.Conflicts.Winners.{not_same}
use rsync_gateway.Gateway.Conflicts.Disjoint.{Bound, added, slice_at-added}

abbrev pub keys {ℓ} : {V : Type ℓ} → Map NamespacedName V → List NamespacedName
keys m = map (λ (e : NamespacedName × _). e.0) m

module _ {ℓ} {V : Type ℓ} where
  All-keys-insert :
      (P : NamespacedName → Type 0) (k : NamespacedName) (v : V) (m : Map NamespacedName V)
      → P k
      → All P (keys m)
      → All P (keys (insert k v m))
  unfolding insert
  All-keys-insert P k v [] p a = (p, tt)
  All-keys-insert P k v ((j, w) ∷ m) p a = elim (Bool-cases (j == k)) [
    | inl e ↦ rw e (p, a.1)
    | inr e ↦ rw e (a.0, All-keys-insert P k v m p a.1)
  ]

  Distinct-keys-insert :
      (k : NamespacedName) (v : V) (m : Map NamespacedName V)
      → Distinct (keys m)
      → Distinct (keys (insert k v m))
  unfolding insert
  Distinct-keys-insert k v [] d = (tt, tt)
  Distinct-keys-insert k v ((j, w) ∷ m) d = elim (Bool-cases (j == k)) [
    | inl e ↦
        let same : j ≡ k = (NamespacedName_eq.eqb_iff j k).0 e in
        rw e (subst (λ x. All (λ y. x ≢ y) (keys m)) same d.0, d.1)
    | inr e ↦ rw e (
      All-keys-insert (λ y. j ≢ y) k v m (λ q. cc (e, (NamespacedName_eq.eqb_iff j k).1 q)) d.0,
      Distinct-keys-insert k v m d.1,
    )
  ]

Distinct-keys-bind_once :
    (route : NamespacedName) (rs : List ParentResult) (seen : List NamespacedName) (bound : Bound)
    → Distinct (keys bound)
    → Distinct (keys (bind_once route rs seen bound))
unfolding bind_once
Distinct-keys-bind_once route [] seen bound d = d
Distinct-keys-bind_once route (r ∷ rs) seen bound d = elim (Bool-cases r.accepted) [
  | inr e ↦ rw e (Distinct-keys-bind_once route rs seen bound d)
  | inl e ↦ elim (Bool-cases (any_of (λ g. g == r.gateway) seen)) [
    | inl f ↦ rw (e, f) (Distinct-keys-bind_once route rs seen bound d)
    | inr f ↦
        rw (e, f)
          (Distinct-keys-bind_once route rs (r.gateway ∷ seen)
            (added r.gateway r.gateway route bound) (Distinct-keys-insert r.gateway _ bound d))
  ]
]

pub Distinct-keys-bound_routes :
    (results : Results) (bound : Bound)
    → Distinct (keys bound)
    → Distinct (keys (bound_routes results bound))
unfolding bound_routes
Distinct-keys-bound_routes [] bound d = d
Distinct-keys-bound_routes ((k, rs) ∷ results) bound d =
    Distinct-keys-bound_routes results (bind_once k rs [] bound)
      (Distinct-keys-bind_once k rs [] bound d)

module _ (g : NamespacedName) where
  abbrev Added : NamespacedName → List ParentResult → List NamespacedName → Bound → Bound → Type 0
  Added route rs seen bound out =
      (slice_at g out ≡ slice_at g bound)
      ⊎ ((slice_at g out ≡ slice_at g bound ++ route ∷ [])
          × Holds g rs
          × (any_of (λ x. x == g) seen ≡ false))

  bind_once-Added :
      (route : NamespacedName) (rs : List ParentResult) (seen : List NamespacedName) (bound : Bound)
      → Added route rs seen bound (bind_once route rs seen bound)
  unfolding bind_once
  bind_once-Added route [] seen bound = inl refl
  bind_once-Added route (r ∷ rs) seen bound = elim (Bool-cases r.accepted) [
    | inr e ↦
        subst (Added route (r ∷ rs) seen bound) (rw e)
          (behind (bind_once route rs seen bound) (bind_once-Added route rs seen bound))
    | inl e ↦ elim (Bool-cases (any_of (λ x. x == r.gateway) seen)) [
      | inl f ↦
          subst (Added route (r ∷ rs) seen bound) (rw (e, f))
            (behind (bind_once route rs seen bound) (bind_once-Added route rs seen bound))
      | inr f ↦ subst (Added route (r ∷ rs) seen bound) (rw (e, f)) (
          taken e f (bind_once route rs (r.gateway ∷ seen) next)
            (bind_once-Added route rs (r.gateway ∷ seen) next))
    ]
  ]
    where
      next : Bound
      next = added g r.gateway route bound

      behind : (out : Bound) → Added route rs seen bound out → Added route (r ∷ rs) seen bound out
      behind out (inl a) = inl a
      behind out (inr (a, h, n)) = inr (a, inr h, n)

      taken :
          r.accepted ≡ true
          → any_of (λ x. x == r.gateway) seen ≡ false
          → (out : Bound) → Added route rs (r.gateway ∷ seen) next out
          → Added route (r ∷ rs) seen bound out
      taken e f out a = elim (Bool-cases (r.gateway == g)) [
        | inl i ↦
            let same : r.gateway ≡ g = (NamespacedName_eq.eqb_iff r.gateway g).0 i in
            elim a [
              | inl b ↦ inr (
                b
                    ∙ slice_at-added g r.gateway route bound
                    ∙ rw i (ap (λ (x : NamespacedName). slice_at x bound ++ route ∷ []) same),
                inl (e, same),
                ap (λ (y : NamespacedName). any_of (λ x. x == y) seen) (sym same) ∙ f,
              )
              | inr (_, _, n) ↦ cc (rw i at n)
            ]
        | inr i ↦
            let whole : slice_at g next ≡ slice_at g bound =
              slice_at-added g r.gateway route bound ∙ rw i in
            elim a [
              | inl b ↦ inl (b ∙ whole)
              | inr (b, h, n) ↦ inr (b ∙ ap (λ xs. xs ++ route ∷ []) whole, inr h, rw i at n)
            ]
      ]

  HoldsIn-key :
      (k x : NamespacedName) (results : Results)
      → HoldsIn g k results
      → All (λ y. x ≢ y) (keys results)
      → x ≢ k
  unfolding lookup
  HoldsIn-key k x [] h a = absurd h
  HoldsIn-key k x ((j, rs) ∷ results) h a = elim (Bool-cases (j == k)) [
    | inl e ↦ λ q. a.0 (q ∙ sym ((NamespacedName_eq.eqb_iff j k).0 e))
    | inr e ↦ HoldsIn-key k x results (rw e at h) a.1
  ]

  HoldsIn-skip :
      (j k : NamespacedName) (rs : List ParentResult) (results : Results)
      → j ≢ k
      → HoldsIn g k results
      → HoldsIn g k ((j, rs) ∷ results)
  unfolding lookup
  HoldsIn-skip j k rs results n h = rw (not_same j k n) h

  HoldsIn-here :
      (k : NamespacedName) (rs : List ParentResult) (results : Results)
      → Holds g rs
      → HoldsIn g k ((k, rs) ∷ results)
  unfolding lookup
  HoldsIn-here k rs results h = rw (==_refl k) h

  -- What the grouping appends for the Gateway.
  pub record Gathered (results : Results) (bound out : Bound) : Type 0 where
    pub routes : List NamespacedName
    pub appended : slice_at g out ≡ slice_at g bound ++ routes
    pub distinct : Distinct routes
    pub hold : All (λ k. HoldsIn g k results) routes

  pub bound_routes-Gathered :
      (results : Results) (bound : Bound)
      → Distinct (keys results)
      → Gathered results bound (bound_routes results bound)
  unfolding bound_routes
  bound_routes-Gathered [] bound d = record {
    routes = [];
    appended = sym (append-nil (slice_at g bound));
    distinct = tt;
    hold = tt;
  }
  bound_routes-Gathered ((k, rs) ∷ results) bound d =
      let next : Bound = bind_once k rs [] bound in
      let rest = bound_routes-Gathered results next d.1 in
      let skipped : All (λ j. HoldsIn g j ((k, rs) ∷ results)) rest.routes =
        All-map (λ j. HoldsIn g j results) (λ j. HoldsIn g j ((k, rs) ∷ results))
          (λ j h. HoldsIn-skip k j rs results (HoldsIn-key j k results h d.0) h) rest.routes
          rest.hold in
      elim (bind_once-Added k rs [] bound) [
        | inl a ↦ record {
          routes = rest.routes;
          appended = rest.appended ∙ ap (λ xs. xs ++ rest.routes) a;
          distinct = rest.distinct;
          hold = skipped;
        }
        | inr (a, h, _) ↦ record {
          routes = k ∷ rest.routes;
          appended =
              rest.appended
              ∙ ap (λ xs. xs ++ rest.routes) a
              ∙ append_assoc (slice_at g bound) (k ∷ []) rest.routes;
          distinct = (
            All-map (λ j. HoldsIn g j results) (λ j. k ≢ j) (λ j h. HoldsIn-key j k results h d.0)
                rest.routes rest.hold,
            rest.distinct,
          );
          hold = (HoldsIn-here k rs results h, skipped);
        }
      ]
