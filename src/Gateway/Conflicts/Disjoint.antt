-- ===== src/Gateway/Conflicts/Disjoint.antt =====
-- BindRoutes of internal/gateway/bind.go: two routes that it accepts on one Gateway have no module in
-- common.
use rsync_gateway.Prelude.{
  ◌≡◌, ◌≢◌, refl, sym, ap, ◌∙◌, subst, inl, inr, true, List, [], ◌∷◌, ◌++◌, Bool-cases, any_of,
  if◌then◌else◌,
}
use rsync_gateway.Prelude.Keys.{◌==◌, Map, lookup, insert}
use rsync_gateway.Gateway.Objects.{NamespacedName, NamespacedName_eq, Snapshot}
use rsync_gateway.Gateway.Bind.{ParentResult}
use rsync_gateway.Gateway.Conflicts.{
  Results, slice_at, bind_once, bound_routes, resolve_module_conflicts,
}
use rsync_gateway.Gateway.Conflicts.Reject.{Holds, HoldsIn, slice_at-insert}
use rsync_gateway.Gateway.Conflicts.Settle.{Apart, Member, settle_all_back, settle_all-Apart}

abbrev pub Bound : Type 0
Bound = Map NamespacedName (List NamespacedName)

Member-append :
    (k : NamespacedName) (xs ys : List NamespacedName) → Member k xs → Member k (xs ++ ys)
Member-append k [] ys m = absurd m
Member-append k (x ∷ xs) ys (inl e) = inl e
Member-append k (x ∷ xs) ys (inr m) = inr (Member-append k xs ys m)

Member-snoc : (k : NamespacedName) (xs : List NamespacedName) → Member k (xs ++ k ∷ [])
Member-snoc k [] = inl refl
Member-snoc k (x ∷ xs) = inr (Member-snoc k xs)

module _ (g : NamespacedName) where
  abbrev pub added : NamespacedName → NamespacedName → Bound → Bound
  added h k bound = insert h (slice_at h bound ++ k ∷ []) bound

  pub slice_at-added :
      (h k : NamespacedName) (bound : Bound)
      → slice_at g (added h k bound)
        ≡ (if h == g then slice_at h bound ++ k ∷ [] else slice_at g bound)
  slice_at-added h k bound = slice_at-insert h g (slice_at h bound ++ k ∷ []) bound

  Member-added :
      (h k j : NamespacedName) (bound : Bound)
      → Member j (slice_at g bound)
      → Member j (slice_at g (added h k bound))
  Member-added h k j bound m = elim (Bool-cases (h == g)) [
    | inl e ↦
        let same : h ≡ g = (NamespacedName_eq.eqb_iff h g).0 e in
        subst (Member j) (sym (slice_at-added h k bound ∙ rw e)) (
          Member-append j (slice_at h bound) (k ∷ [])
            (subst (λ (x : NamespacedName). Member j (slice_at x bound)) (sym same) m))
    | inr e ↦ subst (Member j) (sym (slice_at-added h k bound ∙ rw e)) m
  ]

  Member-added_new :
      (h k : NamespacedName) (bound : Bound)
      → (h == g) ≡ true
      → Member k (slice_at g (added h k bound))
  Member-added_new h k bound e =
      subst (Member k) (sym (slice_at-added h k bound ∙ rw e)) (Member-snoc k (slice_at h bound))

  -- The inner loop forgets nobody,
  bind_once_keeps :
      (route j : NamespacedName) (rs : List ParentResult) (seen : List NamespacedName)
      (bound : Bound)
      → Member j (slice_at g bound)
      → Member j (slice_at g (bind_once route rs seen bound))
  unfolding bind_once
  bind_once_keeps route j [] seen bound m = m
  bind_once_keeps route j (r ∷ rs) seen bound m = elim (Bool-cases r.accepted) [
    | inr e ↦ rw e (bind_once_keeps route j rs seen bound m)
    | inl e ↦ elim (Bool-cases (any_of (λ g. g == r.gateway) seen)) [
      | inl f ↦ rw (e, f) (bind_once_keeps route j rs seen bound m)
      | inr f ↦
          rw (e, f)
            (bind_once_keeps route j rs (r.gateway ∷ seen) (added r.gateway route bound)
              (Member-added r.gateway route j bound m))
    ]
  ]

  abbrev SeenOk : NamespacedName → List NamespacedName → Bound → Type 0
  SeenOk route seen bound = any_of (λ x. x == g) seen ≡ true → Member route (slice_at g bound)

  -- and takes in the route for each Gateway that it holds.
  bind_once_takes :
      (route : NamespacedName) (rs : List ParentResult) (seen : List NamespacedName) (bound : Bound)
      → SeenOk route seen bound
      → Holds g rs
      → Member route (slice_at g (bind_once route rs seen bound))
  unfolding bind_once
  bind_once_takes route [] seen bound k h = absurd h
  bind_once_takes route (r ∷ rs) seen bound k h = elim (Bool-cases r.accepted) [
    | inr e ↦
        rw e (elim h [ inl a ↦ cc (e, a.0) | inr t ↦ bind_once_takes route rs seen bound k t ])
    | inl e ↦ elim (Bool-cases (any_of (λ g. g == r.gateway) seen)) [
      | inl f ↦
          rw (e, f)
            (elim h [
              | inl a ↦
                  bind_once_keeps route route rs seen bound
                    (k (ap (λ (y : NamespacedName). any_of (λ x. x == y) seen) (sym a.1) ∙ f))
              | inr t ↦ bind_once_takes route rs seen bound k t
            ])
      | inr f ↦
          let next : Bound = added r.gateway route bound in
          rw (e, f)
            (elim h [
              | inl a ↦ bind_once_keeps route route rs (r.gateway ∷ seen) next (
                  Member-added_new r.gateway route bound
                    ((NamespacedName_eq.eqb_iff r.gateway g).1 a.1))
              | inr t ↦
                  bind_once_takes route rs (r.gateway ∷ seen) next
                    (λ s. elim (Bool-cases (r.gateway == g)) [
                      | inl i ↦ Member-added_new r.gateway route bound i
                      | inr i ↦ Member-added r.gateway route route bound (k (rw i at s))
                    ])
                    t
            ])
    ]
  ]

  bound_routes_keeps :
      (j : NamespacedName) (results : Results) (bound : Bound)
      → Member j (slice_at g bound)
      → Member j (slice_at g (bound_routes results bound))
  unfolding bound_routes
  bound_routes_keeps j [] bound m = m
  bound_routes_keeps j ((k, rs) ∷ results) bound m =
      bound_routes_keeps j results (bind_once k rs [] bound) (bind_once_keeps k j rs [] bound m)

  pub bound_routes_takes :
      (k : NamespacedName) (results : Results) (bound : Bound)
      → HoldsIn g k results
      → Member k (slice_at g (bound_routes results bound))
  unfolding bound_routes lookup
  bound_routes_takes k [] bound h = absurd h
  bound_routes_takes k ((j, rs) ∷ results) bound h = elim (Bool-cases (j == k)) [
    | inr e ↦ bound_routes_takes k results (bind_once j rs [] bound) (rw e at h)
    | inl e ↦
        let same : j ≡ k = (NamespacedName_eq.eqb_iff j k).0 e in
        bound_routes_keeps k results (bind_once j rs [] bound) (
          subst (λ x. Member x (slice_at g (bind_once j rs [] bound))) same
            (bind_once_takes j rs [] bound (λ s. cc s) (rw e at h)))
  ]

-- For any results, two different routes that resolveModuleConflicts leaves accepted on one Gateway
-- serve no module in common.
pub resolve_module_conflicts-Apart :
    (snap : Snapshot) (results : Results) (g j k : NamespacedName)
    → j ≢ k
    → HoldsIn g j (resolve_module_conflicts snap results)
    → HoldsIn g k (resolve_module_conflicts snap results)
    → Apart snap j k
unfolding resolve_module_conflicts
resolve_module_conflicts-Apart snap results g j k n hj hk =
    settle_all-Apart snap bound results g j k n
      (bound_routes_takes g j results [] (settle_all_back snap bound results g j hj))
      (bound_routes_takes g k results [] (settle_all_back snap bound results g k hk)) hj hk
  where
    bound : Bound
    bound = bound_routes results []
