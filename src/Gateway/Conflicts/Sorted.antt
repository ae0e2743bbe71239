-- ===== src/Gateway/Conflicts/Sorted.antt =====
-- The sort of a Gateway's routes in resolveModuleConflicts of internal/gateway/bind.go.
use native.Mathlib.Nat.{le_trans}
use rsync_gateway.Prelude.{
  ◌≤◌, ◌≡◌, ◌≢◌, sym, true, false, List, [], ◌∷◌, Bool-cases, inl, inr, All, All-map, Distinct,
  arith,
}
use rsync_gateway.Gateway.Objects.{NamespacedName, Snapshot}
use rsync_gateway.Gateway.Conflicts.{created, before, place, sort_routes}
use rsync_gateway.Gateway.Conflicts.Winners.{ByAge}

module _ (snap : Snapshot) where
  before-created : (a b : NamespacedName) → before snap a b ≡ true → created snap a ≤ created snap b
  unfolding before
  before-created a b e = ground arith

  before-created_not :
      (a b : NamespacedName) → before snap a b ≡ false → created snap b ≤ created snap a
  unfolding before
  before-created_not a b e = ground arith

  All-place :
      (P : NamespacedName → Type 0) (x : NamespacedName) (ys : List NamespacedName)
      → P x
      → All P ys
      → All P (place snap x ys)
  unfolding place
  All-place P x [] p a = (p, tt)
  All-place P x (y ∷ ys) p a = elim (Bool-cases (before snap y x)) [
    | inl e ↦ rw e (a.0, All-place P x ys p a.1)
    | inr e ↦ rw e (p, a)
  ]

  pub All-sort_routes :
      (P : NamespacedName → Type 0) (xs : List NamespacedName)
      → All P xs
      → All P (sort_routes snap xs)
  unfolding sort_routes
  All-sort_routes P [] a = tt
  All-sort_routes P (x ∷ xs) a = All-place P x (sort_routes snap xs) a.0 (All-sort_routes P xs a.1)

  Distinct-place :
      (x : NamespacedName) (ys : List NamespacedName)
      → All (λ y. x ≢ y) ys
      → Distinct ys
      → Distinct (place snap x ys)
  unfolding place
  Distinct-place x [] a d = (tt, tt)
  Distinct-place x (y ∷ ys) a d = elim (Bool-cases (before snap y x)) [
    | inl e ↦ rw e (All-place (λ z. y ≢ z) x ys (λ q. a.0 (sym q)) d.0, Distinct-place x ys a.1 d.1)
    | inr e ↦ rw e (a, d)
  ]

  pub Distinct-sort_routes :
      (xs : List NamespacedName) → Distinct xs → Distinct (sort_routes snap xs)
  unfolding sort_routes
  Distinct-sort_routes [] d = tt
  Distinct-sort_routes (x ∷ xs) d =
      Distinct-place x (sort_routes snap xs) (All-sort_routes (λ y. x ≢ y) xs d.0)
        (Distinct-sort_routes xs d.1)

  module _ (gateway : NamespacedName) where
    ByAge-place :
        (x : NamespacedName) (ys : List NamespacedName)
        → ByAge snap gateway ys
        → ByAge snap gateway (place snap x ys)
    unfolding place
    ByAge-place x [] b = (tt, tt)
    ByAge-place x (y ∷ ys) b = elim (Bool-cases (before snap y x)) [
      | inl e ↦ rw e (
        All-place (λ z. created snap y ≤ created snap z) x ys (before-created y x e) b.0,
        ByAge-place x ys b.1,
      )
      | inr e ↦
          let first : created snap x ≤ created snap y = before-created_not y x e in
          rw e (
            (
              first,
              All-map (λ z. created snap y ≤ created snap z) (λ z. created snap x ≤ created snap z)
                  (λ z l. le_trans first l) ys b.0,
            ),
            b,
          )
    ]

    -- The sort puts no route before an older one.
    pub ByAge-sort_routes : (xs : List NamespacedName) → ByAge snap gateway (sort_routes snap xs)
    unfolding sort_routes
    ByAge-sort_routes [] = tt
    ByAge-sort_routes (x ∷ xs) = ByAge-place x (sort_routes snap xs) (ByAge-sort_routes xs)
