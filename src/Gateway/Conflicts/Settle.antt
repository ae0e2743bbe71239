-- ===== src/Gateway/Conflicts/Settle.antt =====
-- resolveModuleConflicts of internal/gateway/bind.go: after it, two routes that are accepted on one
-- Gateway have no module in common.
use rsync_gateway.Prelude.{
  ◌≡◌, ◌≢◌, sym, ◌∙◌, subst, inl, inr, List, [], ◌∷◌, none, String, All, Any, All-map, Bool-cases,
  Option-cases,
}
use rsync_gateway.Prelude.Keys.{◌==◌, String_eq, Map, lookup}
use rsync_gateway.Gateway.Objects.{NamespacedName, NamespacedName_eq, Snapshot}
use rsync_gateway.Gateway.Conflicts.{
  Results, slice_at, modules_of, first_claimed, own_modules, reject_route, settle, settle_all,
  place, before, sort_routes,
}
use rsync_gateway.Gateway.Conflicts.Reject.{
  HoldsIn, In, Free, Holds-reject_back, not-Holds-reject, first_claimed-Free, own_modules-none,
}

All-intro {ℓ} : {A : Type ℓ} (P : A → Type 0) → ((x : A) → P x) → (xs : List A) → All P xs
All-intro P f [] = tt
All-intro P f (x ∷ xs) = (f x, All-intro P f xs)

abbrev pub Member : NamespacedName → List NamespacedName → Type 0
Member k ks = Any (λ x. x ≡ k) ks

pub All-Member :
    (P : NamespacedName → Type 0) (k : NamespacedName) (ks : List NamespacedName)
    → All P ks
    → Member k ks
    → P k
All-Member P k [] a m = absurd m
All-Member P k (x ∷ ks) a (inl e) = subst P e a.0
All-Member P k (x ∷ ks) a (inr m) = All-Member P k ks a.1 m

module _ (snap : Snapshot) where
  -- Two routes serve no module in common.
  abbrev pub Apart : NamespacedName → NamespacedName → Type 0
  Apart j k = (m : String) → In m (modules_of snap j) → ¬ In m (modules_of snap k)

  -- Nothing is accepted anew,
  settle_back :
      (gateway : NamespacedName) (ks : List NamespacedName) (owner : Map String NamespacedName)
      (results : Results) (g j : NamespacedName)
      → HoldsIn g j (settle snap gateway ks owner results)
      → HoldsIn g j results
  unfolding settle
  settle_back gateway [] owner results g j h = h
  settle_back gateway (k ∷ ks) owner results g j h =
      elim (Option-cases (first_claimed owner (modules_of snap k))) [
        | inl e ↦
            settle_back gateway ks (own_modules k (modules_of snap k) owner) results g j
              (rw (e, settle) at h)
        | inr ((winner, m), e) ↦ Holds-reject_back gateway winner m g k j results (
            settle_back gateway ks owner (reject_route gateway k winner m results) g j
              (rw (e, settle) at h))
      ]

  -- Of the routes in a list, those that hold the Gateway are apart from each other.
  abbrev ApartPairs : NamespacedName → Results → List NamespacedName → Type 0
  ApartPairs gateway results [] = Unit {0}
  ApartPairs gateway results (k ∷ ks) =
      All (λ j. HoldsIn gateway k results → HoldsIn gateway j results → Apart j k) ks
      × ApartPairs gateway results ks

  abbrev Unowned : NamespacedName → Map String NamespacedName → Results → NamespacedName → Type 0
  Unowned gateway owner results k = HoldsIn gateway k results → Free owner (modules_of snap k)

  abbrev Fair : NamespacedName → List NamespacedName → Map String NamespacedName → Results → Type 0
  Fair gateway ks owner after = All (Unowned gateway owner after) ks × ApartPairs gateway after ks

  module _ (gateway k : NamespacedName) (ks : List NamespacedName)
      (owner : Map String NamespacedName) where
    Fair-loses :
        (after : Results)
        → ¬ HoldsIn gateway k after
        → Fair gateway ks owner after
        → Fair gateway (k ∷ ks) owner after
    Fair-loses after lost rest =
        (((λ h. absurd (lost h)), rest.0), (All-intro _ (λ j h. absurd (lost h)) ks, rest.1))

    abbrev mine : Map String NamespacedName
    mine = own_modules k (modules_of snap k) owner

    Fair-wins :
        (after : Results)
        → Free owner (modules_of snap k)
        → Fair gateway ks mine after
        → Fair gateway (k ∷ ks) owner after
    Fair-wins after free rest = (
      (
        (λ _. free),
        All-map (Unowned gateway mine after) (Unowned gateway owner after)
            (λ j u h m i. (new j u h m i).0) ks rest.0,
      ),
      (
        All-map (Unowned gateway mine after)
            (λ j. HoldsIn gateway k after → HoldsIn gateway j after → Apart j k)
            (λ j u _ h m i. (new j u h m i).1) ks rest.0,
        rest.1,
      ),
    )
      where
        new :
            (j : NamespacedName)
            → Unowned gateway mine after j
            → HoldsIn gateway j after
            → (m : String) → In m (modules_of snap j)
            → (lookup m owner ≡ none) × ¬ In m (modules_of snap k)
        new j u h m i = own_modules-none k (modules_of snap k) owner m (u h m i)

  settle-Apart :
      (gateway : NamespacedName) (ks : List NamespacedName) (owner : Map String NamespacedName)
      (results : Results)
      → Fair gateway ks owner (settle snap gateway ks owner results)
  unfolding settle
  settle-Apart gateway [] owner results = (tt, tt)
  settle-Apart gateway (k ∷ ks) owner results =
      elim (Option-cases (first_claimed owner (modules_of snap k))) [
        | inr ((winner, m), e) ↦
            let next : Results = reject_route gateway k winner m results in
            subst (Fair gateway (k ∷ ks) owner) (rw (e, settle)) (
              Fair-loses gateway k ks owner (settle snap gateway ks owner next)
                (λ h.
                  not-Holds-reject gateway winner m k results
                    (settle_back gateway ks owner next gateway k h))
                (settle-Apart gateway ks owner next))
        | inl e ↦ subst (Fair gateway (k ∷ ks) owner) (rw (e, settle)) (
            Fair-wins gateway k ks owner _ (first_claimed-Free owner (modules_of snap k) e)
              (settle-Apart gateway ks (mine gateway k ks owner) results))
      ]

  Apart-Member :
      (gateway : NamespacedName) (results : Results) (ks : List NamespacedName)
      (j k : NamespacedName)
      → ApartPairs gateway results ks
      → j ≢ k
      → Member j ks
      → Member k ks
      → HoldsIn gateway j results
      → HoldsIn gateway k results
      → Apart j k
  Apart-Member gateway results [] j k p n mj mk hj hk = absurd mj
  Apart-Member gateway results (x ∷ ks) j k p n (inl e) (inl f) hj hk = absurd (n (sym e ∙ f))
  Apart-Member gateway results (x ∷ ks) j k p n (inl e) (inr mk) hj hk = λ m ij ik.
      All-Member (λ y. HoldsIn gateway x results → HoldsIn gateway y results → Apart y x) k ks p.0
        mk (subst (λ y. HoldsIn gateway y results) (sym e) hj) hk m ik
        (subst (λ (y : NamespacedName). In m (modules_of snap y)) (sym e) ij)
  Apart-Member gateway results (x ∷ ks) j k p n (inr mj) (inl f) hj hk = λ m ij ik.
      All-Member (λ y. HoldsIn gateway x results → HoldsIn gateway y results → Apart y x) j ks p.0
        mj (subst (λ y. HoldsIn gateway y results) (sym f) hk) hj m ij
        (subst (λ (y : NamespacedName). In m (modules_of snap y)) (sym f) ik)
  Apart-Member gateway results (x ∷ ks) j k p n (inr mj) (inr mk) hj hk =
      Apart-Member gateway results ks j k p.1 n mj mk hj hk

  Member-place :
      (k x : NamespacedName) (ys : List NamespacedName)
      → Member k (x ∷ ys)
      → Member k (place snap x ys)
  unfolding place
  Member-place k x [] m = m
  Member-place k x (y ∷ ys) m = elim (Bool-cases (before snap y x)) [
    | inr e ↦ rw e m
    | inl e ↦ rw e (elim m [
      | inl i ↦ inr (Member-place k x ys (inl i))
      | inr (inl i) ↦ inl i
      | inr (inr i) ↦ inr (Member-place k x ys (inr i))
    ])
  ]

  pub Member-sort :
      (k : NamespacedName) (ks : List NamespacedName) → Member k ks → Member k (sort_routes snap ks)
  unfolding sort_routes
  Member-sort k [] m = m
  Member-sort k (x ∷ ks) (inl e) = Member-place k x (sort_routes snap ks) (inl e)
  Member-sort k (x ∷ ks) (inr m) = Member-place k x (sort_routes snap ks) (inr (Member-sort k ks m))

  pub settle_all_back :
      (bound : Map NamespacedName (List NamespacedName)) (results : Results) (g j : NamespacedName)
      → HoldsIn g j (settle_all snap bound results)
      → HoldsIn g j results
  unfolding settle_all
  settle_all_back [] results g j h = h
  settle_all_back ((gateway, ks) ∷ bound) results g j h =
      settle_back gateway (sort_routes snap ks) [] results g j
        (settle_all_back bound (settle snap gateway (sort_routes snap ks) [] results) g j h)

  pub settle_all-Apart :
      (bound : Map NamespacedName (List NamespacedName)) (results : Results)
      (g j k : NamespacedName)
      → j ≢ k
      → Member j (slice_at g bound)
      → Member k (slice_at g bound)
      → HoldsIn g j (settle_all snap bound results)
      → HoldsIn g k (settle_all snap bound results)
      → Apart j k
  unfolding settle_all lookup
  settle_all-Apart [] results g j k n mj mk hj hk = absurd mj
  settle_all-Apart ((gateway, ks) ∷ bound) results g j k n mj mk hj hk =
      let after : Results = settle snap gateway (sort_routes snap ks) [] results in
      elim (Bool-cases (gateway == g)) [
        | inr e ↦ settle_all-Apart bound after g j k n (rw e at mj) (rw e at mk) hj hk
        | inl e ↦
            let same : gateway ≡ g = (NamespacedName_eq.eqb_iff gateway g).0 e in
            Apart-Member gateway after (sort_routes snap ks) j k
              (settle-Apart gateway (sort_routes snap ks) [] results).1 n
              (Member-sort j ks (rw e at mj)) (Member-sort k ks (rw e at mk))
              (subst (λ x. HoldsIn x j after) (sym same) (settle_all_back bound after g j hj))
              (subst (λ x. HoldsIn x k after) (sym same) (settle_all_back bound after g k hk))
      ]
