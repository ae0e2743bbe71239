-- ===== src/Gateway/Conflicts/Winners.antt =====
-- resolveModuleConflicts of internal/gateway/bind.go: on one Gateway, a route that loses has lost a
-- module to a route that is no younger and keeps the Gateway.
use rsync_gateway.Prelude.{
  ◌≤◌, ◌≡◌, ◌≢◌, refl, sym, ap, ◌∙◌, subst, ◌⊎◌, inl, inr, false, List, [], ◌∷◌, some, String, All,
  All-map, Bool-cases, Option-cases, Distinct,
}
use rsync_gateway.Prelude.Keys.{◌==◌, String_eq, Map, lookup, insert, lookup-insert}
use rsync_gateway.Gateway.Objects.{NamespacedName, NamespacedName_eq, Snapshot}
use rsync_gateway.Gateway.Conflicts.{
  Results, slice_at, modules_of, created, first_claimed, own_modules, reject_route, settle,
}
use rsync_gateway.Gateway.Conflicts.Reject.{Holds, HoldsIn, In, slice_at-reject_found}

first_claimed-some :
    (owner : Map String NamespacedName) (ms : List String) (w : NamespacedName) (m : String)
    → first_claimed owner ms ≡ some (w, m)
    → In m ms × (lookup m owner ≡ some w)
unfolding first_claimed
first_claimed-some owner [] w m e = cc e
first_claimed-some owner (n ∷ ms) w m e = elim (Option-cases (lookup n owner)) [
  | inl f ↦
      let rest = first_claimed-some owner ms w m (rw (f, first_claimed) at e) in
      (inr rest.0, rest.1)
  | inr (prev, f) ↦
      let same : (prev, n) ≡ (w, m) = cc (rw (f, first_claimed) at e) in
      let there : n ≡ m = ap (λ (x : NamespacedName × String). x.1) same in
      let whose : prev ≡ w = ap (λ (x : NamespacedName × String). x.0) same in
      (inl there, ap (λ (x : String). lookup x owner) (sym there) ∙ f ∙ ap some whose)
]

own_modules-some :
    (k : NamespacedName) (ms : List String) (owner : Map String NamespacedName) (m : String)
    (w : NamespacedName)
    → lookup m (own_modules k ms owner) ≡ some w
    → ((w ≡ k) × In m ms) ⊎ (lookup m owner ≡ some w)
unfolding own_modules
own_modules-some k [] owner m w e = inr e
own_modules-some k (n ∷ ms) owner m w e = elim (own_modules-some k ms (insert n k owner) m w e) [
  | inl (same, i) ↦ inl (same, inr i)
  | inr f ↦ elim (Bool-cases (n == m)) [
    | inl g ↦
        let mine : k ≡ w = cc (rw g at (sym (lookup-insert n m k owner) ∙ f)) in
        inl (sym mine, inl ((String_eq.eqb_iff n m).0 g))
    | inr g ↦ inr (rw g at (sym (lookup-insert n m k owner) ∙ f))
  ]
]

pub not_same : (k j : NamespacedName) → k ≢ j → (k == j) ≡ false
not_same k j n = elim (Bool-cases (k == j)) [
  | inl e ↦ absurd (n ((NamespacedName_eq.eqb_iff k j).0 e))
  | inr e ↦ e
]

slice_at-reject_else :
    (gateway k w j : NamespacedName) (m : String) (results : Results)
    → k ≢ j
    → slice_at j (reject_route gateway k w m results) ≡ slice_at j results
unfolding reject_route
slice_at-reject_else gateway k w j m results n =
    slice_at-reject_found gateway w m k j (lookup k results) results refl ∙ rw (not_same k j n)

module _ (snap : Snapshot) (gateway : NamespacedName) where
  slice_at-settle_else :
      (j : NamespacedName) (ks : List NamespacedName) (owner : Map String NamespacedName)
      (results : Results)
      → All (λ k. k ≢ j) ks
      → slice_at j (settle snap gateway ks owner results) ≡ slice_at j results
  unfolding settle
  slice_at-settle_else j [] owner results a = refl
  slice_at-settle_else j (k ∷ ks) owner results a =
      elim (Option-cases (first_claimed owner (modules_of snap k))) [
        | inl e ↦
            rw (e, settle)
              (slice_at-settle_else j ks (own_modules k (modules_of snap k) owner) results a.1)
        | inr ((w, m), e) ↦
            rw (e, settle)
              (slice_at-settle_else j ks owner (reject_route gateway k w m results) a.1
                ∙ slice_at-reject_else gateway k w j m results a.0)
      ]

  -- A module of the route belongs to a route that is no younger and holds the Gateway.
  pub record Beaten (after : Results) (k : NamespacedName) : Type 0 where
    pub winner : NamespacedName
    pub contested : String
    pub wanted : In contested (modules_of snap k)
    pub served : In contested (modules_of snap winner)
    pub no_younger : created snap winner ≤ created snap k
    pub holds : HoldsIn gateway winner after

  abbrev pub ByAge : List NamespacedName → Type 0
  ByAge [] = Unit {0}
  ByAge (k ∷ ks) = All (λ j. created snap k ≤ created snap j) ks × ByAge ks

  -- What is known of the owners when the routes `ks` are still to come.
  abbrev pub Owners : Map String NamespacedName → List NamespacedName → Results → Type 0
  Owners owner ks after =
      (m : String) (w : NamespacedName)
      → lookup m owner ≡ some w
      → In m (modules_of snap w)
        × All (λ j. created snap w ≤ created snap j) ks
        × HoldsIn gateway w after

  abbrev pub Outcome : Results → NamespacedName → Type 0
  Outcome after k = HoldsIn gateway k after ⊎ Beaten after k

  module _ (k : NamespacedName) (ks : List NamespacedName) (owner : Map String NamespacedName)
      (after : Results) where
    Owners-tail : Owners owner (k ∷ ks) after → Owners owner ks after
    Owners-tail o m w e = let (i, a, h) = o m w e in (i, a.1, h)

    Owners-own_modules :
        Owners owner (k ∷ ks) after
        → All (λ j. created snap k ≤ created snap j) ks
        → HoldsIn gateway k after
        → Owners (own_modules k (modules_of snap k) owner) ks after
    Owners-own_modules o age holds m w e =
        elim (own_modules-some k (modules_of snap k) owner m w e) [
          | inr f ↦ Owners-tail o m w f
          | inl (same, i) ↦
              subst
                (λ x.
                  In m (modules_of snap x)
                  × All (λ j. created snap x ≤ created snap j) ks
                  × HoldsIn gateway x after)
                (sym same) (i, age, holds)
        ]

    Owners-Beaten :
        (w : NamespacedName) (m : String)
        → Owners owner (k ∷ ks) after
        → first_claimed owner (modules_of snap k) ≡ some (w, m)
        → Beaten after k
    Owners-Beaten w m o e =
        let (i, f) = first_claimed-some owner (modules_of snap k) w m e in
        let (j, a, h) = o m w f in
        record { winner = w; contested = m; wanted = i; served = j; no_younger = a.0; holds = h }

  pub settle-Outcome :
      (ks : List NamespacedName) (owner : Map String NamespacedName) (results after : Results)
      → settle snap gateway ks owner results ≡ after
      → Distinct ks
      → ByAge ks
      → All (λ k. HoldsIn gateway k results) ks
      → Owners owner ks after
      → All (Outcome after) ks
  unfolding settle
  settle-Outcome [] owner results after e d b h o = tt
  settle-Outcome (k ∷ ks) owner results after e d b h o =
      elim (Option-cases (first_claimed owner (modules_of snap k))) [
        | inr ((w, m), f) ↦ (
          inr (Owners-Beaten k ks owner after w m o f),
          settle-Outcome ks owner (reject_route gateway k w m results) after (rw (f, settle) at e)
              d.1 b.1 (still k w m ks d.0 h.1) (Owners-tail k ks owner after o),
        )
        | inl f ↦
            let mine : Map String NamespacedName = own_modules k (modules_of snap k) owner in
            let rest : settle snap gateway ks mine results ≡ after = rw (f, settle) at e in
            let kept : HoldsIn gateway k after = subst (HoldsIn gateway k) rest (
              subst (Holds gateway) (sym (slice_at-settle_else k ks mine results (flipped ks d.0)))
                h.0) in
            (
              inl kept,
              settle-Outcome ks mine results after rest d.1 b.1 h.1
                  (Owners-own_modules k ks owner after o b.0 kept),
            )
      ]
    where
      flipped : (xs : List NamespacedName) → All (λ j. k ≢ j) xs → All (λ j. j ≢ k) xs
      flipped xs a = All-map (λ j. k ≢ j) (λ j. j ≢ k) (λ j n e. n (sym e)) xs a

      still :
          (x w : NamespacedName) (m : String) (xs : List NamespacedName)
          → All (λ j. x ≢ j) xs
          → All (λ j. HoldsIn gateway j results) xs
          → All (λ j. HoldsIn gateway j (reject_route gateway x w m results)) xs
      still x w m [] a b = tt
      still x w m (j ∷ xs) a b = (
        subst (Holds gateway) (sym (slice_at-reject_else gateway x w j m results a.0)) b.0,
        still x w m xs a.1 b.1,
      )
