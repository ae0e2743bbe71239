-- ===== src/Gateway/Conflicts/Reject.antt =====
-- resolveModuleConflicts of internal/gateway/bind.go: the results that a rejection leaves accepted,
-- and the owners of modules.
use rsync_gateway.Prelude.{
  ◌≢◌, ◌↔◌, Bool, and_iff, ◌≡◌, refl, sym, ap, ◌∙◌, subst, inl, inr, true, false, ◌&&◌, List, [],
  ◌∷◌, map, Option, none, some, String, if◌then◌else◌, get_or, Any, Bool-cases, Option-cases,
}
use rsync_gateway.Prelude.Keys.{◌==◌, String_eq, Map, lookup, insert, lookup-insert, ==_refl}
use rsync_gateway.Gateway.Objects.{NamespacedName, NamespacedName_eq}
use rsync_gateway.Gateway.Bind.{ParentResult}
use rsync_gateway.Gateway.Conflicts.{
  Results, slice_at, first_claimed, own_modules, conflicted, reject_found, reject_route,
}

-- A route holds a Gateway in some results.
abbrev pub Holds : NamespacedName → List ParentResult → Type 0
Holds g rs = Any (λ r. (r.accepted ≡ true) × (r.gateway ≡ g)) rs

abbrev pub HoldsIn : NamespacedName → NamespacedName → Results → Type 0
HoldsIn g k results = Holds g (slice_at k results)

Bool-id : (b : Bool) → (b ≡ true) ↔ (b ≡ true)
Bool-id b = ((λ e. e), λ e. e)

pub slice_at-insert {ℓ} :
    {V : Type ℓ} (k j : NamespacedName) (rs : List V) (m : Map NamespacedName (List V))
    → slice_at j (insert k rs m) ≡ (if k == j then rs else slice_at j m)
slice_at-insert k j rs m =
    ap (λ o. get_or o []) (lookup-insert k j rs m)
    ∙ (elim (Bool-cases (k == j)) [ inl e ↦ rw e | inr e ↦ rw e ])

module _ (gateway winner : NamespacedName) (m : String) where
  abbrev pub rejected : List ParentResult → List ParentResult
  rejected = map (conflicted gateway winner m)

  conflicted_hit :
      (r : ParentResult)
      → (r.accepted && r.gateway == gateway) ≡ true
      → (conflicted gateway winner m r).accepted ≡ false
  unfolding conflicted
  conflicted_hit r e = rw e

  conflicted_miss :
      (r : ParentResult)
      → (r.accepted && r.gateway == gateway) ≡ false
      → conflicted gateway winner m r ≡ r
  unfolding conflicted
  conflicted_miss r e = rw e

  -- A rejection accepts nothing anew,
  Holds-rejected_back :
      (g : NamespacedName) (rs : List ParentResult) → Holds g (rejected rs) → Holds g rs
  Holds-rejected_back g [] h = absurd h
  Holds-rejected_back g (r ∷ rs) (inl h) = elim (Bool-cases (r.accepted && r.gateway == gateway)) [
    | inl e ↦ cc (conflicted_hit r e, h.0)
    | inr e ↦ inl (
        subst (λ (x : ParentResult). (x.accepted ≡ true) × (x.gateway ≡ g)) (conflicted_miss r e) h)
  ]
  Holds-rejected_back g (r ∷ rs) (inr h) = inr (Holds-rejected_back g rs h)

  -- and leaves nothing accepted on its Gateway.
  not-Holds-rejected : (rs : List ParentResult) → ¬ Holds gateway (rejected rs)
  not-Holds-rejected [] h = h
  not-Holds-rejected (r ∷ rs) (inl h) = elim (Bool-cases (r.accepted && r.gateway == gateway)) [
    | inl e ↦ cc (conflicted_hit r e, h.0)
    | inr e ↦
        let same : conflicted gateway winner m r ≡ r = conflicted_miss r e in
        let a : r.accepted ≡ true = cc (same, h.0) in
        let b : (r.gateway == gateway) ≡ true =
          (NamespacedName_eq.eqb_iff r.gateway gateway).1 (cc (same, h.1)) in
        cc (rw (a, b) at e)
  ]
  not-Holds-rejected (r ∷ rs) (inr h) = not-Holds-rejected rs h

  -- Other Gateways' results stay.
  Holds-rejected_other :
      (g : NamespacedName) (rs : List ParentResult)
      → gateway ≢ g
      → Holds g rs
      → Holds g (rejected rs)
  Holds-rejected_other g [] n h = h
  Holds-rejected_other g (r ∷ rs) n (inr h) = inr (Holds-rejected_other g rs n h)
  Holds-rejected_other g (r ∷ rs) n (inl h) =
      elim (Bool-cases (r.accepted && r.gateway == gateway)) [
        | inr e ↦ inl (
            subst (λ (x : ParentResult). (x.accepted ≡ true) × (x.gateway ≡ g))
              (sym (conflicted_miss r e)) h)
        | inl e ↦
            let both =
              (and_iff r.accepted (r.gateway == gateway) (Bool-id r.accepted)
                  (NamespacedName_eq.eqb_iff r.gateway gateway)).0
                e in
            absurd (n (sym both.1 ∙ h.1))
      ]

  pub slice_at-reject_found :
      (k j : NamespacedName) (o : Option (List ParentResult)) (results : Results)
      → lookup k results ≡ o
      → slice_at j (reject_found gateway k winner m o results)
        ≡ (if k == j then rejected (slice_at j results) else slice_at j results)
  unfolding reject_found
  slice_at-reject_found k j none results e = elim (Bool-cases (k == j)) [
    | inl f ↦
        let same : k ≡ j = (NamespacedName_eq.eqb_iff k j).0 f in
        rw f (
          ap (λ (x : NamespacedName). slice_at x results) (sym same)
          ∙ ap (λ o. get_or o []) e
          ∙ ap (λ o. rejected (get_or o [])) (sym e)
          ∙ ap (λ (x : NamespacedName). rejected (slice_at x results)) same)
    | inr f ↦ rw f
  ]
  slice_at-reject_found k j (some rs) results e =
      slice_at-insert k j (rejected rs) results ∙ (elim (Bool-cases (k == j)) [
        | inl f ↦
            let same : k ≡ j = (NamespacedName_eq.eqb_iff k j).0 f in
            rw f (
              ap (λ o. rejected (get_or o [])) (sym e)
              ∙ ap (λ (x : NamespacedName). rejected (slice_at x results)) same)
        | inr f ↦ rw f
      ])

  pub Holds-reject_back :
      (g k j : NamespacedName) (results : Results)
      → HoldsIn g j (reject_route gateway k winner m results)
      → HoldsIn g j results
  unfolding reject_route
  Holds-reject_back g k j results h = elim (Bool-cases (k == j)) [
    | inl e ↦
        Holds-rejected_back g (slice_at j results)
          (subst (Holds g) (slice_at-reject_found k j (lookup k results) results refl ∙ rw e) h)
    | inr e ↦ subst (Holds g) (slice_at-reject_found k j (lookup k results) results refl ∙ rw e) h
  ]

  pub Holds-reject_other :
      (g k j : NamespacedName) (results : Results)
      → gateway ≢ g
      → HoldsIn g j results
      → HoldsIn g j (reject_route gateway k winner m results)
  unfolding reject_route
  Holds-reject_other g k j results n h = elim (Bool-cases (k == j)) [
    | inl e ↦
        subst (Holds g) (sym (slice_at-reject_found k j (lookup k results) results refl ∙ rw e))
          (Holds-rejected_other g (slice_at j results) n h)
    | inr e ↦
        subst (Holds g) (sym (slice_at-reject_found k j (lookup k results) results refl ∙ rw e)) h
  ]

  pub not-Holds-reject :
      (k : NamespacedName) (results : Results)
      → ¬ HoldsIn gateway k (reject_route gateway k winner m results)
  unfolding reject_route
  not-Holds-reject k results h = not-Holds-rejected (slice_at k results) (
      subst (Holds gateway)
        (slice_at-reject_found k k (lookup k results) results refl ∙ rw (==_refl k)) h)

abbrev pub In : String → List String → Type 0
In m ms = Any (λ x. x ≡ m) ms

-- No route owns one of these modules.
abbrev pub Free : Map String NamespacedName → List String → Type 0
Free owner ms = (m : String) → In m ms → lookup m owner ≡ none

pub first_claimed-Free :
    (owner : Map String NamespacedName) (ms : List String)
    → first_claimed owner ms ≡ none
    → Free owner ms
unfolding first_claimed
first_claimed-Free owner [] e m i = absurd i
first_claimed-Free owner (n ∷ ms) e m i = elim (Option-cases (lookup n owner)) [
  | inr (prev, f) ↦ cc (rw (f, first_claimed) at e)
  | inl f ↦ elim i [
    | inl same ↦ ap (λ (x : String). lookup x owner) (sym same) ∙ f
    | inr j ↦ first_claimed-Free owner ms (rw (f, first_claimed) at e) m j
  ]
]

pub own_modules-none :
    (k : NamespacedName) (ms : List String) (owner : Map String NamespacedName) (m : String)
    → lookup m (own_modules k ms owner) ≡ none
    → (lookup m owner ≡ none) × ¬ In m ms
unfolding own_modules
own_modules-none k [] owner m e = (e, λ h. h)
own_modules-none k (n ∷ ms) owner m e =
    let (free, out) = own_modules-none k ms (insert n k owner) m e in
    elim (Bool-cases (n == m)) [
      | inl f ↦ cc (rw f at (sym (lookup-insert n m k owner) ∙ free))
      | inr f ↦ (
        rw f at (sym (lookup-insert n m k owner) ∙ free),
        λ i. elim i [ inl same ↦ cc (f, (String_eq.eqb_iff n m).1 same) | inr j ↦ out j ],
      )
    ]
