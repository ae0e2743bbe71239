-- ===== src/Gateway/Conditions/Again.antt =====
-- MergeConditions of internal/gateway/conditions.go: a second merge of the same changes nothing.
use rsync_gateway.Prelude.{
  ◌≡◌, refl, sym, ap, ◌∙◌, subst, true, false, List, [], ◌∷◌, ◌++◌, map, Option, none, some, String,
  any_of, is_some, get_or, Bool-cases, Option-cases, inl, inr, All, All-append,
}
use rsync_gateway.Prelude.Keys.{◌==◌, String_eq, ==_refl}
use rsync_gateway.Gateway.Objects.{Condition}
use rsync_gateway.Gateway.Conditions.{replaced, append_missing, merge_conditions}
use rsync_gateway.Gateway.Conditions.Merge.{
  of_kind, or_else, of_kind-here, of_kind-there, of_kind-hit, any_of-of_kind,
  of_kind-merge_conditions,
}

module _ (W : List Condition) where
  -- A condition that a replacement leaves as it is.
  abbrev Fixed : Condition → Type 0
  Fixed c = replaced W c ≡ c

  Fixed-replaced : (c : Condition) → Fixed (replaced W c)
  unfolding replaced
  Fixed-replaced c = elim (Option-cases (of_kind c.kind W)) [
    | inl e ↦ let same : replaced W c ≡ c = ap (λ o. get_or o c) e in subst Fixed (sym same) same
    | inr (w, e) ↦
        let same : replaced W c ≡ w = ap (λ o. get_or o c) e in
        subst Fixed (sym same) (
          ap (λ (x : String). get_or (of_kind x W) w) (of_kind-hit c.kind W w e)
          ∙ ap (λ o. get_or o w) e)
  ]

  Fixed-map : (cur : List Condition) → All Fixed (map (replaced W) cur)
  Fixed-map [] = tt
  Fixed-map (c ∷ cur) = (Fixed-replaced c, Fixed-map cur)

  -- Of a type that is not there yet, what is still wanted comes first.
  abbrev Ahead : List Condition → List Condition → Type 0
  Ahead out want =
      (k : String) → any_of (λ c. c.kind == k) out ≡ false → of_kind k W ≡ of_kind k want

  any_of-snoc :
      (k : String) (out : List Condition) (w : Condition)
      → any_of (λ c. c.kind == k) (out ++ w ∷ []) ≡ false
      → (any_of (λ c. c.kind == k) out ≡ false) × ((w.kind == k) ≡ false)
  any_of-snoc k [] w e = elim (Bool-cases (w.kind == k)) [
    | inl f ↦ cc (rw f at e)
    | inr f ↦ (refl, f)
  ]
  any_of-snoc k (c ∷ out) w e = elim (Bool-cases (c.kind == k)) [
    | inl f ↦ cc (rw f at e)
    | inr f ↦ rw f (any_of-snoc k out w (rw f at e))
  ]

  Fixed-append_missing :
      (out want : List Condition)
      → All Fixed out
      → Ahead out want
      → All Fixed (append_missing out want)
  unfolding append_missing
  Fixed-append_missing out [] a h = a
  Fixed-append_missing out (w ∷ want) a h = elim (Bool-cases (any_of (λ c. c.kind == w.kind) out)) [
    | inl e ↦ rw e (
        Fixed-append_missing out want a λ k f. elim (Bool-cases (w.kind == k)) [
          | inl g ↦ cc (
            f,
            e,
            ap (λ (x : String). any_of (λ c. c.kind == x) out) ((String_eq.eqb_iff w.kind k).0 g),
          )
          | inr g ↦ h k f ∙ of_kind-there k w want g
        ])
    | inr e ↦ rw e (
        Fixed-append_missing (out ++ w ∷ []) want (All-append Fixed out (w ∷ []) a (first e, tt))
          λ k f. let (g, i) = any_of-snoc k out w f in h k g ∙ of_kind-there k w want i)
  ]
    where
      first : any_of (λ c. c.kind == w.kind) out ≡ false → Fixed w
      first e =
          unfold replaced in
          ap (λ o. get_or o w) (h w.kind e ∙ of_kind-here w.kind w want (==_refl w.kind))

  map-replaced : (cs : List Condition) → All Fixed cs → map (replaced W) cs ≡ cs
  map-replaced [] a = refl
  map-replaced (c ∷ cs) a = cc (a.0, map-replaced cs a.1)

  append_missing-none :
      (out want : List Condition)
      → All (λ w. any_of (λ c. c.kind == w.kind) out ≡ true) want
      → append_missing out want ≡ out
  unfolding append_missing
  append_missing-none out [] a = refl
  append_missing-none out (w ∷ want) a = rw a.0 (append_missing-none out want a.1)

  present :
      (want : List Condition) (out : List Condition)
      → ((k : String) → is_some (of_kind k want) ≡ true → any_of (λ c. c.kind == k) out ≡ true)
      → All (λ w. any_of (λ c. c.kind == w.kind) out ≡ true) want
  present [] out h = tt
  present (w ∷ want) out h = (
    h w.kind (ap is_some (of_kind-here w.kind w want (==_refl w.kind))),
    present want out λ k e. h k (elim (Bool-cases (w.kind == k)) [
      | inl f ↦ ap is_some (of_kind-here k w want f)
      | inr f ↦ ap is_some (of_kind-there k w want f) ∙ e
    ]),
  )

  pub merge_conditions_again :
      (cur : List Condition) → merge_conditions (merge_conditions cur W) W ≡ merge_conditions cur W
  unfolding merge_conditions
  merge_conditions_again cur =
      ap (λ xs. append_missing xs W)
        (map-replaced (merge_conditions cur W)
          (Fixed-append_missing (map (replaced W) cur) W (Fixed-map cur) (λ k e. refl)))
      ∙ append_missing-none (merge_conditions cur W) W (
          present W (merge_conditions cur W) λ k e.
            any_of-of_kind k (merge_conditions cur W)
            ∙ ap is_some (of_kind-merge_conditions k cur W)
            ∙ chosen (of_kind k W) (of_kind k cur) e)
    where
      chosen : (a b : Option Condition) → is_some a ≡ true → is_some (or_else a b) ≡ true
      chosen none b e = cc e
      chosen (some a) b e = refl
