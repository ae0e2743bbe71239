-- ===== src/Gateway/Conditions/Lone.antt =====
-- internal/gateway/conditions.go: when a status that one condition was merged into has just that one.
use rsync_gateway.Prelude.{
  ◌≡◌, ◌↔◌, refl, sym, ap, ◌∙◌, inl, inr, true, false, List, [], ◌∷◌, ◌++◌, map, String, any_of,
  Bool-cases,
}
use rsync_gateway.Prelude.Keys.{◌==◌, String_eq, ==_refl}
use rsync_gateway.Gateway.Objects.{Condition}
use rsync_gateway.Gateway.Conditions.{replaced, append_missing, merge_conditions, conditions_equal}
use rsync_gateway.Gateway.Conditions.Content.{content, conditions_equal_iff}

-- No condition, or one of the type.
abbrev pub Lone : String → List Condition → Type 0
Lone k [] = Unit
Lone k (c ∷ []) = c.kind ≡ k
Lone k (c ∷ d ∷ cs) = ⊥

two_one :
    (a b s : Condition) (cs : List Condition) → conditions_equal (a ∷ b ∷ cs) (s ∷ []) ≡ true → ⊥
two_one a b s cs h = cc ((conditions_equal_iff (a ∷ b ∷ cs) (s ∷ [])).0 h)

pub equal-Lone :
    (cs : List Condition) (s : Condition) → conditions_equal cs (s ∷ []) ≡ true → Lone s.kind cs
equal-Lone [] s h = tt
equal-Lone (c ∷ []) s h =
    let same : content c ≡ content s = cc ((conditions_equal_iff (c ∷ []) (s ∷ [])).0 h) in
    ap (λ (x : Condition). x.kind) same
equal-Lone (c ∷ d ∷ cs) s h = absurd (two_one c d s cs h)

merged_two :
    (s c d : Condition) (cs : List Condition)
    → (a : Condition) × (b : Condition) × (xs : List Condition) × (merge_conditions
          (c ∷ d ∷ cs)
          (s ∷ [])
        ≡ a ∷ b ∷ xs)
unfolding merge_conditions append_missing
merged_two s c d cs =
    let out : List Condition = map (replaced (s ∷ [])) (c ∷ d ∷ cs) in
    let there = replaced (s ∷ []) in
    elim (Bool-cases (any_of (λ x. x.kind == s.kind) out)) [
      | inl e ↦ (there c, there d, map there cs, rw e refl)
      | inr e ↦ (there c, there d, map there cs ++ s ∷ [], rw e refl)
    ]

abbrev into : Condition → Condition → List Condition
into s c = merge_conditions (c ∷ []) (s ∷ [])

merged_hit : (s c : Condition) → (s.kind == c.kind) ≡ true → into s c ≡ s ∷ []
unfolding merge_conditions append_missing replaced
merged_hit s c e =
    let found : replaced (s ∷ []) c ≡ s = rw (e, replaced) refl in
    ap (λ r. append_missing (r ∷ []) (s ∷ [])) found ∙ rw (==_refl s.kind) refl

merged_miss : (s c : Condition) → (s.kind == c.kind) ≡ false → into s c ≡ c ∷ s ∷ []
unfolding merge_conditions append_missing replaced
merged_miss s c e =
    let kept : replaced (s ∷ []) c ≡ c = rw (e, replaced) refl in
    let other : (c.kind == s.kind) ≡ false = elim (Bool-cases (c.kind == s.kind)) [
      | inr f ↦ f
      | inl f ↦ cc (e, sym ((String_eq.eqb_iff c.kind s.kind).0 f), ==_refl s.kind)
    ] in
    ap (λ r. append_missing (r ∷ []) (s ∷ [])) kept ∙ rw other refl

module _ (s t : Condition) (same : content s ≡ content t) where
  alone : conditions_equal (s ∷ []) (t ∷ []) ≡ true
  alone = (conditions_equal_iff (s ∷ []) (t ∷ [])).1 (ap (λ x. x ∷ []) same)

  -- The status is the one condition exactly when none of another type was there, and none twice.
  pub merged_iff :
      (existing : List Condition)
      → (conditions_equal (merge_conditions existing (s ∷ [])) (t ∷ []) ≡ true)
        ↔ Lone s.kind existing
  unfolding merge_conditions append_missing replaced
  merged_iff [] = ((λ h. tt), λ h. alone)
  merged_iff (c ∷ []) = elim (Bool-cases (s.kind == c.kind)) [
    | inl e ↦ (
      (λ h. sym ((String_eq.eqb_iff s.kind c.kind).0 e)),
      λ h. ap (λ xs. conditions_equal xs (t ∷ [])) (merged_hit s c e) ∙ alone,
    )
    | inr e ↦ (
      (λ h. absurd (
          two_one c s t []
            (sym (ap (λ xs. conditions_equal xs (t ∷ [])) (merged_miss s c e)) ∙ h))),
      λ h. cc (e, (String_eq.eqb_iff s.kind c.kind).1 (sym h)),
    )
  ]
  merged_iff (c ∷ d ∷ cs) =
      let (a, b, xs, e) = merged_two s c d cs in
      ((λ h. two_one a b t xs (rw e at h)), λ h. absurd h)
