-- ===== src/Gateway/Conditions/Content.antt =====
-- The comparisons of internal/gateway/conditions.go look at everything but the transition time.
use rsync_gateway.Prelude.{
  ◌≡◌, refl, ap, ◌↔◌, Bool, true, ◌&&◌, List, [], ◌∷◌, ◌++◌, map, inl, inr, Option-cases,
  find_first, nat_eq_iff, ℕ, and_iff,
}
use rsync_gateway.Prelude.Keys.{◌==◌, String_eq}
use rsync_gateway.Gateway.Objects.{Condition}
use rsync_gateway.Gateway.Conditions.{
  stamp, stable_condition, condition_content_equal, all_equal, conditions_equal,
}

-- A condition without its time.
abbrev pub content : Condition → Condition
content c = record c { last_transition_time = 0 }

content_ext :
    (a b : Condition)
    → a.kind ≡ b.kind
    → a.status ≡ b.status
    → a.reason ≡ b.reason
    → a.message ≡ b.message
    → a.observed_generation ≡ b.observed_generation
    → content a ≡ content b
content_ext a b e f g h i = λ j. record {
  kind = e j;
  status = f j;
  reason = g j;
  message = h j;
  observed_generation = i j;
  last_transition_time = 0;
}

condition_content_equal_iff :
    (a b : Condition) → (condition_content_equal a b ≡ true) ↔ (content a ≡ content b)
unfolding condition_content_equal
condition_content_equal_iff a b = (forth, back)
  where
    each : (condition_content_equal a b ≡ true) ↔ (
        ((((a.kind ≡ b.kind) × (a.status ≡ b.status)) × (a.reason ≡ b.reason))
          × (a.message ≡ b.message))
        × (a.observed_generation ≡ b.observed_generation))
    each =
        unfold condition_content_equal in
        and_iff _ _
          (and_iff _ _
            (and_iff _ _
              (and_iff _ _ (String_eq.eqb_iff a.kind b.kind) (String_eq.eqb_iff a.status b.status))
              (String_eq.eqb_iff a.reason b.reason))
            (String_eq.eqb_iff a.message b.message))
          (nat_eq_iff a.observed_generation b.observed_generation)

    forth : condition_content_equal a b ≡ true → content a ≡ content b
    forth h = let ((((k, s), r), m), g) = each.0 h in content_ext a b k s r m g

    back : content a ≡ content b → condition_content_equal a b ≡ true
    back e = each.1 (
      (
        (
          (ap (λ (x : Condition). x.kind) e, ap (λ (x : Condition). x.status) e),
          ap (λ (x : Condition). x.reason) e,
        ),
        ap (λ (x : Condition). x.message) e,
      ),
      ap (λ (x : Condition). x.observed_generation) e,
    )

module _ {ℓ} {A : Type ℓ} {B : Type 0} (same : A → A → Bool) where
  -- A comparison that finds equal what a view shows equal compares the lists' views.
  all_equal_iff :
      (view : A → B)
      → ((a b : A) → (same a b ≡ true) ↔ (view a ≡ view b))
      → (xs ys : List A) → (all_equal same xs ys ≡ true) ↔ (map view xs ≡ map view ys)
  unfolding all_equal
  all_equal_iff view h [] [] = ((λ _. refl), λ _. refl)
  all_equal_iff view h [] (y ∷ ys) = ((λ e. cc), λ e. cc e)
  all_equal_iff view h (x ∷ xs) [] = ((λ e. cc), λ e. cc e)
  all_equal_iff view h (x ∷ xs) (y ∷ ys) =
      let both = and_iff (same x y) (all_equal same xs ys) (h x y) (all_equal_iff view h xs ys) in
      ((λ e. cc ((both.0 e).0, (both.0 e).1)), λ e. both.1 (cc e, cc e))

-- ConditionsEqual holds exactly of two lists that agree in order, and in everything but the
-- transition times.
pub conditions_equal_iff :
    (cur want : List Condition)
    → (conditions_equal cur want ≡ true) ↔ (map content cur ≡ map content want)
unfolding conditions_equal
conditions_equal_iff = all_equal_iff condition_content_equal content condition_content_equal_iff

module _ {ℓ} {A : Type ℓ} (same : A → A → Bool) where
  pub all_equal_refl : ((a : A) → same a a ≡ true) → (xs : List A) → all_equal same xs xs ≡ true
  unfolding all_equal
  all_equal_refl h [] = refl
  all_equal_refl h (x ∷ xs) = rw (h x, all_equal_refl h xs)

  pub all_equal-append :
      (xs ys us vs : List A)
      → all_equal same xs ys ≡ true
      → all_equal same us vs ≡ true
      → all_equal same (xs ++ us) (ys ++ vs) ≡ true
  unfolding all_equal
  all_equal-append [] [] us vs e f = f
  all_equal-append [] (y ∷ ys) us vs e f = cc e
  all_equal-append (x ∷ xs) [] us vs e f = cc e
  all_equal-append (x ∷ xs) (y ∷ ys) us vs e f =
      let (a, b) =
        (and_iff (same x y) (all_equal same xs ys) ((λ h. h), λ h. h) ((λ h. h), λ h. h)).0 e in
      rw (a, all_equal-append xs ys us vs b f)

  pub all_equal-map {κ} :
      {B : Type κ} (f g : B → A)
      → ((b : B) → same (f b) (g b) ≡ true)
      → (bs : List B) → all_equal same (map f bs) (map g bs) ≡ true
  unfolding all_equal
  all_equal-map f g h [] = refl
  all_equal-map f g h (b ∷ bs) = rw (h b, all_equal-map f g h bs)

-- StableCondition changes the time only.
pub content-stable_condition :
    (now : ℕ) (existing : List Condition) (c : Condition)
    → content (stable_condition now existing c) ≡ content c
unfolding stable_condition stamp
content-stable_condition now existing c =
    elim (Option-cases (find_first (λ d. d.kind == c.kind && d.status == c.status) existing)) [
      | inl e ↦ rw (e, stamp)
      | inr (d, e) ↦ rw (e, stamp)
    ]
