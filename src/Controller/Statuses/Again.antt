-- ===== src/Controller/Statuses/Again.antt =====
-- writeStatuses of internal/controller/reconciler.go: whether the status of a class or of a config, once
-- written, is written again.
use mathlib.Core.Option
use rsync_gateway.Prelude.{
  ◌≡◌, ◌↔◌, refl, sym, subst, ap, ◌∙◌, inl, inr, true, List, [], ◌∷◌, ℕ, none, Bool-cases,
}
use rsync_gateway.Gateway.Objects.{Condition}
use rsync_gateway.Gateway.Conditions.{conditions_equal, merge_conditions}
use rsync_gateway.Gateway.Conditions.Content.{content}
use rsync_gateway.Gateway.Conditions.Lone.{Lone, equal-Lone, merged_iff}
use rsync_gateway.Gateway.Status.{stabilise}
use rsync_gateway.Gateway.Status.Routes.{content-stabilise}
use rsync_gateway.Controller.Statuses.{conditions_update}

-- The conditions that an update writes.
abbrev pub written : (Condition → ℕ) → List Condition → Condition → List Condition
written now existing cond = merge_conditions existing (stabilise now existing cond ∷ [])

module _ (now later : Condition → ℕ) (existing : List Condition) (cond : Condition) where
  update_iff :
      (cs : List Condition)
      → (conditions_update later cs cond ≡ none)
        ↔ (conditions_equal cs (stabilise later cs cond ∷ []) ≡ true)
  unfolding conditions_update
  update_iff cs = elim (Bool-cases (conditions_equal cs (stabilise later cs cond ∷ []))) [
    | inl e ↦ rw (e, conditions_update) ((λ h. refl), λ h. refl)
    | inr e ↦ rw (e, conditions_update) ((λ h. cc h), λ h. cc h)
  ]

  -- Conditions that were written are right at any later time exactly when there was at most one before.
  written_iff :
      (conditions_update later (written now existing cond) cond ≡ none) ↔ Lone cond.kind existing
  written_iff =
      let s = stabilise now existing cond in
      let t = stabilise later (written now existing cond) cond in
      let same : content s ≡ content t =
        content-stabilise now existing cond
        ∙ sym (content-stabilise later (written now existing cond) cond) in
      let kind : s.kind ≡ cond.kind =
        ap (λ (c : Condition). c.kind) (content-stabilise now existing cond) in
      let equal = update_iff (written now existing cond) in
      let lone = merged_iff s t same existing in
      (
        (λ h. subst (λ k. Lone k existing) kind (lone.0 (equal.0 h))),
        λ h. equal.1 (lone.1 (subst (λ k. Lone k existing) (sym kind) h)),
      )

  -- Of two updates in a row, at any times and with the same condition wanted, the second writes nothing exactly when
  -- there was at most one condition before them, and of that type.
  pub conditions_update_again :
      (Option.bind (conditions_update now existing cond) (λ cs. conditions_update later cs cond)
        ≡ none)
      ↔ Lone cond.kind existing
  unfolding conditions_update Option.bind
  conditions_update_again =
      let s = stabilise now existing cond in
      elim (Bool-cases (conditions_equal existing (s ∷ []))) [
        | inr e ↦ rw (e, conditions_update) written_iff
        | inl e ↦
            rw (e, conditions_update)
              (
                (λ _.
                    subst (λ k. Lone k existing)
                      (ap (λ (c : Condition). c.kind) (content-stabilise now existing cond))
                      (equal-Lone existing s e)),
                λ _. refl,
              )
      ]
