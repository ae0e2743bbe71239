-- ===== src/Gateway/Conditions/Times.antt =====
-- MergeConditions of internal/gateway/conditions.go does not look at transition times.
use mathlib.Core.Option
use rsync_gateway.Prelude.{
  ◌≡◌, refl, sym, ap, ◌∙◌, true, List, [], ◌∷◌, ◌++◌, map, Option, none, some, String, any_of,
  get_or, Bool-cases, inl, inr,
}
use rsync_gateway.Prelude.Keys.{◌==◌, String_eq}
use rsync_gateway.Gateway.Objects.{Condition}
use rsync_gateway.Gateway.Conditions.{replaced, append_missing, merge_conditions, conditions_equal}
use rsync_gateway.Gateway.Conditions.Content.{content, conditions_equal_iff}
use rsync_gateway.Gateway.Conditions.Merge.{of_kind}
use rsync_gateway.Gateway.Conditions.Again.{merge_conditions_again}

of_kind-map :
    (k : String) (cs : List Condition)
    → of_kind k (map content cs) ≡ Option.map content (of_kind k cs)
of_kind-map k [] = refl
of_kind-map k (c ∷ cs) = elim (Bool-cases (c.kind == k)) [
  | inl e ↦ rw e
  | inr e ↦ rw e (of_kind-map k cs)
]

any_of-map :
    (k : String) (cs : List Condition)
    → any_of (λ c. c.kind == k) (map content cs) ≡ any_of (λ c. c.kind == k) cs
any_of-map k [] = refl
any_of-map k (c ∷ cs) = elim (Bool-cases (c.kind == k)) [
  | inl e ↦ rw e
  | inr e ↦ rw e (any_of-map k cs)
]

content-get_or :
    (o : Option Condition) (c : Condition)
    → content (get_or o c) ≡ get_or (Option.map content o) (content c)
content-get_or none c = refl
content-get_or (some w) c = refl

content-replaced :
    (W : List Condition) (c : Condition)
    → content (replaced W c) ≡ replaced (map content W) (content c)
unfolding replaced
content-replaced W c =
    content-get_or (of_kind c.kind W) c
    ∙ ap (λ o. get_or o (content c)) (sym (of_kind-map c.kind W))

map-content-replaced :
    (W cs : List Condition)
    → map content (map (replaced W) cs) ≡ map (replaced (map content W)) (map content cs)
map-content-replaced W [] = refl
map-content-replaced W (c ∷ cs) = cc (content-replaced W c, map-content-replaced W cs)

map-append_one :
    (cs : List Condition) (w : Condition)
    → map content (cs ++ w ∷ []) ≡ map content cs ++ content w ∷ []
map-append_one [] w = refl
map-append_one (c ∷ cs) w = ap (λ xs. content c ∷ xs) (map-append_one cs w)

content-append_missing :
    (out want : List Condition)
    → map content (append_missing out want) ≡ append_missing (map content out) (map content want)
unfolding append_missing
content-append_missing out [] = refl
content-append_missing out (w ∷ want) = elim (Bool-cases (any_of (λ c. c.kind == w.kind) out)) [
  | inl e ↦ rw (any_of-map w.kind out, e) (content-append_missing out want)
  | inr e ↦
      rw (any_of-map w.kind out, e)
        (content-append_missing (out ++ w ∷ []) want
          ∙ ap (λ xs. append_missing xs (map content want)) (map-append_one out w))
]

content-merge_conditions :
    (cur W : List Condition)
    → map content (merge_conditions cur W) ≡ merge_conditions (map content cur) (map content W)
unfolding merge_conditions
content-merge_conditions cur W =
    content-append_missing (map (replaced W) cur) W
    ∙ ap (λ xs. append_missing xs (map content W)) (map-content-replaced W cur)

-- Conditions that are merged a second time, with the same contents at any time, are equal to those
-- merged once by ConditionsEqual.
pub merge_conditions_later :
    (cur W later : List Condition)
    → map content W ≡ map content later
    → conditions_equal (merge_conditions cur W) (merge_conditions (merge_conditions cur W) later)
      ≡ true
merge_conditions_later cur W later e =
    (conditions_equal_iff (merge_conditions cur W)
        (merge_conditions (merge_conditions cur W) later)).1
      (content-merge_conditions cur W
        ∙ sym (merge_conditions_again (map content W) (map content cur))
        ∙ ap (λ xs. merge_conditions xs (map content W)) (sym (content-merge_conditions cur W))
        ∙ ap (merge_conditions (map content (merge_conditions cur W))) e
        ∙ sym (content-merge_conditions (merge_conditions cur W) later))
