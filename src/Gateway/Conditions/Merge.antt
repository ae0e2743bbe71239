-- ===== src/Gateway/Conditions/Merge.antt =====
-- MergeConditions of internal/gateway/conditions.go as an update of a map by condition type.
use rsync_gateway.Prelude.{
  ◌≡◌, refl, sym, ap, ◌∙◌, true, false, List, [], ◌∷◌, ◌++◌, map, Option, none, some, String,
  find_first, any_of, is_some, get_or, Bool-cases, Option-cases, inl, inr,
}
use rsync_gateway.Prelude.Keys.{◌==◌, String_eq}
use rsync_gateway.Gateway.Objects.{Condition}
use rsync_gateway.Gateway.Conditions.{replaced, append_missing, merge_conditions}

-- The first condition of a type.
abbrev pub of_kind : String → List Condition → Option Condition
of_kind k cs = find_first (λ c. c.kind == k) cs

abbrev pub or_else : Option Condition → Option Condition → Option Condition
or_else none o = o
or_else (some c) o = some c

pub of_kind-append :
    (k : String) (xs ys : List Condition)
    → of_kind k (xs ++ ys) ≡ or_else (of_kind k xs) (of_kind k ys)
of_kind-append k [] ys = refl
of_kind-append k (x ∷ xs) ys = elim (Bool-cases (x.kind == k)) [
  | inl e ↦ rw e
  | inr e ↦ rw e (of_kind-append k xs ys)
]

pub of_kind-hit :
    (k : String) (cs : List Condition) (c : Condition) → of_kind k cs ≡ some c → c.kind ≡ k
of_kind-hit k [] c e = cc e
of_kind-hit k (x ∷ xs) c e = elim (Bool-cases (x.kind == k)) [
  | inl f ↦ cc ((String_eq.eqb_iff x.kind k).0 f, rw f at e)
  | inr f ↦ of_kind-hit k xs c (rw f at e)
]

pub any_of-of_kind :
    (k : String) (cs : List Condition) → any_of (λ c. c.kind == k) cs ≡ is_some (of_kind k cs)
any_of-of_kind k [] = refl
any_of-of_kind k (x ∷ xs) = elim (Bool-cases (x.kind == k)) [
  | inl f ↦ rw f
  | inr f ↦ rw f (any_of-of_kind k xs)
]

or_else_assoc : (a b c : Option Condition) → or_else (or_else a b) c ≡ or_else a (or_else b c)
or_else_assoc none b c = refl
or_else_assoc (some a) b c = refl

or_else_some : (a b c : Option Condition) → is_some a ≡ true → or_else a b ≡ or_else a c
or_else_some none b c e = cc e
or_else_some (some a) b c e = refl

of_kind-append_missing :
    (k : String) (out want : List Condition)
    → of_kind k (append_missing out want) ≡ or_else (of_kind k out) (of_kind k want)
unfolding append_missing
of_kind-append_missing k out [] = or_else_none (of_kind k out)
  where
    or_else_none : (a : Option Condition) → a ≡ or_else a none
    or_else_none none = refl
    or_else_none (some a) = refl
of_kind-append_missing k out (w ∷ want) = elim (Bool-cases (any_of (λ c. c.kind == w.kind) out)) [
  | inl e ↦ rw e (
      of_kind-append_missing k out want ∙ (elim (Bool-cases (w.kind == k)) [
        | inr f ↦ rw f
        | inl f ↦ or_else_some (of_kind k out) _ _ (
            ap (λ (x : String). is_some (of_kind x out)) (sym ((String_eq.eqb_iff w.kind k).0 f))
            ∙ sym (any_of-of_kind w.kind out)
            ∙ e)
      ]))
  | inr e ↦ rw e (
      of_kind-append_missing k (out ++ w ∷ []) want
      ∙ ap (λ o. or_else o (of_kind k want)) (of_kind-append k out (w ∷ []))
      ∙ or_else_assoc (of_kind k out) (of_kind k (w ∷ [])) (of_kind k want)
      ∙ ap (or_else (of_kind k out)) (sym (of_kind-append k (w ∷ []) want)))
]

pub replaced_kind : (want : List Condition) (c : Condition) → (replaced want c).kind ≡ c.kind
unfolding replaced
replaced_kind want c = elim (Option-cases (of_kind c.kind want)) [
  | inl e ↦ rw e
  | inr (w, e) ↦ rw e (of_kind-hit c.kind want w e)
]

pub of_kind-here :
    (k : String) (x : Condition) (xs : List Condition)
    → (x.kind == k) ≡ true
    → of_kind k (x ∷ xs) ≡ some x
of_kind-here k x xs e = simp e

pub of_kind-there :
    (k : String) (x : Condition) (xs : List Condition)
    → (x.kind == k) ≡ false
    → of_kind k (x ∷ xs) ≡ of_kind k xs
of_kind-there k x xs e = simp e

of_kind-replaced :
    (k : String) (want cur : List Condition)
    → of_kind k (map (replaced want) cur)
      ≡ elim (of_kind k cur) [ none ↦ none | some c ↦ some (get_or (of_kind k want) c) ]
unfolding replaced
of_kind-replaced k want [] = refl
of_kind-replaced k want (c ∷ cur) = elim (Bool-cases (c.kind == k)) [
  | inl e ↦
      let same : c.kind ≡ k = (String_eq.eqb_iff c.kind k).0 e in
      of_kind-here k (replaced want c) (map (replaced want) cur)
        (ap (λ x. x == k) (replaced_kind want c) ∙ e)
      ∙ ap (λ (x : String). some (get_or (of_kind x want) c)) same
      ∙ (simp e)
  | inr e ↦
      of_kind-there k (replaced want c) (map (replaced want) cur)
        (ap (λ x. x == k) (replaced_kind want c) ∙ e)
      ∙ of_kind-replaced k want cur
      ∙ (simp e)
]

-- After MergeConditions the first condition of a type is the wanted one, and where none is wanted the
-- one that was there.
pub of_kind-merge_conditions :
    (k : String) (cur want : List Condition)
    → of_kind k (merge_conditions cur want) ≡ or_else (of_kind k want) (of_kind k cur)
unfolding merge_conditions
of_kind-merge_conditions k cur want =
    of_kind-append_missing k (map (replaced want) cur) want
    ∙ ap (λ o. or_else o (of_kind k want)) (of_kind-replaced k want cur)
    ∙ both (of_kind k cur) (of_kind k want)
  where
    both :
        (c w : Option Condition)
        → or_else (elim c [ none ↦ none | some x ↦ some (get_or w x) ]) w ≡ or_else w c
    both none none = refl
    both none (some w) = refl
    both (some c) none = refl
    both (some c) (some w) = refl
