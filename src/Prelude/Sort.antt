-- ===== src/Prelude/Sort.antt =====
-- sort.Slice as an insertion sort, at keys that differ.
use mathlib.Core.Bool.{Bool}
use mathlib.Core.List.{List, [], ◌∷◌}
use mathlib.Core.Logic.{inl, inr}
use rsync_gateway.Prelude.Tests.{if◌then◌else◌, Bool-cases}
use rsync_gateway.Prelude.Lists.{All}

module _ {ℓ} {A : Type ℓ} (before : A → A → Bool) where
  unfoldable pub insert_by : A → List A → List A
  insert_by x [] = x ∷ []
  insert_by x (y ∷ ys) = let later = insert_by x ys in if before y x then y ∷ later else x ∷ y ∷ ys

  unfoldable pub sort_by : List A → List A
  unfolding insert_by
  sort_by [] = []
  sort_by (x ∷ xs) = insert_by x (sort_by xs)

  insert_by-All {κ} :
      (P : A → Type κ) (x : A) (xs : List A) → P x → All P xs → All P (insert_by x xs)
  unfolding insert_by
  insert_by-All P x [] p ps = (p, tt)
  insert_by-All P x (y ∷ ys) p ps = elim (Bool-cases (before y x)) [
    | inl e ↦ rw e (ps.0, insert_by-All P x ys p ps.1)
    | inr e ↦ rw e (p, ps)
  ]

  -- What holds of all that is sorted holds of all that comes out.
  pub sort_by-All {κ} : (P : A → Type κ) (xs : List A) → All P xs → All P (sort_by xs)
  unfolding sort_by
  sort_by-All P [] ps = ps
  sort_by-All P (x ∷ xs) ps = insert_by-All P x (sort_by xs) ps.0 (sort_by-All P xs ps.1)
