-- ===== src/Prelude/Keys.antt =====
-- Decidable equality as an interface, and Go maps as association lists over it.
use Prim.Native.String.{String}
use Prim.Native.Nat.{ℕ}
use text.Mathlib.Text.{◌==◌ as str_eq}
use text.Mathlib.TextEquality.{eq_iff}
use mathlib.Core.Path.{◌≡◌, refl}
use mathlib.Core.Logic.{◌↔◌}
use mathlib.Core.Bool.{Bool, true, false, not, ◌||◌}
use mathlib.Core.Option.{Option, none, some}
use mathlib.Core.List.{List, [], ◌∷◌}
use native.Mathlib.Omega.{arith}
use rsync_gateway.Prelude.Tests.{nat_eq, nat_eq_iff, if◌then◌else◌}

-- Equality that the code can test; a map's keys have it.
pub record Key {ℓ} (K : Type ℓ) : Type ℓ where
  pub eqb : K → K → Bool
  pub eqb_iff : (j k : K) → (eqb j k ≡ true) ↔ (j ≡ k)

-- A Go map: each key stands once, and a range over the map visits the entries in list order.
abbrev pub Map {ℓ κ} : Type ℓ → Type κ → Type (ℓ ⊔ κ)
Map K V = List (K × V)

module _ {ℓ} {K : Type ℓ} ⦃key : Key K⦄ where
  infix 50 ◌==◌
  abbrev pub ◌==◌ : K → K → Bool
  j == k = key.eqb j k

  pub ==_refl : (k : K) → (k == k) ≡ true
  ==_refl k = (key.eqb_iff k k).1 refl

  -- m[k]
  unfoldable pub lookup {κ} : {V : Type κ} → K → Map K V → Option V
  lookup k [] = none
  lookup k ((i, w) ∷ rest) = let later = lookup k rest in if i == k then some w else later

  -- m[k] = v
  unfoldable pub insert {κ} : {V : Type κ} → K → V → Map K V → Map K V
  insert k v [] = (k, v) ∷ []
  insert k v ((i, w) ∷ rest) =
      let later = insert k v rest in if i == k then (k, v) ∷ rest else (i, w) ∷ later

  pub lookup-insert {κ} :
      {V : Type κ} (put get : K) (v : V) (m : Map K V)
      → lookup get (insert put v m) ≡ (if put == get then some v else lookup get m)
  unfolding lookup insert
  lookup-insert put get v [] = refl
  lookup-insert put get v ((i, w) ∷ rest) = ground (
    lookup-insert put get v rest,
    key.eqb_iff i get,
    key.eqb_iff put get,
    key.eqb_iff i put,
    arith,
  )

instance abbrev pub String_eq : Key String
String_eq = record { eqb = str_eq; eqb_iff = eq_iff }

instance abbrev pub ℕ_eq : Key ℕ
ℕ_eq = record { eqb = nat_eq; eqb_iff = nat_eq_iff }

-- The test that refuses a group and kind other than `g` and `k`.
pub other_kind_iff :
    (a g b k : String) → ((not (a == g) || not (b == k)) ≡ false) ↔ ((a ≡ g) × (b ≡ k))
other_kind_iff a g b k = ground (arith, eq_iff a g, eq_iff b k)
