-- ===== src/Prelude/Results.antt =====
-- Go's `(value, error)` results, and a total-correctness judgement on them.
use mathlib.Core.Path.{◌≡◌, refl}
use mathlib.Core.Logic.{◌↔◌, ◌⊎◌, inl, inr}
use rsync_gateway.Prelude.Tests.{if◌then◌else◌}
use mathlib.Core.Bool.{Bool, true, false}

pub data Result {ℓ κ} (E : Type κ) (A : Type ℓ) : Type (ℓ ⊔ κ) where
  err : E → Result E A
  ok : A → Result E A

module _ {ℓ κ μ} {E : Type κ} {A : Type ℓ} {B : Type μ} where
  infixl 5 ◌>>=◌ ◌>>◌
  abbrev pub ◌>>=◌ : Result E A → (A → Result E B) → Result E B
  err why >>= next = err why
  ok x >>= next = next x

  -- The first step's value is not used.
  abbrev pub ◌>>◌ : Result E A → Result E B → Result E B
  step >> next = step >>= λ _. next

-- `if bad { return err }`
abbrev pub fail_if {κ} : {E : Type κ} → Bool → E → Result E (Unit {0})
fail_if bad why = if bad then err why else ok tt

-- The call returns, and its result satisfies `P`.
abbrev pub Ensures {ℓ κ} : {E : Type κ} {A : Type ℓ} → (A → Type 0) → Result E A → Type 0
Ensures P (ok a) = P a
Ensures P (err e) = ⊥

module _ {ℓ κ} {E : Type κ} {A : Type ℓ} where
  pub Ensures-bind {μ} :
      {B : Type μ} (P : A → Type 0) (Q : B → Type 0) (m : Result E A) (f : A → Result E B)
      → Ensures P m
      → ((a : A) → P a → Ensures Q (f a))
      → Ensures Q (m >>= f)
  Ensures-bind P Q (ok a) f hm hf = hf a hm
  Ensures-bind P Q (err e) f hm hf = absurd hm

  pub Ensures-map :
      (P Q : A → Type 0) (m : Result E A) → ((a : A) → P a → Q a) → Ensures P m → Ensures Q m
  Ensures-map P Q (ok a) f h = f a h
  Ensures-map P Q (err e) f h = absurd h

  pub Ensures-both :
      (P Q : A → Type 0) (m : Result E A) → Ensures P m → Ensures Q m → Ensures (λ a. P a × Q a) m
  Ensures-both P Q (ok a) p q = (p, q)
  Ensures-both P Q (err e) p q = p

  -- The value of a call that satisfies `P`.
  pub Ensures-ok : (P : A → Type 0) (m : Result E A) → Ensures P m → (a : A) × (m ≡ ok a) × P a
  Ensures-ok P (ok a) h = (a, refl, h)
  Ensures-ok P (err e) h = absurd h

-- Inversion of a successful bind, and of a passed check.
pub bind-ok {ℓ κ μ} :
    {E : Type κ} {A : Type ℓ} {B : Type μ} (m : Result E A) (f : A → Result E B) {b : B}
    → (m >>= f) ≡ ok b
    → (a : A) × (m ≡ ok a) × (f a ≡ ok b)
bind-ok (ok a) f h = (a, refl, h)
bind-ok (err e) f h = cc

pub fail_if_iff {κ} :
    {E : Type κ} (b : Bool) (e : E) {u : Unit {0}} → (fail_if b e ≡ ok u) ↔ (b ≡ false)
fail_if_iff true e = ((λ h. cc), λ h. cc)
fail_if_iff false e = ((λ h. refl), λ h. refl)

pub Ok-cases {ℓ κ} :
    {E : Type κ} {A : Type ℓ} (r : Result E A) → ((a : A) × (r ≡ ok a)) ⊎ ((e : E) × (r ≡ err e))
Ok-cases (ok a) = inl (a, refl)
Ok-cases (err e) = inr (e, refl)
