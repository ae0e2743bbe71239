-- ===== src/Translate/Names.antt =====
-- UpstreamName of internal/translate/translate.go: the names that it makes.
use Prim.Native.Char.{code}
use text.Mathlib.TextLemmas.{length-nil, length-cons}
use Prim.Native.String.{count}
use rsync_gateway.Prelude.{ℕ, zero, suc, ◌≤◌, ◌≡◌, refl, true, String, Bool-cases, inl, inr, arith}
use rsync_gateway.Prelude.Text.{◌^^◌, decimal}
use rsync_gateway.Gateway.Objects.{NamespacedName}
use rsync_gateway.Translate.{lower, is_kept, sanitise, truncate, upstream_name}

-- Only lower-case letters, digits and dashes.
abbrev pub Clean : String → Type 0
Clean String.[] = Unit {0}
Clean (String.◌∷◌ c s) = (is_kept (code c) ≡ true) × Clean s

sanitise-Clean : (s : String) → Clean (sanitise s)
unfolding sanitise
sanitise-Clean String.[] = tt
sanitise-Clean (String.◌∷◌ c s) = (
  elim (Bool-cases (is_kept (code (lower c)))) [
    | inl e ↦ rw e e
    | inr e ↦ rw e (unfold is_kept in refl)
  ],
  sanitise-Clean s,
)

truncate-Clean : (n : ℕ) (s : String) → Clean s → Clean (truncate n s)
unfolding truncate
truncate-Clean zero s h = tt
truncate-Clean (suc n) String.[] h = tt
truncate-Clean (suc n) (String.◌∷◌ c s) h = (h.0, truncate-Clean n s h.1)

count-truncate : (n : ℕ) (s : String) → count (truncate n s) ≤ n
unfolding truncate
count-truncate zero s = omega (arith, length-nil)
count-truncate (suc n) String.[] = omega (arith, length-nil)
count-truncate (suc n) (String.◌∷◌ c s) =
    omega (arith, length-cons c (truncate n s), count-truncate n s)

-- UpstreamName gives at most 63 characters, each a lower-case ASCII letter, a digit or a dash,
-- whatever the route's name.
pub upstream_name_lem :
    (route : NamespacedName) (index : ℕ)
    → (count (upstream_name route index) ≤ 63) × Clean (upstream_name route index)
unfolding upstream_name
upstream_name_lem route index = (count-truncate 63 raw, truncate-Clean 63 raw (sanitise-Clean _))
  where
    raw : String
    raw = sanitise (route.namespace ^^ "-" ^^ route.name ^^ "-" ^^ decimal index)
