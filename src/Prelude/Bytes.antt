-- ===== src/Prelude/Bytes.antt =====
-- Texts read as the bytes that a connection carries, one character for each byte.
use Prim.Native.Nat.{ℕ, zero, suc, ◌≤◌}
use Prim.Native.Char.{Char, code}
use Prim.Native.String.{String, count}
use text.Mathlib.TextLemmas.{length-nil, length-cons, nil-append, cons-append}
use mathlib.Core.Path.{◌≡◌, refl, ap, ◌∙◌}
use mathlib.Core.Bool.{Bool, true, false}
use mathlib.Core.Option.{Option, none, some}
use native.Mathlib.Omega.{arith}
use rsync_gateway.Prelude.Tests.{nat_eq, if◌then◌else◌}
use rsync_gateway.Prelude.Text.{◌^^◌}

-- s[:n]
unfoldable pub take : ℕ → String → String
take zero s = ""
take (suc n) String.[] = ""
take (suc n) (String.◌∷◌ c s) = String.◌∷◌ c (take n s)

-- s[n:]
unfoldable pub drop : ℕ → String → String
drop zero s = s
drop (suc n) String.[] = ""
drop (suc n) (String.◌∷◌ c s) = drop n s

abbrev pub is_line_feed : Char → Bool
is_line_feed c = nat_eq (code c) 10

-- The last byte is a line feed.
unfoldable pub ends_line : String → Bool
ends_line String.[] = false
ends_line (String.◌∷◌ c String.[]) = is_line_feed c
ends_line (String.◌∷◌ c (String.◌∷◌ d s)) = ends_line (String.◌∷◌ d s)

-- What follows the first line feed.
unfoldable pub behind_line : String → Option String
behind_line String.[] = none
behind_line (String.◌∷◌ c s) = let rest = behind_line s in if is_line_feed c then some s else rest

-- strings.HasPrefix
unfoldable pub has_prefix : String → String → Bool
has_prefix s String.[] = true
has_prefix String.[] (String.◌∷◌ d p) = false
has_prefix (String.◌∷◌ c s) (String.◌∷◌ d p) =
    let rest = has_prefix s p in if nat_eq (code c) (code d) then rest else false

pub count-take : (n : ℕ) (s : String) → count (take n s) ≤ n
unfolding take
count-take zero s = omega (arith, length-nil)
count-take (suc n) String.[] = omega (arith, length-nil)
count-take (suc n) (String.◌∷◌ c s) = omega (arith, length-cons c (take n s), count-take n s)

pub take_all : (n : ℕ) (s : String) → count s ≤ n → take n s ≡ s
unfolding take
take_all zero String.[] h = refl
take_all zero (String.◌∷◌ c s) h = absurd (omega (arith, length-cons c s))
take_all (suc n) String.[] h = refl
take_all (suc n) (String.◌∷◌ c s) h =
    ap (λ t. String.◌∷◌ c t) (take_all n s (omega (arith, length-cons c s)))

pub count-take_full : (n : ℕ) (s : String) → n ≤ count s → count (take n s) ≡ n
unfolding take
count-take_full zero s h = length-nil
count-take_full (suc n) String.[] h = absurd (omega (arith, length-nil))
count-take_full (suc n) (String.◌∷◌ c s) h = omega (
  arith,
  length-cons c (take n s),
  length-cons c s,
  count-take_full n s (omega (arith, length-cons c s)),
)

pub take-append-drop : (n : ℕ) (s : String) → take n s ^^ drop n s ≡ s
unfolding take drop
take-append-drop zero s = nil-append s
take-append-drop (suc n) String.[] = nil-append ""
take-append-drop (suc n) (String.◌∷◌ c s) =
    cons-append c (take n s) (drop n s) ∙ ap (λ t. String.◌∷◌ c t) (take-append-drop n s)
