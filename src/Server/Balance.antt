-- ===== src/Server/Balance.antt =====
-- chooseTargetByClientIP of pkg/server/server.go, with what it uses of net and hash/fnv. An address is
-- its bytes.
pub mod Range
use Prim.Native.Nat.{bit_xor}
use rsync_gateway.Prelude.{
  ℕ, zero, suc, ◌*◌, ◌%◌, ◌^◌, Bool, true, false, ◌&&◌, List, [], ◌∷◌, ◌++◌, Option, none, some,
  if◌then◌else◌, leb, nat_eq,
}

-- The 12 bytes before an IPv4 address in its 16-byte form.
abbrev pub v4_in_v6_prefix : List ℕ
v4_in_v6_prefix = 0 ∷ 0 ∷ 0 ∷ 0 ∷ 0 ∷ 0 ∷ 0 ∷ 0 ∷ 0 ∷ 0 ∷ 255 ∷ 255 ∷ []

-- The rest of an address behind a prefix.
pub strip : List ℕ → List ℕ → Option (List ℕ)
strip [] bs = some bs
strip (p ∷ ps) [] = none
strip (p ∷ ps) (b ∷ bs) = let rest = strip ps bs in if nat_eq p b then rest else none

abbrev pub if_four : List ℕ → Option (List ℕ)
if_four (a ∷ b ∷ c ∷ d ∷ []) = some (a ∷ b ∷ c ∷ d ∷ [])
if_four _ = none

-- IP.To4
unfoldable pub to4 : List ℕ → Option (List ℕ)
to4 (a ∷ b ∷ c ∷ d ∷ []) = some (a ∷ b ∷ c ∷ d ∷ [])
to4 bs = elim (strip v4_in_v6_prefix bs) [ none ↦ none | some rest ↦ if_four rest ]

has_length : ℕ → List ℕ → Bool
has_length zero [] = true
has_length (suc n) (_ ∷ bs) = has_length n bs
has_length _ _ = false

-- IP.To16
pub to16 : List ℕ → Option (List ℕ)
unfolding has_length
to16 bs =
    if has_length 4 bs
    then some (v4_in_v6_prefix ++ bs)
    else if has_length 16 bs
    then some bs
    else none

-- The bytes that are hashed.
pub normalized : List ℕ → Option (List ℕ)
normalized ip = elim (to4 ip) [ some bs ↦ some bs | none ↦ to16 ip ]

-- Write and Sum32 of hash/fnv's New32a.
pub fnv32a_from : ℕ → List ℕ → ℕ
fnv32a_from h [] = h
fnv32a_from h (b ∷ bs) = fnv32a_from (bit_xor h b * 16777619 % 2 ^ 32) bs

unfoldable pub fnv32a : List ℕ → ℕ
unfolding fnv32a_from
fnv32a bs = fnv32a_from 2166136261 bs

-- chooseTargetByClientIP
unfoldable pub choose_target_by_client_ip : List ℕ → ℕ → ℕ
unfolding normalized fnv32a
choose_target_by_client_ip ip target_count =
    if leb target_count 1
    then 0
    else elim (normalized ip) [ none ↦ 0 | some bs ↦ fnv32a bs % (target_count % 2 ^ 32) ]
