-- ===== src/Server/Balance/Range.antt =====
-- chooseTargetByClientIP of pkg/server/server.go: its result is an index into the targets that relay has
-- looked up.
use native.Mathlib.Nat.{mod-lt, mod-eq_of_lt}
use rsync_gateway.Prelude.{
  ℕ, ◌<◌, ◌%◌, ◌^◌, length-append, ◌≡◌, refl, sym, ◌∙◌, subst, List, [], ◌∷◌, ◌++◌, some, String,
  Bool-cases, Option-cases, inl, inr, arith, leb, length, get_or,
}
use rsync_gateway.Prelude.Keys.{◌==◌, String_eq, Map, lookup, insert, lookup-insert}
use rsync_gateway.Server.{
  Target, UpstreamConfig, add_targets, module_targets_from, build_module_targets,
}
use rsync_gateway.Server.Balance.{
  v4_in_v6_prefix, strip, to4, normalized, fnv32a, choose_target_by_client_ip,
}

choose-lt : (ip : List ℕ) (n : ℕ) → 0 < n → n < 2 ^ 32 → choose_target_by_client_ip ip n < n
unfolding choose_target_by_client_ip
choose-lt ip n lo hi = elim (Bool-cases (leb n 1)) [
  | inl e ↦ rw e lo
  | inr e ↦ elim (Option-cases (normalized ip)) [
    | inl f ↦ rw (e, f) lo
    | inr (bs, f) ↦
        rw (e, f) (subst (λ x. fnv32a bs % x < n) (sym (mod-eq_of_lt hi)) (mod-lt (fnv32a bs) lo))
  ]
]

-- No module of the table is without a target.
abbrev Served : Map String (List Target) → Type 0
Served modules = (m : String) (ts : List Target) → lookup m modules ≡ some ts → 0 < length ts

add_targets-Served :
    (t : Target) (ms : List String) (modules : Map String (List Target))
    → Served modules
    → Served (add_targets t ms modules)
unfolding add_targets
add_targets-Served t [] modules s = s
add_targets-Served t (n ∷ ms) modules s = add_targets-Served t ms (insert n longer modules) more
  where
    longer : List Target
    longer = get_or (lookup n modules) [] ++ t ∷ []

    more : Served (insert n longer modules)
    more m ts e = elim (Bool-cases (n == m)) [
      | inl f ↦
          let same : longer ≡ ts = cc (rw f at (sym (lookup-insert n m longer modules) ∙ e)) in
          subst (λ xs. 0 < length xs) same
            (omega (arith, length-append (get_or (lookup n modules) []) (t ∷ [])))
      | inr f ↦ s m ts (rw f at (sym (lookup-insert n m longer modules) ∙ e))
    ]

module_targets_from-Served :
    (us : List UpstreamConfig) (modules : Map String (List Target))
    → Served modules
    → Served (module_targets_from us modules)
unfolding module_targets_from
module_targets_from-Served [] modules s = s
module_targets_from-Served (u ∷ us) modules s =
    module_targets_from-Served us (add_targets u.target u.modules modules)
      (add_targets-Served u.target u.modules modules s)

-- For a module that is found in the table of buildModuleTargets, with fewer than 2^32 targets,
-- chooseTargetByClientIP gives an index into its targets, whatever the client's address.
pub choose_target_by_client_ip-lt :
    (ip : List ℕ) (us : List UpstreamConfig) (m : String) (ts : List Target)
    → lookup m (build_module_targets us) ≡ some ts
    → length ts < 2 ^ 32
    → choose_target_by_client_ip ip (length ts) < length ts
unfolding build_module_targets lookup
choose_target_by_client_ip-lt ip us m ts e hi =
    choose-lt ip (length ts) (module_targets_from-Served us [] (λ m ts e. cc e) m ts e) hi

-- An IPv4 address is sent to the same target in its 4-byte and in its 16-byte form.
pub choose_target_by_client_ip-mapped :
    (a b c d n : ℕ)
    → choose_target_by_client_ip (v4_in_v6_prefix ++ a ∷ b ∷ c ∷ d ∷ []) n
      ≡ choose_target_by_client_ip (a ∷ b ∷ c ∷ d ∷ []) n
unfolding choose_target_by_client_ip normalized to4 strip
choose_target_by_client_ip-mapped a b c d n = refl
