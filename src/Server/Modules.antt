-- ===== src/Server/Modules.antt =====
-- buildModuleTargets of pkg/server/server.go against the list of a module's targets.
use rsync_gateway.Prelude.{
  ◌≡◌, sym, ap, ◌∙◌, List, [], ◌∷◌, ◌++◌, append-nil, append_assoc, String, get_or, Bool-cases, inl,
  inr, if◌then◌else◌,
}
use rsync_gateway.Prelude.Keys.{◌==◌, String_eq, Map, lookup, insert, lookup-insert}
use rsync_gateway.Server.{
  Target, UpstreamConfig, add_targets, module_targets_from, build_module_targets,
}

-- The target once for each time that a list names the module.
abbrev pub copies : String → Target → List String → List Target
copies m t [] = []
copies m t (n ∷ ms) = let rest = copies m t ms in if n == m then t ∷ rest else rest

-- The targets of a module, in the order of the upstreams.
abbrev pub targets_of : String → List UpstreamConfig → List Target
targets_of m [] = []
targets_of m (u ∷ us) = copies m u.target u.modules ++ targets_of m us

abbrev at : String → Map String (List Target) → List Target
at m modules = get_or (lookup m modules) []

at-insert :
    (n m : String) (ts : List Target) (modules : Map String (List Target))
    → at m (insert n ts modules) ≡ (if n == m then ts else at m modules)
at-insert n m ts modules =
    ap (λ o. get_or o []) (lookup-insert n m ts modules)
    ∙ (elim (Bool-cases (n == m)) [ inl e ↦ rw e | inr e ↦ rw e ])

at-add_targets :
    (m : String) (t : Target) (ms : List String) (modules : Map String (List Target))
    → at m (add_targets t ms modules) ≡ at m modules ++ copies m t ms
unfolding add_targets
at-add_targets m t [] modules = sym (append-nil (at m modules))
at-add_targets m t (n ∷ ms) modules =
    at-add_targets m t ms (insert n (at n modules ++ t ∷ []) modules)
    ∙ ap (λ ts. ts ++ copies m t ms) (at-insert n m (at n modules ++ t ∷ []) modules)
    ∙ (elim (Bool-cases (n == m)) [
      | inl e ↦ rw e (
          append_assoc (at n modules) (t ∷ []) (copies m t ms)
          ∙ ap (λ (x : String). at x modules ++ t ∷ copies m t ms) ((String_eq.eqb_iff n m).0 e))
      | inr e ↦ rw e
    ])

at-module_targets_from :
    (m : String) (us : List UpstreamConfig) (modules : Map String (List Target))
    → at m (module_targets_from us modules) ≡ at m modules ++ targets_of m us
unfolding module_targets_from
at-module_targets_from m [] modules = sym (append-nil (at m modules))
at-module_targets_from m (u ∷ us) modules =
    at-module_targets_from m us (add_targets u.target u.modules modules)
    ∙ ap (λ ts. ts ++ targets_of m us) (at-add_targets m u.target u.modules modules)
    ∙ append_assoc (at m modules) (copies m u.target u.modules) (targets_of m us)

-- The table of buildModuleTargets gives each module the targets of the upstreams that name it, in the
-- order of the upstreams, and no target to any other.
pub build_module_targets_lem :
    (m : String) (us : List UpstreamConfig)
    → get_or (lookup m (build_module_targets us)) [] ≡ targets_of m us
unfolding build_module_targets lookup
build_module_targets_lem m us = at-module_targets_from m us []
