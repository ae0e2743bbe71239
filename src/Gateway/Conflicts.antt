-- ===== src/Gateway/Conflicts.antt =====
-- internal/gateway/bind.go: BindRoutes, and resolveModuleConflicts, by which the older of two routes
-- on one Gateway wins a module name.
pub mod Reject
pub mod Settle
pub mod Disjoint
pub mod Winners
pub mod Sorted
pub mod Bound
pub mod Older
pub mod Configured
mod Tests
use rsync_gateway.Prelude.{
  ℕ, ◌≡◌, Bool, true, false, not, ◌&&◌, List, [], ◌∷◌, ◌++◌, map, Option, none, some, String,
  if◌then◌else◌, nat_eq, ltb, any_of, get_or,
}
use rsync_gateway.Prelude.Keys.{◌==◌, String_eq, Map, lookup, insert}
use rsync_gateway.Prelude.Text.{◌^^◌, quote, str_lt}
use rsync_gateway.Gateway.Objects.{
  NamespacedName, NamespacedName_eq, key_text, RsyncRoute, Snapshot, ParentReference,
}
use rsync_gateway.Gateway.Claim.{ClassClaim}
use rsync_gateway.Gateway.Bind.{ParentResult, Selects, bind_parent}

-- The results of all routes.
abbrev pub Results : Type 0
Results = Map NamespacedName (List ParentResult)

abbrev pub named_or : String → List String → List String
named_or name [] = name ∷ []
named_or name (m ∷ ms) = m ∷ ms

-- EffectiveModules
pub effective_modules : RsyncRoute → List String
effective_modules route = named_or route.key.name route.module_names

-- The value of a map of slices at a key, nil where it is missing.
abbrev pub slice_at {ℓ} : {V : Type ℓ} → NamespacedName → Map NamespacedName (List V) → List V
slice_at k m = get_or (lookup k m) []

-- `bound` after one round of the inner loop, and `seen`.
pub bind_once :
    NamespacedName
    → List ParentResult
    → List NamespacedName
    → Map NamespacedName (List NamespacedName)
    → Map NamespacedName (List NamespacedName)
bind_once route [] seen bound = bound
bind_once route (r ∷ rs) seen bound =
    let skipped = bind_once route rs seen bound in
    let taken =
      bind_once route rs (r.gateway ∷ seen)
        (insert r.gateway (slice_at r.gateway bound ++ route ∷ []) bound) in
    if not r.accepted then skipped else if any_of (λ g. g == r.gateway) seen then skipped else taken

-- The first loop: the routes bound to each Gateway.
pub bound_routes :
    Results → Map NamespacedName (List NamespacedName) → Map NamespacedName (List NamespacedName)
bound_routes [] bound = bound
bound_routes ((route, rs) ∷ results) bound = bound_routes results (bind_once route rs [] bound)

-- A route of the results is one of the snapshot, so the missing route is never looked at.
pub modules_of : Snapshot → NamespacedName → List String
modules_of snap k = elim (lookup k snap.rsync_routes) [ none ↦ [] | some r ↦ effective_modules r ]

abbrev pub created : Snapshot → NamespacedName → ℕ
created snap k = elim (lookup k snap.rsync_routes) [ none ↦ 0 | some r ↦ r.creation_timestamp ]

-- The closure given to sort.Slice.
pub before : Snapshot → NamespacedName → NamespacedName → Bool
before snap a b =
    if not (nat_eq (created snap a) (created snap b))
    then ltb (created snap a) (created snap b)
    else str_lt (key_text a) (key_text b)

-- sort.Slice by `before`.
pub place : Snapshot → NamespacedName → List NamespacedName → List NamespacedName
place snap x [] = x ∷ []
place snap x (y ∷ ys) =
    let rest = place snap x ys in if before snap y x then y ∷ rest else x ∷ y ∷ ys

pub sort_routes : Snapshot → List NamespacedName → List NamespacedName
sort_routes snap [] = []
sort_routes snap (x ∷ xs) = place snap x (sort_routes snap xs)

-- The first of a route's modules that another route owns, and its owner.
pub first_claimed : Map String NamespacedName → List String → Option (NamespacedName × String)
first_claimed owner [] = none
first_claimed owner (m ∷ ms) = elim (lookup m owner) [
  | none ↦ first_claimed owner ms
  | some prev ↦ some (prev, m)
]

pub own_modules :
    NamespacedName → List String → Map String NamespacedName → Map String NamespacedName
own_modules route [] owner = owner
own_modules route (m ∷ ms) owner = own_modules route ms (insert m route owner)

conflict_message : NamespacedName → NamespacedName → String → String
conflict_message gateway winner module_name =
    "module "
    ^^ quote module_name
    ^^ " is already claimed by route "
    ^^ quote (key_text winner)
    ^^ " on Gateway "
    ^^ key_text gateway
    ^^ "; older routes win"

-- One accepted result on the Gateway turns into ModuleConflicted.
pub conflicted : NamespacedName → NamespacedName → String → ParentResult → ParentResult
unfolding conflict_message
conflicted gateway winner module_name r =
    if r.accepted && r.gateway == gateway
    then record r {
      accepted = false;
      reason = "ModuleConflicted";
      message = conflict_message gateway winner module_name;
    }
    else r

-- The loop over `results[routeKey]`.
pub reject_found :
    NamespacedName
    → NamespacedName
    → NamespacedName
    → String
    → Option (List ParentResult)
    → Results
    → Results
reject_found gateway route winner module_name none results = results
reject_found gateway route winner module_name (some rs) results =
    insert route (map (conflicted gateway winner module_name) rs) results

pub reject_route : NamespacedName → NamespacedName → NamespacedName → String → Results → Results
reject_route gateway route winner module_name results =
    reject_found gateway route winner module_name (lookup route results) results

-- The loop over the sorted routes of one Gateway.
pub settle :
    Snapshot → NamespacedName → List NamespacedName → Map String NamespacedName → Results → Results
settle snap gateway [] owner results = results
settle snap gateway (k ∷ ks) owner results = elim (first_claimed owner (modules_of snap k)) [
  | some (winner, m) ↦ settle snap gateway ks owner (reject_route gateway k winner m results)
  | none ↦ settle snap gateway ks (own_modules k (modules_of snap k) owner) results
]

pub settle_all : Snapshot → Map NamespacedName (List NamespacedName) → Results → Results
settle_all snap [] results = results
settle_all snap ((gateway, routes) ∷ bound) results =
    settle_all snap bound (settle snap gateway (sort_routes snap routes) [] results)

pub resolve_module_conflicts : Snapshot → Results → Results
resolve_module_conflicts snap results = settle_all snap (bound_routes results []) results

module _ (selects : Selects) (snap : Snapshot) (claims : Map String ClassClaim) where
  pub bind_refs : NamespacedName → RsyncRoute → List ParentReference → List ParentResult
  bind_refs key route [] = []
  bind_refs key route (ref ∷ refs) =
      bind_parent selects snap claims key route ref ∷ bind_refs key route refs

  pub bind_each : Map NamespacedName RsyncRoute → Results
  bind_each [] = []
  bind_each ((key, route) ∷ routes) =
      (key, bind_refs key route route.parent_refs) ∷ bind_each routes

  -- BindRoutes
  pub bind_routes : Results
  bind_routes = resolve_module_conflicts snap (bind_each snap.rsync_routes)
