-- ===== src/Gateway/Conditions.antt =====
-- internal/gateway/conditions.go: status conditions and their comparison. `now` is what metav1.Now
-- returns where a condition is stamped.
pub mod Content
pub mod Equal
pub mod Merge
pub mod Again
pub mod Times
pub mod Lone
use rsync_gateway.Prelude.{
  ℕ, suc, ◌≡◌, Bool, true, false, not, ◌&&◌, List, [], ◌∷◌, ◌++◌, map, Option, none, some, String,
  if◌then◌else◌, nat_eq, find_first, any_of, get_or, length,
}
use rsync_gateway.Prelude.Keys.{◌==◌, String_eq, ℕ_eq, Map, insert}
use rsync_gateway.Prelude.Text.{◌^^◌}
use rsync_gateway.Api.{controller_name}
use rsync_gateway.Gateway.Objects.{
  Condition, ListenerStatus, RouteGroupKind, RouteParentStatus, ParentReference,
}
use rsync_gateway.Gateway.Claim.{is_set}
use rsync_gateway.Gateway.Bind.{ParentResult}

-- The last transition time of an existing condition, or the present.
stamp : ℕ → Option Condition → Condition → Condition
stamp now none cond = record cond { last_transition_time = now }
stamp now (some c) cond = record cond { last_transition_time = c.last_transition_time }

-- StableCondition
pub stable_condition : ℕ → List Condition → Condition → Condition
unfolding stamp
stable_condition now existing cond =
    stamp now (find_first (λ c. c.kind == cond.kind && c.status == cond.status) existing) cond

-- The body of MergeConditions's first loop.
pub replaced : List Condition → Condition → Condition
replaced want c = get_or (find_first (λ w. w.kind == c.kind) want) c

-- MergeConditions's second loop.
pub append_missing : List Condition → List Condition → List Condition
append_missing out [] = out
append_missing out (w ∷ want) =
    let found = append_missing out want in
    let missing = append_missing (out ++ w ∷ []) want in
    if any_of (λ c. c.kind == w.kind) out then found else missing

-- MergeConditions
pub merge_conditions : List Condition → List Condition → List Condition
merge_conditions cur want = append_missing (map (replaced want) cur) want

-- conditionContentEqual
pub condition_content_equal : Condition → Condition → Bool
condition_content_equal a b =
    a.kind == b.kind
    && a.status == b.status
    && a.reason == b.reason
    && a.message == b.message
    && nat_eq a.observed_generation b.observed_generation

-- The length test and the loop that each of the comparisons below has.
pub all_equal {ℓ} : {A : Type ℓ} → (A → A → Bool) → List A → List A → Bool
all_equal same [] [] = true
all_equal same [] (_ ∷ _) = false
all_equal same (_ ∷ _) [] = false
all_equal same (a ∷ cur) (b ∷ want) = same a b && all_equal same cur want

-- ConditionsEqual
pub conditions_equal : List Condition → List Condition → Bool
conditions_equal = all_equal condition_content_equal

pub group_kind_equal : RouteGroupKind → RouteGroupKind → Bool
group_kind_equal a b = get_or a.group "" == get_or b.group "" && a.kind == b.kind

-- routeGroupKindsEqual
pub route_group_kinds_equal : List RouteGroupKind → List RouteGroupKind → Bool
route_group_kinds_equal = all_equal group_kind_equal

pub listener_status_equal : ListenerStatus → ListenerStatus → Bool
listener_status_equal a b =
    a.name == b.name
    && nat_eq a.attached_routes b.attached_routes
    && route_group_kinds_equal a.supported_kinds b.supported_kinds
    && conditions_equal a.conditions b.conditions

-- ListenerStatusesEqual
pub listener_statuses_equal : List ListenerStatus → List ListenerStatus → Bool
listener_statuses_equal = all_equal listener_status_equal

-- fmtParentRef
pub fmt_parent_ref : String → String → ParentReference → String
fmt_parent_ref group kind ref =
    if is_set ref.namespace
    then kind ^^ "." ^^ group ^^ "/" ^^ get_or ref.namespace "" ^^ "/" ^^ ref.name
    else kind ^^ "." ^^ group ^^ "/" ^^ ref.name

-- ParentRefString
pub parent_ref_string : ParentReference → String
parent_ref_string ref =
    fmt_parent_ref (get_or ref.group "gateway.networking.k8s.io") (get_or ref.kind "Gateway") ref

-- parentRefsEqual
pub parent_refs_equal : ParentReference → ParentReference → Bool
parent_refs_equal a b = parent_ref_string a == parent_ref_string b

pub parent_status_equal : RouteParentStatus → RouteParentStatus → Bool
parent_status_equal a b =
    a.controller_name == b.controller_name
    && parent_refs_equal a.parent_ref b.parent_ref
    && conditions_equal a.conditions b.conditions

-- ParentStatusesEqual
pub parent_statuses_equal : List RouteParentStatus → List RouteParentStatus → Bool
parent_statuses_equal = all_equal parent_status_equal

-- Our own entry for a parentRef, the first there is.
pub own_entry : ParentReference → List RouteParentStatus → Option RouteParentStatus
own_entry ref parents =
    find_first (λ p. p.controller_name == controller_name && parent_refs_equal p.parent_ref ref)
      parents

-- The loop over an entry's conditions: the last Accepted one stays.
pub last_accepted : ℕ → List Condition → Map ℕ Condition → Map ℕ Condition
last_accepted i [] out = out
last_accepted i (c ∷ cs) out =
    let rest = last_accepted i cs (insert i c out) in
    let same = last_accepted i cs out in if c.kind == "Accepted" then rest else same

pub find_parents_from :
    List RouteParentStatus → ℕ → List ParentResult → Map ℕ Condition → Map ℕ Condition
find_parents_from existing i [] out = out
find_parents_from existing i (res ∷ results) out =
    find_parents_from existing (suc i) results (elim (own_entry res.parent_ref existing) [
      | none ↦ out
      | some p ↦ last_accepted i p.conditions out
    ])

-- FindParentConditions
pub find_parent_conditions : List RouteParentStatus → List ParentResult → Map ℕ Condition
find_parent_conditions existing results = find_parents_from existing 0 results []
