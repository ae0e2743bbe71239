-- ===== src/Gateway/Status/Routes.antt =====
-- BuildRouteStatus of internal/gateway/status.go: a rebuilt status counts as unchanged.
use rsync_gateway.Prelude.{
  ◌≡◌, refl, sym, ap, ◌∙◌, subst, Bool, true, not, List, [], ◌∷◌, ◌++◌, map, append-nil, keep_if,
  keep_if-append, Bool-cases, inl, inr, if◌then◌else◌, ℕ,
}
use rsync_gateway.Prelude.Keys.{◌==◌, String_eq}
use rsync_gateway.Api.{controller_name}
use rsync_gateway.Gateway.Objects.{Condition, RouteParentStatus, RsyncRoute}
use rsync_gateway.Gateway.Backends.{BackendStatus}
use rsync_gateway.Gateway.Bind.{ParentResult}
use rsync_gateway.Gateway.Conditions.{parent_status_equal, parent_statuses_equal}
use rsync_gateway.Gateway.Conditions.Content.{content, content-stable_condition}
use rsync_gateway.Gateway.Conditions.Equal.{parent_status_equal_lem, parent_statuses_equal_lem}
use rsync_gateway.Gateway.Status.{
  untimed, stabilise, condition_status, parent_status, build_route_status, find_existing_conditions,
}

-- An entry that another controller wrote.
abbrev pub is_foreign : RouteParentStatus → Bool
is_foreign p = not (p.controller_name == controller_name)

pub keep_if_idem {ℓ} :
    {A : Type ℓ} (p : A → Bool) (xs : List A) → keep_if p (keep_if p xs) ≡ keep_if p xs
keep_if_idem p [] = refl
keep_if_idem p (x ∷ xs) = elim (Bool-cases (p x)) [
  | inl e ↦ rw e (rw (e, keep_if_idem p xs))
  | inr e ↦ rw e (keep_if_idem p xs)
]

module _ (now : Condition → ℕ) (route : RsyncRoute) (backends : BackendStatus) where
  none_foreign :
      (results : List ParentResult)
      → keep_if is_foreign (map (parent_status now route backends) results) ≡ []
  unfolding parent_status
  none_foreign [] = refl
  none_foreign (r ∷ rs) = none_foreign rs

  -- Entries of other controllers are the ones of the route, in order.
  pub foreign-build_route_status :
      (results : List ParentResult)
      → keep_if is_foreign (build_route_status now route results backends)
        ≡ keep_if is_foreign route.parents
  unfolding build_route_status
  foreign-build_route_status results =
      keep_if-append is_foreign (keep_if is_foreign route.parents)
        (map (parent_status now route backends) results)
      ∙ rw (none_foreign results, keep_if_idem is_foreign route.parents)
          (append-nil (keep_if is_foreign route.parents))

pub content-stabilise :
    (now : Condition → ℕ) (existing : List Condition) (c : Condition)
    → content (stabilise now existing c) ≡ content c
unfolding stabilise
content-stabilise now existing c = content-stable_condition (now c) existing c

-- What the conditions of an entry say, from the spec's generation and the results alone.
abbrev said : ℕ → BackendStatus → ParentResult → List Condition
said generation backends r =
    if r.accepted
    then untimed "Accepted" (condition_status r.accepted) r.reason r.message generation
      ∷ untimed "ResolvedRefs" (condition_status backends.resolved) backends.reason backends.message
          generation
      ∷ []
    else untimed "Accepted" (condition_status r.accepted) r.reason r.message generation ∷ []

said-parent_status :
    (now : Condition → ℕ) (route : RsyncRoute) (backends : BackendStatus) (r : ParentResult)
    → map content (parent_status now route backends r).conditions ≡ said route.generation backends r
unfolding parent_status
said-parent_status now route backends r = elim (Bool-cases r.accepted) [
  | inl e ↦ simp (e, content-stabilise now (find_existing_conditions now route r.parent_ref))
  | inr e ↦ simp (e, content-stabilise now (find_existing_conditions now route r.parent_ref))
]

-- Two entries for one result differ in times only, whatever the routes said before.
parent_status-equal :
    (now later : Condition → ℕ) (route rebuilt : RsyncRoute) (backends : BackendStatus)
    → rebuilt.generation ≡ route.generation
    → (r : ParentResult)
    → parent_status_equal
        (parent_status now route backends r)
        (parent_status later rebuilt backends r)
      ≡ true
parent_status-equal now later route rebuilt backends same r =
    parent_status_equal_lem (parent_status now route backends r)
      (parent_status later rebuilt backends r) (unfold parent_status in refl)
      (unfold parent_status in refl)
      (said-parent_status now route backends r
        ∙ ap (λ g. said g backends r) (sym same)
        ∙ sym (said-parent_status later rebuilt backends r))

-- A route's status that is built from the one just written, with the same results and at any time,
-- is equal to it by ParentStatusesEqual.
pub build_route_status-again :
    (now later : Condition → ℕ) (route : RsyncRoute) (results : List ParentResult)
    (backends : BackendStatus)
    → parent_statuses_equal (build_route_status now route results backends) (
        build_route_status later
          (record route { parents = build_route_status now route results backends })
          results
          backends)
      ≡ true
unfolding build_route_status
build_route_status-again now later route results backends =
    subst
      (λ ps.
        parent_statuses_equal (build_route_status now route results backends)
          (ps ++ map (parent_status later rebuilt backends) results)
        ≡ true)
      (sym (foreign-build_route_status now route backends results))
      (unfold build_route_status in
        parent_statuses_equal_lem (keep_if is_foreign route.parents)
          (parent_status now route backends) (parent_status later rebuilt backends) results
          (parent_status-equal now later route rebuilt backends refl))
  where
    rebuilt : RsyncRoute
    rebuilt = record route { parents = build_route_status now route results backends }
