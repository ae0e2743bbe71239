-- ===== src/Gateway/Backends/Grants.antt =====
-- referenceGrantPermits of internal/gateway/backends.go against a description of a ReferenceGrant.
use rsync_gateway.Prelude.{
  ◌≡◌, refl, ◌↔◌, ◌⊎◌, true, Option, none, some, String, arith, Any, any_of_iff, and_iff,
}
use rsync_gateway.Prelude.Keys.{String_eq}
use rsync_gateway.Api.{group_name, route_kind, core_group}
use rsync_gateway.Gateway.Objects.{
  NamespacedName_eq, ReferenceGrant, GrantFrom, GrantTo, Snapshot, grants_of,
}
use rsync_gateway.Gateway.Backends.{
  grant_to_permits, grant_from_matches, grant_permits, name_allows, reference_grant_permits,
}

-- The grant lets any Service be named, or this one.
abbrev Names : String → Option String → Type 0
Names service none = Unit {0}
Names service (some n) = (n ≡ "") ⊎ (n ≡ service)

abbrev pub PermitsTo : String → GrantTo → Type 0
PermitsTo service to = (to.group ≡ core_group) × (to.kind ≡ "Service") × Names service to.name

abbrev pub PermitsFrom : String → GrantFrom → Type 0
PermitsFrom namespace from =
    (from.group ≡ group_name) × (from.kind ≡ route_kind) × (from.namespace ≡ namespace)

abbrev pub Permits : String → String → ReferenceGrant → Type 0
Permits namespace service grant =
    Any (λ from. PermitsFrom namespace from × Any (PermitsTo service) grant.to) grant.from

name_allows_iff :
    (service : String) (o : Option String) → (name_allows service o ≡ true) ↔ Names service o
name_allows_iff service none = ((λ _. tt), λ _. refl)
name_allows_iff service (some n) =
    ground (arith, String_eq.eqb_iff n "", String_eq.eqb_iff n service)

grant_to_iff :
    (service : String) (to : GrantTo) → (grant_to_permits service to ≡ true) ↔ PermitsTo service to
unfolding grant_to_permits
grant_to_iff service to = ground (
  arith,
  String_eq.eqb_iff to.group core_group,
  String_eq.eqb_iff to.kind "Service",
  name_allows_iff service to.name,
)

grant_from_iff :
    (namespace : String) (from : GrantFrom)
    → (grant_from_matches namespace from ≡ true) ↔ PermitsFrom namespace from
unfolding grant_from_matches
grant_from_iff namespace from = ground (
  arith,
  String_eq.eqb_iff from.group group_name,
  String_eq.eqb_iff from.kind route_kind,
  String_eq.eqb_iff from.namespace namespace,
)

-- referenceGrantPermits holds exactly when a ReferenceGrant of the backend's namespace has an entry
-- for RsyncRoutes of the given namespace and one for core Services that is open or names this one.
pub reference_grant_permits_iff :
    (snap : Snapshot) (from_namespace backend_namespace service : String)
    → (reference_grant_permits snap from_namespace backend_namespace service ≡ true)
      ↔ Any (Permits from_namespace service) (grants_of backend_namespace snap.reference_grants)
unfolding reference_grant_permits grant_permits
reference_grant_permits_iff snap from_namespace backend_namespace service =
    any_of_iff (grant_permits from_namespace service) (Permits from_namespace service)
      (grants_of backend_namespace snap.reference_grants)
      λ grant.
        any_of_iff _ (λ from. PermitsFrom from_namespace from × Any (PermitsTo service) grant.to)
          grant.from
          λ from. and_iff _ _ (grant_from_iff from_namespace from) (
            any_of_iff (grant_to_permits service) (PermitsTo service) grant.to
              (grant_to_iff service))
