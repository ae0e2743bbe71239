-- ===== src/Gateway/Backends.antt =====
-- internal/gateway/backends.go: the backendRefs of a route, resolved against the snapshot.
pub mod Grants
pub mod Resolves
use rsync_gateway.Prelude.{
  ℕ, ◌≡◌, Bool, true, false, not, ◌&&◌, ◌||◌, List, [], ◌∷◌, ◌++◌, Option, none, some, String,
  if◌then◌else◌, is_some, get_or, any_of, nat_eq,
}
use rsync_gateway.Prelude.Keys.{◌==◌, String_eq, lookup}
use rsync_gateway.Prelude.Text.{◌^^◌, quote}
use rsync_gateway.Api.{group_name, route_kind, core_group}
use rsync_gateway.Gateway.Objects.{
  NamespacedName, NamespacedName_eq, key_text, BackendRef, RsyncRoute, ReferenceGrant, GrantFrom,
  GrantTo, Snapshot, grants_of,
}

pub record BackendStatus : Type 0 where
  pub resolved : Bool
  pub reason : String
  pub message : String

pub record ResolvedBackend : Type 0 where
  pub service : NamespacedName
  pub port : ℕ

-- A namespace pointer, or the given namespace where it is nil or empty.
abbrev pub namespace_or : Option String → String → String
namespace_or none ns = ns
namespace_or (some s) ns = if s == "" then ns else s

-- Weight 0 keeps a backend out of the pool.
abbrev pub is_zero_weight : Option ℕ → Bool
is_zero_weight none = false
is_zero_weight (some w) = nat_eq w 0

-- A grant that names no Service, or the empty name, is for all of them.
abbrev pub name_allows : String → Option String → Bool
name_allows service none = true
name_allows service (some n) = n == "" || n == service

-- The closure `fail`: the first failure is the one that is kept.
pub fail : String → String → BackendStatus → BackendStatus
fail reason message st =
    if st.resolved then record { resolved = false; reason = reason; message = message } else st

-- The two inner loops of referenceGrantPermits.
pub grant_to_permits : String → GrantTo → Bool
grant_to_permits service to =
    to.group == core_group && to.kind == "Service" && name_allows service to.name

pub grant_from_matches : String → GrantFrom → Bool
grant_from_matches namespace from =
    from.group == group_name && from.kind == route_kind && from.namespace == namespace

pub grant_permits : String → String → ReferenceGrant → Bool
grant_permits namespace service grant =
    any_of (λ from. grant_from_matches namespace from && any_of (grant_to_permits service) grant.to)
      grant.from

-- referenceGrantPermits
pub reference_grant_permits : Snapshot → String → String → String → Bool
reference_grant_permits snap from_namespace backend_namespace service =
    any_of (grant_permits from_namespace service)
      (grants_of backend_namespace snap.reference_grants)

abbrev not_found_message : NamespacedName → String
not_found_message key = "Service " ^^ key_text key ^^ " not found"

abbrev not_permitted_message : NamespacedName → NamespacedName → String
not_permitted_message route key =
    "cross-namespace reference from "
    ^^ key_text route
    ^^ " to Service "
    ^^ key_text key
    ^^ " is not permitted by a ReferenceGrant"

abbrev kind_message : String → String → String
kind_message group kind =
    "unsupported backend group/kind " ^^ group ^^ "/" ^^ kind
    ^^ "; only core Services are supported"

abbrev no_port_message : BackendRef → String
no_port_message ref =
    "backendRef " ^^ quote ref.name ^^ " has no port; port is required by rsync-gateway"

-- The body of ResolveBackends's loop behind the group and kind test, for a ref with a port.
pub resolve_service :
    Snapshot
    → NamespacedName
    → BackendRef
    → ℕ
    → List ResolvedBackend × BackendStatus
    → List ResolvedBackend × BackendStatus
resolve_service snap route ref port (usable, status) =
    let excluded = is_zero_weight ref.weight in
    let ns = namespace_or ref.namespace route.namespace in
    let key : NamespacedName = record { namespace = ns; name = ref.name } in
    if not (is_some (lookup key snap.services))
    then (usable, fail "BackendNotFound" (not_found_message key) status)
    else if not (ns == route.namespace)
        && not (reference_grant_permits snap route.namespace ns ref.name)
    then (usable, fail "RefNotPermitted" (not_permitted_message route key) status)
    else if not excluded
    then (usable ++ record { service = key; port = port } ∷ [], status)
    else (usable, status)

-- The body of ResolveBackends's loop.
pub resolve_one :
    Snapshot
    → NamespacedName
    → BackendRef
    → List ResolvedBackend × BackendStatus
    → List ResolvedBackend × BackendStatus
resolve_one snap route ref (usable, status) =
    let group = get_or ref.group "" in
    let kind = get_or ref.kind "Service" in
    if not (group == core_group) || not (kind == "Service")
    then (usable, fail "InvalidKind" (kind_message group kind) status)
    else elim ref.port [
      | none ↦ (usable, fail "BackendNotFound" (no_port_message ref) status)
      | some port ↦ resolve_service snap route ref port (usable, status)
    ]

pub resolve_all :
    Snapshot
    → NamespacedName
    → List BackendRef
    → List ResolvedBackend × BackendStatus
    → List ResolvedBackend × BackendStatus
resolve_all snap route [] acc = acc
resolve_all snap route (ref ∷ refs) acc =
    resolve_all snap route refs (resolve_one snap route ref acc)

-- ResolveBackends
pub resolve_backends : Snapshot → NamespacedName → RsyncRoute → List ResolvedBackend × BackendStatus
resolve_backends snap key route =
    resolve_all snap key route.backend_refs
      ([], record { resolved = true; reason = "ResolvedRefs"; message = "" })
