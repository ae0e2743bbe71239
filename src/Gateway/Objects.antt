-- ===== src/Gateway/Objects.antt =====
-- The Kubernetes objects that internal/gateway reads and writes, with the fields that it uses, the
-- Snapshot of internal/gateway/snapshot.go, and the RsyncRoute of api/v1alpha1.
use rsync_gateway.Prelude.{
  ℕ, ◌≡◌, ◌↔◌, Bool, true, ◌&&◌, List, [], ◌∷◌, ◌++◌, Option, none, some, String, arith,
}
use rsync_gateway.Prelude.Keys.{Key, ◌==◌, String_eq, Map, lookup, insert}
use rsync_gateway.Prelude.Text.{◌^^◌}
use rsync_gateway.Api.{GatewayConfigSpec}

pub record NamespacedName : Type 0 where
  pub namespace : String
  pub name : String

-- NamespacedName.String
pub key_text : NamespacedName → String
key_text k = k.namespace ^^ "/" ^^ k.name

abbrev pub same_key : NamespacedName → NamespacedName → Bool
same_key a b = a.namespace == b.namespace && a.name == b.name

pub same_key_iff : (a b : NamespacedName) → (same_key a b ≡ true) ↔ (a ≡ b)
same_key_iff a b =
    ground (arith, String_eq.eqb_iff a.namespace b.namespace, String_eq.eqb_iff a.name b.name)

instance abbrev pub NamespacedName_eq : Key NamespacedName
NamespacedName_eq = record { eqb = same_key; eqb_iff = same_key_iff }

-- metav1.Condition
pub record Condition : Type 0 where
  pub kind : String
  pub status : String
  pub reason : String
  pub message : String
  pub observed_generation : ℕ
  pub last_transition_time : ℕ

-- gatewayv1.ParentReference
pub record ParentReference : Type 0 where
  pub group : Option String
  pub kind : Option String
  pub namespace : Option String
  pub name : String
  pub section_name : Option String
  pub port : Option ℕ

-- gatewayv1.RouteGroupKind
pub record RouteGroupKind : Type 0 where
  pub group : Option String
  pub kind : String

-- metav1.LabelSelector, which only its evaluation looks into
pub record LabelSelector : Type 0 where
  pub match_labels : Map String String
  pub match_expressions : List (String × String × List String)

-- gatewayv1.RouteNamespaces
pub record RouteNamespaces : Type 0 where
  pub from : Option String
  pub selector : Option LabelSelector

-- gatewayv1.AllowedRoutes
pub record AllowedRoutes : Type 0 where
  pub namespaces : Option RouteNamespaces
  pub kinds : List RouteGroupKind

-- gatewayv1.Listener; of the TLS settings only their presence matters
pub record Listener : Type 0 where
  pub name : String
  pub port : ℕ
  pub protocol : String
  pub has_tls : Bool
  pub allowed_routes : Option AllowedRoutes

-- gatewayv1.ListenerStatus
pub record ListenerStatus : Type 0 where
  pub name : String
  pub attached_routes : ℕ
  pub supported_kinds : List RouteGroupKind
  pub conditions : List Condition

pub record Gateway : Type 0 where
  pub key : NamespacedName
  pub generation : ℕ
  pub class_name : String
  pub listeners : List Listener
  pub conditions : List Condition
  pub listener_statuses : List ListenerStatus

-- gatewayv1.ParametersReference
pub record ParametersReference : Type 0 where
  pub group : String
  pub kind : String
  pub name : String
  pub namespace : Option String

pub record GatewayClass : Type 0 where
  pub name : String
  pub generation : ℕ
  pub controller_name : String
  pub parameters_ref : Option ParametersReference
  pub conditions : List Condition

pub record GatewayConfig : Type 0 where
  pub name : String
  pub generation : ℕ
  pub spec : GatewayConfigSpec
  pub conditions : List Condition

-- gatewayv1.BackendRef
pub record BackendRef : Type 0 where
  pub group : Option String
  pub kind : Option String
  pub namespace : Option String
  pub name : String
  pub port : Option ℕ
  pub weight : Option ℕ

-- gatewayv1.RouteParentStatus
pub record RouteParentStatus : Type 0 where
  pub parent_ref : ParentReference
  pub controller_name : String
  pub conditions : List Condition

-- RsyncRoute with its spec and status
pub record RsyncRoute : Type 0 where
  pub key : NamespacedName
  pub generation : ℕ
  pub creation_timestamp : ℕ
  pub labels : Map String String
  pub parent_refs : List ParentReference
  pub module_names : List String
  pub backend_refs : List BackendRef
  pub parents : List RouteParentStatus

pub record Service : Type 0 where
  pub key : NamespacedName

-- gatewayv1.ReferenceGrantFrom, ReferenceGrantTo
pub record GrantFrom : Type 0 where
  pub group : String
  pub kind : String
  pub namespace : String

pub record GrantTo : Type 0 where
  pub group : String
  pub kind : String
  pub name : Option String

pub record ReferenceGrant : Type 0 where
  pub namespace : String
  pub from : List GrantFrom
  pub to : List GrantTo

pub record Snapshot : Type 0 where
  pub gateway_classes : Map String GatewayClass
  pub gateway_configs : Map String GatewayConfig
  pub gateways : Map NamespacedName Gateway
  pub rsync_routes : Map NamespacedName RsyncRoute
  pub services : Map NamespacedName Service
  pub reference_grants : Map String (List ReferenceGrant)

-- The value of a map of slices at a key, nil where it is missing.
abbrev pub grants_of : String → Map String (List ReferenceGrant) → List ReferenceGrant
grants_of k m = elim (lookup k m) [ none ↦ [] | some gs ↦ gs ]

index_by {ℓ κ} :
    {K : Type ℓ} {V : Type κ} ⦃e : Key K⦄ → (V → K) → Map K V → List (Option V) → Map K V
index_by key m [] = m
index_by key m (none ∷ vs) = index_by key m vs
index_by key m (some v ∷ vs) = index_by key (insert (key v) v m) vs

group_grants :
    Map String (List ReferenceGrant)
    → List (Option ReferenceGrant)
    → Map String (List ReferenceGrant)
group_grants m [] = m
group_grants m (none ∷ gs) = group_grants m gs
group_grants m (some g ∷ gs) =
    group_grants (insert g.namespace (grants_of g.namespace m ++ g ∷ []) m) gs

-- NewSnapshot; a nil pointer in a list is `none`
pub new_snapshot :
    List (Option GatewayClass)
    → List (Option GatewayConfig)
    → List (Option Gateway)
    → List (Option RsyncRoute)
    → List (Option Service)
    → List (Option ReferenceGrant)
    → Snapshot
unfolding index_by group_grants
new_snapshot classes configs gateways routes services grants = record {
  gateway_classes = index_by (λ c. c.name) [] classes;
  gateway_configs = index_by (λ c. c.name) [] configs;
  gateways = index_by (λ g. g.key) [] gateways;
  rsync_routes = index_by (λ r. r.key) [] routes;
  services = index_by (λ s. s.key) [] services;
  reference_grants = group_grants [] grants;
}
