-- ===== src/Gateway/Bind.antt =====
-- internal/gateway/bind.go up to its module conflicts: which parentRefs bind a route to a Gateway.
pub mod Allows
pub mod Attach
pub mod Points
use rsync_gateway.Prelude.{
  ℕ, ◌≡◌, Bool, true, false, not, ◌&&◌, ◌||◌, List, [], ◌∷◌, ◌++◌, Option, none, some, String,
  Result, ok, err, if◌then◌else◌, get_or, any_of, keep_if, find_first, is_some,
}
use rsync_gateway.Prelude.Keys.{◌==◌, String_eq, Map, lookup}
use rsync_gateway.Prelude.Text.{◌^^◌, quote}
use rsync_gateway.Api.{group_name, route_kind, protocol_rsync, controller_name}
use rsync_gateway.Gateway.Objects.{
  NamespacedName, NamespacedName_eq, key_text, ParentReference, RouteGroupKind, LabelSelector,
  RouteNamespaces, AllowedRoutes, Listener, Gateway, RsyncRoute, Snapshot,
}
use rsync_gateway.Gateway.Claim.{ClassClaim, is_set}
use rsync_gateway.Gateway.Backends.{namespace_or}

pub record ParentResult : Type 0 where
  pub parent_ref : ParentReference
  pub gateway : NamespacedName
  pub listener : Option Listener
  pub accepted : Bool
  pub reason : String
  pub message : String

abbrev pub gateway_api_group : String
gateway_api_group = "gateway.networking.k8s.io"

-- metav1.LabelSelectorAsSelector and the match of its result: an error's text, or the outcome.
abbrev pub Selects : Type 0
Selects = LabelSelector → Map String String → Result String Bool

-- rsyncListeners
pub rsync_listeners : Gateway → List Listener
rsync_listeners gw = keep_if (λ l. l.protocol == protocol_rsync) gw.listeners

pub is_route_kind : RouteGroupKind → Bool
is_route_kind k = get_or k.group gateway_api_group == group_name && k.kind == route_kind

pub kind_list_allows : List RouteGroupKind → Bool
kind_list_allows [] = true
kind_list_allows (k ∷ ks) = any_of is_route_kind (k ∷ ks)

-- kindsAllow
pub kinds_allow : Option AllowedRoutes → Bool
kinds_allow none = true
kinds_allow (some a) = kind_list_allows a.kinds

-- sameNamespaceAllow; the empty text stands for "allowed"
pub same_namespace_allow : String → NamespacedName → String
same_namespace_allow gateway_ns route =
    if not (gateway_ns == route.namespace)
    then "route namespace differs from the Gateway namespace (allowedRoutes.namespaces.from=Same)"
    else ""

pub kind_refusal : String
kind_refusal =
    "route kind " ^^ group_name ^^ "/" ^^ route_kind ^^ " is not allowed by allowedRoutes.kinds"

module _ (selects : Selects) where
  -- The case From=Selector.
  pub selector_allow : Option LabelSelector → Map String String → String
  selector_allow none labels = "allowedRoutes.namespaces.from=Selector requires a selector"
  selector_allow (some s) labels = elim (selects s labels) [
    | err e ↦ "invalid allowedRoutes.namespaces.selector: " ^^ e
    | ok matches ↦
        if not matches
        then "route namespace labels do not match allowedRoutes.namespaces.selector"
        else ""
  ]

  -- The switch on From.
  pub from_allow : RouteNamespaces → String → String → NamespacedName → RsyncRoute → String
  from_allow ns from gateway_ns key route =
      if from == "All"
      then ""
      else if from == "Same"
      then same_namespace_allow gateway_ns key
      else if from == "Selector"
      then selector_allow ns.selector route.labels
      else "allowedRoutes.namespaces.from=" ^^ from ^^ " is not supported"

  -- namespacesAllow from its nil test of From on
  pub optional_from_allow :
      RouteNamespaces → Option String → String → NamespacedName → RsyncRoute → String
  optional_from_allow ns none gateway_ns key route = same_namespace_allow gateway_ns key
  optional_from_allow ns (some from) gateway_ns key route = from_allow ns from gateway_ns key route

  pub optional_namespaces_allow :
      Option RouteNamespaces → String → NamespacedName → RsyncRoute → String
  optional_namespaces_allow none gateway_ns key route = same_namespace_allow gateway_ns key
  optional_namespaces_allow (some ns) gateway_ns key route =
      optional_from_allow ns ns.from gateway_ns key route

  -- namespacesAllow
  pub namespaces_allow : Option AllowedRoutes → String → NamespacedName → RsyncRoute → String
  namespaces_allow none gateway_ns key route = same_namespace_allow gateway_ns key
  namespaces_allow (some a) gateway_ns key route =
      optional_namespaces_allow a.namespaces gateway_ns key route

  -- listenerAllows
  pub listener_allows : Listener → String → NamespacedName → RsyncRoute → String
  listener_allows l gateway_ns key route =
      if not (kinds_allow l.allowed_routes)
      then kind_refusal
      else namespaces_allow l.allowed_routes gateway_ns key route

  -- The loop over the candidates: the first that allows the route, or why each does not.
  pub first_allowing :
      List Listener
      → String
      → NamespacedName
      → RsyncRoute
      → List String
      → Result (List String) Listener
  first_allowing [] gateway_ns key route rejections = err rejections
  first_allowing (l ∷ ls) gateway_ns key route rejections =
      let why = listener_allows l gateway_ns key route in
      let rest =
        first_allowing ls gateway_ns key route
          (rejections ++ ("listener " ^^ quote l.name ^^ ": " ^^ why) ∷ []) in
      if why == "" then ok l else rest

-- strings.Join(ss, "; ")
join : List String → String
join [] = ""
join (s ∷ []) = s
join (s ∷ t ∷ ss) = s ^^ "; " ^^ join (t ∷ ss)

-- The candidates for a parentRef: all rsync listeners, or the first with the section's name.
pub candidates : Option String → List Listener → List Listener
candidates section listeners =
    if is_set section
    then elim (find_first (λ l. l.name == get_or section "") listeners) [
      | none ↦ []
      | some l ↦ l ∷ []
    ]
    else listeners

-- Where the parentRef points.
pub gateway_key : NamespacedName → ParentReference → NamespacedName
gateway_key route ref = record {
  namespace = namespace_or ref.namespace route.namespace;
  name = ref.name;
}

-- `result` where a guard returns early.
pub no_match : ParentReference → NamespacedName → String → ParentResult
no_match ref gateway message = record {
  parent_ref = ref;
  gateway = gateway;
  listener = none;
  accepted = false;
  reason = "NoMatchingParent";
  message = message;
}

-- The outcome of the candidates' loop.
pub attached : ParentReference → NamespacedName → Result (List String) Listener → ParentResult
unfolding join
attached ref gateway (ok l) = record {
  parent_ref = ref;
  gateway = gateway;
  listener = some l;
  accepted = true;
  reason = "Accepted";
  message = "";
}
attached ref gateway (err rejections) = record {
  parent_ref = ref;
  gateway = gateway;
  listener = none;
  accepted = false;
  reason = "NotAllowedByListeners";
  message =
      "no listener of Gateway " ^^ key_text gateway ^^ " allows this route: " ^^ join rejections;
}

no_listener_message : NamespacedName → String
no_listener_message key =
    "Gateway " ^^ key_text key ^^ " has no listener with protocol " ^^ protocol_rsync

no_section_message : NamespacedName → String → String
no_section_message key want =
    "Gateway "
    ^^ key_text key
    ^^ " has no listener named "
    ^^ quote want
    ^^ " with protocol "
    ^^ protocol_rsync

not_managed_message : NamespacedName → Gateway → String
not_managed_message key gw =
    "GatewayClass "
    ^^ quote gw.class_name
    ^^ " of Gateway "
    ^^ key_text key
    ^^ " is not managed by "
    ^^ controller_name

not_accepted_message : Gateway → ClassClaim → String
not_accepted_message gw claim =
    "GatewayClass " ^^ quote gw.class_name ^^ " is not accepted: " ^^ claim.message

module _ (selects : Selects) (snap : Snapshot) (claims : Map String ClassClaim) where
  -- bindParent from the Gateway's listeners on.
  pub bind_listeners : NamespacedName → RsyncRoute → ParentReference → Gateway → ParentResult
  unfolding no_listener_message no_section_message
  bind_listeners key route ref gw =
      let gateway = gateway_key key ref in
      elim (rsync_listeners gw) [
        | [] ↦ no_match ref gateway (no_listener_message gateway)
        | l ∷ ls ↦ elim (candidates ref.section_name (l ∷ ls)) [
          | [] ↦ no_match ref gateway (no_section_message gateway (get_or ref.section_name ""))
          | c ∷ cs ↦
              attached ref gateway (first_allowing selects (c ∷ cs) gateway.namespace key route [])
        ]
      ]

  -- bindParent from the Gateway's class on.
  pub bind_class :
      NamespacedName → RsyncRoute → ParentReference → Gateway → Option ClassClaim → ParentResult
  unfolding not_managed_message not_accepted_message
  bind_class key route ref gw none =
      no_match ref (gateway_key key ref) (not_managed_message (gateway_key key ref) gw)
  bind_class key route ref gw (some claim) =
      if not claim.claimed
      then no_match ref (gateway_key key ref) (not_managed_message (gateway_key key ref) gw)
      else if not claim.accepted
      then no_match ref (gateway_key key ref) (not_accepted_message gw claim)
      else bind_listeners key route ref gw

  -- bindParent
  pub bind_parent : NamespacedName → RsyncRoute → ParentReference → ParentResult
  bind_parent key route ref =
      let group = get_or ref.group gateway_api_group in
      let kind = get_or ref.kind "Gateway" in
      if not (group == gateway_api_group) || not (kind == "Gateway")
      then no_match ref (record { namespace = ""; name = "" })
          ("unsupported parent group/kind " ^^ group ^^ "/" ^^ kind ^^ "; only "
            ^^ gateway_api_group ^^ "/Gateway is supported")
      else elim (lookup (gateway_key key ref) snap.gateways) [
        | none ↦
            no_match ref (gateway_key key ref)
              ("Gateway " ^^ key_text (gateway_key key ref) ^^ " not found")
        | some gw ↦ bind_class key route ref gw (lookup gw.class_name claims)
      ]
