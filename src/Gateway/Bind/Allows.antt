-- ===== src/Gateway/Bind/Allows.antt =====
-- listenerAllows of internal/gateway/bind.go against a description of allowedRoutes that does not go
-- through the code's messages.
use text.Mathlib.TextLemmas.{length-append}
use Prim.Native.String.{count}
use Prim.Native.Nat.{◌<◌}
use rsync_gateway.Prelude.{
  ◌≡◌, refl, ap, ◌↔◌, ◌⊎◌, inl, inr, Bool, true, false, List, [], ◌∷◌, ◌++◌, Option, none, some,
  String, Result, ok, err, get_or, any_of, arith, Any, Bool-cases, any_of_iff, and_iff,
}
use rsync_gateway.Prelude.Keys.{◌==◌, String_eq}
use rsync_gateway.Prelude.Text.{◌^^◌, quote}
use rsync_gateway.Api.{group_name, route_kind}
use rsync_gateway.Gateway.Objects.{
  NamespacedName, NamespacedName_eq, ParentReference, RouteGroupKind, LabelSelector,
  RouteNamespaces, AllowedRoutes, Listener, RsyncRoute,
}
use rsync_gateway.Gateway.Bind.{
  gateway_api_group, Selects, is_route_kind, kind_list_allows, kinds_allow, same_namespace_allow,
  kind_refusal, selector_allow, from_allow, optional_from_allow, optional_namespaces_allow,
  namespaces_allow, listener_allows, first_allowing, candidates, attached,
}

-- The kinds list is absent or empty, or has an RsyncRoute of our group.
abbrev pub AllowsKind : Option AllowedRoutes → Type 0
AllowsKind none = Unit {0}
AllowsKind (some a) =
    (a.kinds ≡ [])
    ⊎ Any (λ k. (get_or k.group gateway_api_group ≡ group_name) × (k.kind ≡ route_kind)) a.kinds

module _ (selects : Selects) (gateway_ns : String) (key : NamespacedName) (route : RsyncRoute) where
  abbrev pub AllowsFrom : RouteNamespaces → String → Type 0
  AllowsFrom ns from =
      (from ≡ "All")
      ⊎ ((from ≡ "Same") × (gateway_ns ≡ key.namespace))
      ⊎ ((from ≡ "Selector")
          × ((s : LabelSelector) × (ns.selector ≡ some s) × (selects s route.labels ≡ ok true)))

  -- An absent From, or anything absent around it, means Same.
  abbrev AllowsOptionalFrom : RouteNamespaces → Option String → Type 0
  AllowsOptionalFrom ns none = gateway_ns ≡ key.namespace
  AllowsOptionalFrom ns (some from) = AllowsFrom ns from

  abbrev AllowsOptionalNamespaces : Option RouteNamespaces → Type 0
  AllowsOptionalNamespaces none = gateway_ns ≡ key.namespace
  AllowsOptionalNamespaces (some ns) = AllowsOptionalFrom ns ns.from

  abbrev AllowsNamespace : Option AllowedRoutes → Type 0
  AllowsNamespace none = gateway_ns ≡ key.namespace
  AllowsNamespace (some a) = AllowsOptionalNamespaces a.namespaces

  abbrev pub Allows : Listener → Type 0
  Allows l = AllowsKind l.allowed_routes × AllowsNamespace l.allowed_routes

abbrev IsRouteKind : RouteGroupKind → Type 0
IsRouteKind k = (get_or k.group gateway_api_group ≡ group_name) × (k.kind ≡ route_kind)

kind_list_allows_iff :
    (ks : List RouteGroupKind) → (kind_list_allows ks ≡ true) ↔ ((ks ≡ []) ⊎ Any IsRouteKind ks)
unfolding kind_list_allows
kind_list_allows_iff [] = ((λ _. inl refl), λ _. refl)
kind_list_allows_iff (k ∷ ks) =
    ((λ e. inr (each.0 e)), λ a. elim a [ inl e ↦ cc | inr a ↦ each.1 a ])
  where
    one : (x : RouteGroupKind) → (is_route_kind x ≡ true) ↔ IsRouteKind x
    one x =
        unfold is_route_kind in
        and_iff _ _ (String_eq.eqb_iff (get_or x.group gateway_api_group) group_name)
          (String_eq.eqb_iff x.kind route_kind)

    each : (any_of is_route_kind (k ∷ ks) ≡ true) ↔ Any IsRouteKind (k ∷ ks)
    each = any_of_iff is_route_kind IsRouteKind (k ∷ ks) one

kinds_allow_iff : (a : Option AllowedRoutes) → (kinds_allow a ≡ true) ↔ AllowsKind a
unfolding kinds_allow
kinds_allow_iff none = ((λ _. tt), λ _. refl)
kinds_allow_iff (some a) = kind_list_allows_iff a.kinds

-- A message with a text in front is not the empty text.
message_ne : (s t : String) → 0 < count s → ((s ^^ t) == "") ≡ false
message_ne s t h = elim (Bool-cases ((s ^^ t) == "")) [
  | inl e ↦
      absurd (omega (arith, ap count ((String_eq.eqb_iff (s ^^ t) "").0 e), length-append s t))
  | inr e ↦ e
]

kind_refusal_ne : (kind_refusal == "") ≡ false
unfolding kind_refusal
kind_refusal_ne = refl

pub no_candidates : (section : Option String) → candidates section [] ≡ []
unfolding candidates
no_candidates section = ground arith

same_namespace_iff :
    (ns : String) (key : NamespacedName)
    → ((same_namespace_allow ns key == "") ≡ true) ↔ (ns ≡ key.namespace)
unfolding same_namespace_allow
same_namespace_iff ns key = elim (Bool-cases (ns == key.namespace)) [
  | inl e ↦ rw e ((λ _. (String_eq.eqb_iff _ _).0 e), λ _. refl)
  | inr e ↦ rw e ((λ h. cc), λ h. cc ((String_eq.eqb_iff _ _).1 h))
]

module _ (selects : Selects) (key : NamespacedName) (route : RsyncRoute) where
  abbrev SelectorOk : Option LabelSelector → Type 0
  SelectorOk o = (s : LabelSelector) × (o ≡ some s) × (selects s route.labels ≡ ok true)

  selector_parsed_iff :
      (s : LabelSelector) (r : Result String Bool)
      → selects s route.labels ≡ r
      → ((selector_allow selects (some s) route.labels == "") ≡ true) ↔ SelectorOk (some s)
  unfolding selector_allow
  selector_parsed_iff s (ok true) e = ((λ _. (s, refl, e)), λ _. rw (e, selector_allow))
  selector_parsed_iff s (ok false) e = ((λ h. cc (rw (e, selector_allow) at h)), λ h. cc (h.1, h.2))
  selector_parsed_iff s (err m) e = (
    (λ h. cc (
      rw (e, selector_allow) at h,
      message_ne "invalid allowedRoutes.namespaces.selector: " m (omega arith),
    )),
    λ h. cc (h.1, h.2),
  )

  selector_allow_iff :
      (o : Option LabelSelector)
      → ((selector_allow selects o route.labels == "") ≡ true) ↔ SelectorOk o
  selector_allow_iff none = unfold selector_allow in ((λ h. cc), λ h. cc (h.1))
  selector_allow_iff (some s) = selector_parsed_iff s (selects s route.labels) refl

  from_allow_iff :
      (ns : RouteNamespaces) (from gateway_ns : String)
      → ((from_allow selects ns from gateway_ns key route == "") ≡ true)
        ↔ AllowsFrom selects gateway_ns key route ns from
  unfolding from_allow
  from_allow_iff ns from gateway_ns = elim (Bool-cases (from == "All")) [
    | inl e ↦ rw e ((λ _. inl ((String_eq.eqb_iff from "All").0 e)), λ _. refl)
    | inr e ↦ elim (Bool-cases (from == "Same")) [
      | inl f ↦
          rw (e, f)
            (
              (λ h. inr (inl (is "Same" f, (same_namespace_iff gateway_ns key).0 h))),
              λ a. elim a [
                | inl y ↦ absurd (no "All" e y)
                | inr (inl (_, y)) ↦ (same_namespace_iff gateway_ns key).1 y
                | inr (inr (y, _)) ↦ cc (rw y at f)
              ],
            )
      | inr f ↦ elim (Bool-cases (from == "Selector")) [
        | inl g ↦
            rw (e, f, g)
              (
                (λ h. inr (inr (is "Selector" g, (selector_allow_iff ns.selector).0 h))),
                λ a. elim a [
                  | inl y ↦ absurd (no "All" e y)
                  | inr (inl (y, _)) ↦ absurd (no "Same" f y)
                  | inr (inr (_, y)) ↦ (selector_allow_iff ns.selector).1 y
                ],
              )
        | inr g ↦
            rw (e, f, g)
              (
                (λ h. cc (
                    message_ne "allowedRoutes.namespaces.from=" (from ^^ " is not supported")
                      (omega arith))),
                λ a. elim a [
                  | inl y ↦ absurd (no "All" e y)
                  | inr (inl (y, _)) ↦ absurd (no "Same" f y)
                  | inr (inr (y, _)) ↦ absurd (no "Selector" g y)
                ],
              )
      ]
    ]
  ]
    where
      is : (t : String) → (from == t) ≡ true → from ≡ t
      is t = (String_eq.eqb_iff from t).0

      no : (t : String) → (from == t) ≡ false → from ≡ t → ⊥
      no t e y = cc ((String_eq.eqb_iff from t).1 y)

  module _ (gateway_ns : String) where
    optional_from_iff :
        (ns : RouteNamespaces) (o : Option String)
        → ((optional_from_allow selects ns o gateway_ns key route == "") ≡ true)
          ↔ AllowsOptionalFrom selects gateway_ns key route ns o
    unfolding optional_from_allow
    optional_from_iff ns none = same_namespace_iff gateway_ns key
    optional_from_iff ns (some from) = from_allow_iff ns from gateway_ns

    optional_namespaces_iff :
        (o : Option RouteNamespaces)
        → ((optional_namespaces_allow selects o gateway_ns key route == "") ≡ true)
          ↔ AllowsOptionalNamespaces selects gateway_ns key route o
    unfolding optional_namespaces_allow
    optional_namespaces_iff none = same_namespace_iff gateway_ns key
    optional_namespaces_iff (some ns) = optional_from_iff ns ns.from

    namespaces_iff :
        (a : Option AllowedRoutes)
        → ((namespaces_allow selects a gateway_ns key route == "") ≡ true)
          ↔ AllowsNamespace selects gateway_ns key route a
    unfolding namespaces_allow
    namespaces_iff none = same_namespace_iff gateway_ns key
    namespaces_iff (some a) = optional_namespaces_iff a.namespaces

    -- listenerAllows returns no refusal exactly when the listener's kinds are absent, empty or name
    -- RsyncRoute, and its namespaces admit the route: All, Same (also where it is absent) with equal
    -- namespaces, or Selector with a selector that matches the labels of the route
    -- itself, whatever those of its namespace.
    pub listener_allows_iff :
        (l : Listener)
        → ((listener_allows selects l gateway_ns key route == "") ≡ true)
          ↔ Allows selects gateway_ns key route l
    unfolding listener_allows
    listener_allows_iff l = elim (Bool-cases (kinds_allow l.allowed_routes)) [
      | inl e ↦ rw e (
        (λ h. ((kinds_allow_iff l.allowed_routes).0 e, (namespaces_iff l.allowed_routes).0 h)),
        λ a. (namespaces_iff l.allowed_routes).1 a.1,
      )
      | inr e ↦
          rw e ((λ h. cc (h, kind_refusal_ne)), λ a. cc ((kinds_allow_iff l.allowed_routes).1 a.0))
    ]

    -- The loop ends with a listener that allows the route, if there is one.
    pub first_allowing_iff :
        (ref : ParentReference) (gateway : NamespacedName) (ls : List Listener)
        (rejections : List String)
        → ((attached ref gateway
              (first_allowing selects ls gateway_ns key route rejections)).accepted
            ≡ true)
          ↔ Any (Allows selects gateway_ns key route) ls
    unfolding first_allowing attached
    first_allowing_iff ref gateway [] rejections = ((λ h. cc), λ a. absurd a)
    first_allowing_iff ref gateway (l ∷ ls) rejections =
        elim (Bool-cases (listener_allows selects l gateway_ns key route == "")) [
          | inl e ↦ rw e ((λ _. inl ((listener_allows_iff l).0 e)), λ _. refl)
          | inr e ↦
              let rest = first_allowing_iff ref gateway ls (rejections ++ refusal l) in
              rw e (
                (λ h. inr (rest.0 h)),
                λ a. elim a [ inl y ↦ cc ((listener_allows_iff l).1 y) | inr y ↦ rest.1 y ],
              )
        ]
      where
        refusal : Listener → List String
        refusal l =
            ("listener " ^^ quote l.name ^^ ": " ^^ listener_allows selects l gateway_ns key route)
            ∷ []
