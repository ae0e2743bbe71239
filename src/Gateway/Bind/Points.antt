-- ===== src/Gateway/Bind/Points.antt =====
-- bindParent of internal/gateway/bind.go: the Gateway that an accepted result names.
use rsync_gateway.Prelude.{
  ◌≡◌, refl, inl, inr, true, not, ◌||◌, List, [], ◌∷◌, Option, none, some, String, Result, ok, err,
  get_or, Bool-cases, Option-cases,
}
use rsync_gateway.Prelude.Keys.{◌==◌, String_eq, Map, lookup}
use rsync_gateway.Gateway.Objects.{
  NamespacedName, NamespacedName_eq, ParentReference, Listener, Gateway, RsyncRoute, Snapshot,
}
use rsync_gateway.Gateway.Claim.{ClassClaim}
use rsync_gateway.Gateway.Bind.{
  gateway_api_group, Selects, rsync_listeners, candidates, gateway_key, no_match, attached,
  bind_listeners, bind_class, bind_parent,
}

module _ (selects : Selects) (snap : Snapshot) (claims : Map String ClassClaim)
    (key : NamespacedName) (route : RsyncRoute) (ref : ParentReference) where
  attached-gateway :
      (g : NamespacedName) (r : Result (List String) Listener) → (attached ref g r).gateway ≡ g
  unfolding attached
  attached-gateway g (ok l) = refl
  attached-gateway g (err rejections) = refl

  listeners-gateway :
      (gw : Gateway) (ls cs : List Listener)
      → rsync_listeners gw ≡ ls
      → candidates ref.section_name ls ≡ cs
      → (bind_listeners selects snap claims key route ref gw).gateway ≡ gateway_key key ref
  unfolding bind_listeners no_match
  listeners-gateway gw [] cs e f = rw (e, bind_listeners)
  listeners-gateway gw (l ∷ ls) [] e f = rw (e, f, bind_listeners)
  listeners-gateway gw (l ∷ ls) (c ∷ cs) e f =
      rw (e, f, bind_listeners) (attached-gateway (gateway_key key ref) _)

  class-gateway :
      (gw : Gateway) (o : Option ClassClaim)
      → (bind_class selects snap claims key route ref gw o).gateway ≡ gateway_key key ref
  unfolding bind_class no_match
  class-gateway gw none = refl
  class-gateway gw (some claim) = elim (Bool-cases claim.claimed) [
    | inr e ↦ rw e
    | inl e ↦ elim (Bool-cases claim.accepted) [
      | inr f ↦ rw (e, f)
      | inl f ↦ rw (e, f) (listeners-gateway gw (rsync_listeners gw) _ refl refl)
    ]
  ]

  -- A parentRef that is accepted is accepted at the Gateway to which it points.
  pub bind_parent-gateway :
      (bind_parent selects snap claims key route ref).accepted ≡ true
      → (bind_parent selects snap claims key route ref).gateway ≡ gateway_key key ref
  unfolding bind_parent no_match
  bind_parent-gateway h =
      elim (Bool-cases (
        not (get_or ref.group gateway_api_group == gateway_api_group)
        || not (get_or ref.kind "Gateway" == "Gateway"))) [
          | inl other ↦ cc (rw other at h)
          | inr ours ↦ elim (Option-cases (lookup (gateway_key key ref) snap.gateways)) [
            | inl e ↦ rw (ours, e, bind_parent)
            | inr (gw, e) ↦
                rw (ours, e, bind_parent) (class-gateway gw (lookup gw.class_name claims))
          ]
        ]
