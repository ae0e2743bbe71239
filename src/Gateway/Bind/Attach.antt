-- ===== src/Gateway/Bind/Attach.antt =====
-- bindParent of internal/gateway/bind.go against a description of the Gateways that a parentRef may
-- attach to.
use rsync_gateway.Prelude.{
  ◌≡◌, refl, subst, sym, ap, ◌∙◌, ◌↔◌, inl, inr, true, false, not, ◌||◌, List, [], ◌∷◌, Option,
  none, some, String, get_or, Any, Bool-cases, Option-cases,
}
use rsync_gateway.Prelude.Keys.{◌==◌, String_eq, Map, lookup, other_kind_iff}
use rsync_gateway.Gateway.Objects.{
  NamespacedName, NamespacedName_eq, ParentReference, Listener, Gateway, RsyncRoute, Snapshot,
}
use rsync_gateway.Gateway.Claim.{ClassClaim}
use rsync_gateway.Gateway.Bind.{
  gateway_api_group, Selects, rsync_listeners, candidates, gateway_key, no_match, bind_listeners,
  bind_class, bind_parent,
}
use rsync_gateway.Gateway.Bind.Allows.{Allows, no_candidates, first_allowing_iff}

module _ (selects : Selects) (snap : Snapshot) (claims : Map String ClassClaim) where
  -- A Gateway that is there, of a class that is claimed and accepted, with a listener among the
  -- candidates that allows the route.
  pub record Attachable (key : NamespacedName) (route : RsyncRoute) (ref : ParentReference)
      : Type 0 where
    pub group : get_or ref.group gateway_api_group ≡ gateway_api_group
    pub kind : get_or ref.kind "Gateway" ≡ "Gateway"
    pub gw : Gateway
    pub found : lookup (gateway_key key ref) snap.gateways ≡ some gw
    pub claim : ClassClaim
    pub claims_class : lookup gw.class_name claims ≡ some claim
    pub claimed : claim.claimed ≡ true
    pub accepted : claim.accepted ≡ true
    pub allowed :
        Any
          (Allows selects (gateway_key key ref).namespace key route)
          (candidates ref.section_name (rsync_listeners gw))

  module _ (key : NamespacedName) (route : RsyncRoute) (ref : ParentReference) where
    abbrev here : String
    here = (gateway_key key ref).namespace

    listeners_iff :
        (gw : Gateway) (ls cs : List Listener)
        → rsync_listeners gw ≡ ls
        → candidates ref.section_name ls ≡ cs
        → ((bind_listeners selects snap claims key route ref gw).accepted ≡ true)
          ↔ Any (Allows selects here key route) cs
    unfolding bind_listeners no_match
    listeners_iff gw [] cs e f = (
      (λ h. cc (rw (e, bind_listeners) at h)),
      λ a.
          absurd (
            subst (Any (Allows selects here key route)) (sym f ∙ no_candidates ref.section_name) a),
    )
    listeners_iff gw (l ∷ ls) [] e f = ((λ h. cc (rw (e, f, bind_listeners) at h)), λ a. absurd a)
    listeners_iff gw (l ∷ ls) (c ∷ cs) e f =
        rw (e, f, bind_listeners)
          (first_allowing_iff selects key route here ref (gateway_key key ref) (c ∷ cs) [])

    class_iff :
        (gw : Gateway) (o : Option ClassClaim)
        → ((bind_class selects snap claims key route ref gw o).accepted ≡ true) ↔ (
            (claim : ClassClaim) × (o ≡ some claim)
            × (claim.claimed ≡ true)
            × (claim.accepted ≡ true)
            × Any
                (Allows selects here key route)
                (candidates ref.section_name (rsync_listeners gw)))
    unfolding bind_class no_match
    class_iff gw none = ((λ h. cc), λ a. cc (a.1))
    class_iff gw (some claim) = (forth, back)
      where
        inside :
            ((bind_listeners selects snap claims key route ref gw).accepted ≡ true)
            ↔ Any (Allows selects here key route) (candidates ref.section_name (rsync_listeners gw))
        inside = listeners_iff gw (rsync_listeners gw) _ refl refl

        forth :
            (bind_class selects snap claims key route ref gw (some claim)).accepted ≡ true
            → (c : ClassClaim) × (some claim ≡ some c)
              × (c.claimed ≡ true)
              × (c.accepted ≡ true)
              × Any
                  (Allows selects here key route)
                  (candidates ref.section_name (rsync_listeners gw))
        forth h = elim (Bool-cases claim.claimed) [
          | inr e ↦ cc (simp e at h)
          | inl e ↦ elim (Bool-cases claim.accepted) [
            | inr f ↦ cc (simp (e, f) at h)
            | inl f ↦ (claim, refl, e, f, inside.0 (simp (e, f) at h))
          ]
        ]

        back :
            ((c : ClassClaim) × (some claim ≡ some c)
              × (c.claimed ≡ true)
              × (c.accepted ≡ true)
              × Any
                  (Allows selects here key route)
                  (candidates ref.section_name (rsync_listeners gw)))
            → (bind_class selects snap claims key route ref gw (some claim)).accepted ≡ true
        back (c, e, f, g, a) =
            let same : claim ≡ c = cc e in
            let f' : claim.claimed ≡ true = ap (λ (x : ClassClaim). x.claimed) same ∙ f in
            let g' : claim.accepted ≡ true = ap (λ (x : ClassClaim). x.accepted) same ∙ g in
            simp (f', g') (inside.1 a)

    -- bindParent accepts a parentRef exactly when it points to a Gateway of the snapshot, whose class
    -- is claimed and accepted, and an rsync listener among those that the parentRef may use allows
    -- the route.
    pub bind_parent_iff :
        ((bind_parent selects snap claims key route ref).accepted ≡ true) ↔ Attachable key route ref
    unfolding bind_parent no_match
    bind_parent_iff =
        elim (Bool-cases (
          not (get_or ref.group gateway_api_group == gateway_api_group)
          || not (get_or ref.kind "Gateway" == "Gateway"))) [
            | inl other ↦ rw other ((λ h. cc), λ a. cc (kinds.1 (a.group, a.kind)))
            | inr ours ↦ elim (Option-cases (lookup (gateway_key key ref) snap.gateways)) [
              | inl e ↦ ((λ h. cc (rw (ours, e, bind_parent) at h)), λ a. cc (a.found))
              | inr (gw, e) ↦
                  let inside = class_iff gw (lookup gw.class_name claims) in
                  rw (ours, e, bind_parent)
                    (
                      (λ h.
                          let (claim, f, g, i, a) = inside.0 h in
                          record {
                            group = (kinds.0 ours).0;
                            kind = (kinds.0 ours).1;
                            gw = gw;
                            found = e;
                            claim = claim;
                            claims_class = f;
                            claimed = g;
                            accepted = i;
                            allowed = a;
                          }),
                      λ a. inside.1 (transported gw a (cc (a.found, e))),
                    )
            ]
          ]
      where
        kinds :
            ((not (get_or ref.group gateway_api_group == gateway_api_group)
                || not (get_or ref.kind "Gateway" == "Gateway"))
              ≡ false)
            ↔ ((get_or ref.group gateway_api_group ≡ gateway_api_group)
                × (get_or ref.kind "Gateway" ≡ "Gateway"))
        kinds =
            other_kind_iff (get_or ref.group gateway_api_group) gateway_api_group
              (get_or ref.kind "Gateway") "Gateway"

        Bound : Gateway → Type 0
        Bound g =
            (claim : ClassClaim) × (lookup g.class_name claims ≡ some claim)
            × (claim.claimed ≡ true)
            × (claim.accepted ≡ true)
            × Any (Allows selects here key route) (candidates ref.section_name (rsync_listeners g))

        transported : (gw : Gateway) (a : Attachable key route ref) → a.gw ≡ gw → Bound gw
        transported gw a same =
            subst Bound same (a.claim, a.claims_class, a.claimed, a.accepted, a.allowed)
