-- ===== src/Gateway/Conflicts/Older.antt =====
-- resolveModuleConflicts of internal/gateway/bind.go: a route that it takes a Gateway from has lost it
-- to a route that is no younger and keeps it.
use rsync_gateway.Prelude.{
  ◌≡◌, ◌≢◌, sym, ap, subst, inl, inr, String, List, [], ◌∷◌, All, All-map, Bool-cases, Option-cases,
  Distinct,
}
use rsync_gateway.Prelude.Keys.{◌==◌, Map, lookup}
use rsync_gateway.Gateway.Objects.{NamespacedName, NamespacedName_eq, Snapshot}
use rsync_gateway.Gateway.Conflicts.{
  Results, slice_at, modules_of, first_claimed, own_modules, reject_route, settle, settle_all,
  sort_routes, bound_routes, resolve_module_conflicts,
}
use rsync_gateway.Gateway.Conflicts.Reject.{HoldsIn, Holds-reject_other}
use rsync_gateway.Gateway.Conflicts.Settle.{Member, All-Member, Member-sort}
use rsync_gateway.Gateway.Conflicts.Winners.{Outcome, settle-Outcome}
use rsync_gateway.Gateway.Conflicts.Sorted.{
  All-sort_routes, Distinct-sort_routes, ByAge-sort_routes,
}
use rsync_gateway.Gateway.Conflicts.Disjoint.{Bound, bound_routes_takes}
use rsync_gateway.Gateway.Conflicts.Bound.{keys, Distinct-keys-bound_routes, bound_routes-Gathered}

module _ (snap : Snapshot) (g : NamespacedName) where
  settle_other :
      (gateway : NamespacedName) (ks : List NamespacedName) (owner : Map String NamespacedName)
      (results : Results) (j : NamespacedName)
      → gateway ≢ g
      → HoldsIn g j results
      → HoldsIn g j (settle snap gateway ks owner results)
  unfolding settle
  settle_other gateway [] owner results j n h = h
  settle_other gateway (k ∷ ks) owner results j n h =
      elim (Option-cases (first_claimed owner (modules_of snap k))) [
        | inl e ↦
            rw (e, settle)
              (settle_other gateway ks (own_modules k (modules_of snap k) owner) results j n h)
        | inr ((w, m), e) ↦
            rw (e, settle)
              (settle_other gateway ks owner (reject_route gateway k w m results) j n
                (Holds-reject_other gateway w m g k j results n h))
      ]

  settle_all_other :
      (bound : Bound) (results : Results) (j : NamespacedName)
      → All (λ h. g ≢ h) (keys bound)
      → HoldsIn g j results
      → HoldsIn g j (settle_all snap bound results)
  unfolding settle_all
  settle_all_other [] results j a h = h
  settle_all_other ((gateway, ks) ∷ bound) results j a h =
      settle_all_other bound (settle snap gateway (sort_routes snap ks) [] results) j a.1
        (settle_other gateway (sort_routes snap ks) [] results j (λ q. a.0 (sym q)) h)

  later :
      (bound : Bound) (results : Results) (k : NamespacedName)
      → All (λ h. g ≢ h) (keys bound)
      → Outcome snap g results k
      → Outcome snap g (settle_all snap bound results) k
  later bound results k a (inl h) = inl (settle_all_other bound results k a h)
  later bound results k a (inr b) = inr (record {
    winner = b.winner;
    contested = b.contested;
    wanted = b.wanted;
    served = b.served;
    no_younger = b.no_younger;
    holds = settle_all_other bound results b.winner a b.holds;
  })

  settle_all-Outcome :
      (bound : Bound) (results : Results) (k : NamespacedName)
      → Distinct (keys bound)
      → Distinct (slice_at g bound)
      → All (λ j. HoldsIn g j results) (slice_at g bound)
      → Member k (slice_at g bound)
      → Outcome snap g (settle_all snap bound results) k
  unfolding settle_all lookup
  settle_all-Outcome [] results k d e h m = absurd m
  settle_all-Outcome ((gateway, ks) ∷ bound) results k d e h m = elim (Bool-cases (gateway == g)) [
    | inr f ↦
        settle_all-Outcome bound (settle snap gateway (sort_routes snap ks) [] results) k d.1
          (rw f at e)
          (All-map (λ j. HoldsIn g j results)
            (λ j. HoldsIn g j (settle snap gateway (sort_routes snap ks) [] results))
            (λ j.
              settle_other gateway (sort_routes snap ks) [] results j
                (λ q. cc (f, (NamespacedName_eq.eqb_iff gateway g).1 q)))
            (slice_at g bound) (rw f at h))
          (rw f at m)
    | inl f ↦
        let same : gateway ≡ g = (NamespacedName_eq.eqb_iff gateway g).0 f in
        let after : Results = settle snap gateway (sort_routes snap ks) [] results in
        later bound after k (subst (λ x. All (λ h. x ≢ h) (keys bound)) same d.0) (
          All-Member (Outcome snap g after) k (sort_routes snap ks)
            (settle-Outcome snap g (sort_routes snap ks) [] results after
              (ap (λ (x : NamespacedName). settle snap x (sort_routes snap ks) [] results)
                (sym same))
              (Distinct-sort_routes snap ks (rw f at e)) (ByAge-sort_routes snap g ks)
              (All-sort_routes snap (λ j. HoldsIn g j results) ks (rw f at h)) (λ m w q. cc q))
            (Member-sort snap k ks (rw f at m)))
  ]

-- With one entry for each route, a route that is accepted on a Gateway stays accepted there, or a
-- module of its own is served by a route that is no younger and is accepted there in the end.
pub resolve_module_conflicts-Outcome :
    (snap : Snapshot) (results : Results) (g k : NamespacedName)
    → Distinct (keys results)
    → HoldsIn g k results
    → Outcome snap g (resolve_module_conflicts snap results) k
unfolding resolve_module_conflicts lookup
resolve_module_conflicts-Outcome snap results g k d h =
    let bound : Bound = bound_routes results [] in
    let gathered = bound_routes-Gathered g results [] d in
    settle_all-Outcome snap g bound results k (Distinct-keys-bound_routes results [] tt)
      (subst Distinct (sym gathered.appended) gathered.distinct)
      (subst (All (λ j. HoldsIn g j results)) (sym gathered.appended) gathered.hold)
      (bound_routes_takes g k results [] h)
