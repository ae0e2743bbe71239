-- ===== src/Gateway/Backends/Resolves.antt =====
-- ResolveBackends of internal/gateway/backends.go against a description of the refs that resolve.
use mathlib.Core.Path.{fun_ext}
use rsync_gateway.Prelude.{
  ℕ, ◌≡◌, refl, sym, ◌∙◌, ◌↔◌, ◌⊎◌, inl, inr, true, false, not, ◌||◌, List, [], ◌∷◌, ◌++◌,
  append-nil, append_assoc, some, String, if◌then◌else◌, is_some, get_or, arith, All, Any,
  Bool-cases, Option-cases, subst,
}
use rsync_gateway.Prelude.Keys.{◌==◌, String_eq, lookup, other_kind_iff}
use rsync_gateway.Api.{core_group}
use rsync_gateway.Gateway.Objects.{
  NamespacedName, NamespacedName_eq, BackendRef, RsyncRoute, Snapshot, grants_of,
}
use rsync_gateway.Gateway.Backends.{
  BackendStatus, ResolvedBackend, not_found_message, not_permitted_message, kind_message,
  no_port_message, namespace_or, fail, is_zero_weight, reference_grant_permits, resolve_service,
  resolve_one, resolve_all, resolve_backends,
}
use rsync_gateway.Gateway.Backends.Grants.{Permits, reference_grant_permits_iff}

module _ (snap : Snapshot) (route : NamespacedName) where
  abbrev pub target : BackendRef → NamespacedName
  target ref = record { namespace = namespace_or ref.namespace route.namespace; name = ref.name }

  -- The route may name Services of this namespace: its own, or a grant there says so.
  abbrev pub Permitted : BackendRef → Type 0
  Permitted ref =
      ((target ref).namespace ≡ route.namespace)
      ⊎ Any (Permits route.namespace ref.name)
          (grants_of (target ref).namespace snap.reference_grants)

  -- A core Service that exists, with a port, and that the route may name.
  pub record Resolvable (ref : BackendRef) : Type 0 where
    pub port : ℕ
    pub has_port : ref.port ≡ some port
    pub group : get_or ref.group "" ≡ core_group
    pub kind : get_or ref.kind "Service" ≡ "Service"
    pub present : is_some (lookup (target ref) snap.services) ≡ true
    pub permitted : Permitted ref

  abbrev backend : BackendRef → ℕ → ResolvedBackend
  backend ref port = record { service = target ref; port = port }

  -- The backends of a list of refs: those of the refs that resolve and have a weight other than 0.
  pub data Pool : List BackendRef → List ResolvedBackend → Type 0 where
    done : Pool [] []
    keep :
        {ref : BackendRef} {refs : List BackendRef} {bs : List ResolvedBackend} (r : Resolvable ref)
        → is_zero_weight ref.weight ≡ false
        → Pool refs bs
        → Pool (ref ∷ refs) (backend ref r.port ∷ bs)
    idle :
        {ref : BackendRef} {refs : List BackendRef} {bs : List ResolvedBackend}
        → Resolvable ref
        → is_zero_weight ref.weight ≡ true
        → Pool refs bs
        → Pool (ref ∷ refs) bs
    skip :
        {ref : BackendRef} {refs : List BackendRef} {bs : List ResolvedBackend}
        → ¬ Resolvable ref
        → Pool refs bs
        → Pool (ref ∷ refs) bs

  abbrev Acc : Type 0
  Acc = List ResolvedBackend × BackendStatus

  -- What one round of the loop does.
  abbrev Round : BackendRef → (Acc → Acc) → Type 0
  Round ref f =
      ((r : Resolvable ref) × (is_zero_weight ref.weight ≡ false)
        × ((acc : Acc) → f acc ≡ (acc.0 ++ backend ref r.port ∷ [], acc.1)))
      ⊎ (Resolvable ref × (is_zero_weight ref.weight ≡ true) × ((acc : Acc) → f acc ≡ acc))
      ⊎ (¬ Resolvable ref
          × ((reason : String) × (message : String) × ((acc : Acc)
                → f acc ≡ (acc.0, fail reason message acc.1))))

  not-Permitted :
      (ref : BackendRef)
      → ((target ref).namespace == route.namespace) ≡ false
      → reference_grant_permits snap route.namespace (target ref).namespace ref.name ≡ false
      → ¬ Permitted ref
  not-Permitted ref n g (inl e) = cc ((String_eq.eqb_iff _ _).1 e)
  not-Permitted ref n g (inr a) =
      cc ((reference_grant_permits_iff snap route.namespace (target ref).namespace ref.name).1 a)

  pooled :
      (ref : BackendRef) (r : Resolvable ref) (f : Acc → Acc)
      → ((acc : Acc)
          → f acc ≡ (
              if not (is_zero_weight ref.weight)
              then (acc.0 ++ backend ref r.port ∷ [], acc.1)
              else (acc.0, acc.1)))
      → Round ref f
  pooled ref r f e = elim (Bool-cases (is_zero_weight ref.weight)) [
    | inl z ↦ inr (inl (r, z, λ acc. e acc ∙ rw z))
    | inr n ↦ inl (r, n, λ acc. e acc ∙ rw n)
  ]

  service-Round :
      (ref : BackendRef) (port : ℕ)
      → ref.port ≡ some port
      → get_or ref.group "" ≡ core_group
      → get_or ref.kind "Service" ≡ "Service"
      → Round ref (resolve_service snap route ref port)
  unfolding resolve_service
  service-Round ref port p g k = elim (Bool-cases (is_some (lookup (target ref) snap.services))) [
    | inr absent ↦ inr (
        inr (
          λ r. cc (r.present),
          ("BackendNotFound", not_found_message (target ref), λ acc. rw absent),
        ))
    | inl present ↦ elim (Bool-cases ((target ref).namespace == route.namespace)) [
      | inl own ↦
          pooled ref (here present (inl ((String_eq.eqb_iff _ _).0 own))) _ λ acc. rw (present, own)
      | inr other ↦
          elim (Bool-cases
            (reference_grant_permits snap route.namespace (target ref).namespace ref.name)) [
              | inl granted ↦
                  pooled ref
                    (here present (inr ((reference_grant_permits_iff snap _ _ _).0 granted))) _
                    λ acc. rw (present, other, granted)
              | inr refused ↦ inr (
                  inr (
                    λ r. not-Permitted ref other refused r.permitted,
                    (
                      "RefNotPermitted",
                      not_permitted_message route (target ref),
                      λ acc. rw (present, other, refused),
                    ),
                  ))
            ]
    ]
  ]
    where
      here : is_some (lookup (target ref) snap.services) ≡ true → Permitted ref → Resolvable ref
      here present permitted = record {
        port = port;
        has_port = p;
        group = g;
        kind = k;
        present = present;
        permitted = permitted;
      }

  one-Round : (ref : BackendRef) → Round ref (resolve_one snap route ref)
  unfolding resolve_one resolve_service
  one-Round ref =
      elim (Bool-cases
        (not (get_or ref.group "" == core_group) || not (get_or ref.kind "Service" == "Service"))) [
          | inl other ↦ inr (
              inr (
                λ r. cc (kinds.1 (r.group, r.kind)),
                (
                  "InvalidKind",
                  kind_message (get_or ref.group "") (get_or ref.kind "Service"),
                  λ acc. rw (other, resolve_one),
                ),
              ))
          | inr core ↦ elim (Option-cases ref.port) [
            | inl no_port ↦ inr (
                inr (
                  λ r. cc (r.has_port),
                  ("BackendNotFound", no_port_message ref, λ acc. rw (core, no_port, resolve_one)),
                ))
            | inr (port, e) ↦
                subst (Round ref) (fun_ext λ acc. rw (core, e, resolve_one))
                  (service-Round ref port e (kinds.0 core).0 (kinds.0 core).1)
          ]
        ]
    where
      kinds :
          ((not (get_or ref.group "" == core_group) || not (get_or ref.kind "Service" == "Service"))
            ≡ false)
          ↔ ((get_or ref.group "" ≡ core_group) × (get_or ref.kind "Service" ≡ "Service"))
      kinds = other_kind_iff (get_or ref.group "") core_group (get_or ref.kind "Service") "Service"

  -- The failure that stays is the first.
  abbrev Failed : BackendStatus → Type 0
  Failed st = st.resolved ≡ false

  fail-Failed : (reason message : String) (st : BackendStatus) → Failed (fail reason message st)
  unfolding fail
  fail-Failed reason message st = ground arith

  resolve_all-Failed :
      (refs : List BackendRef) (acc : Acc)
      → Failed acc.1
      → Failed (resolve_all snap route refs acc).1
  unfolding resolve_all fail
  resolve_all-Failed [] acc h = h
  resolve_all-Failed (ref ∷ refs) acc h = elim (one-Round ref) [
    | inl (r, n, e) ↦ rw (e acc, resolve_all) (resolve_all-Failed refs _ h)
    | inr (inl (r, z, e)) ↦ rw (e acc, resolve_all) (resolve_all-Failed refs acc h)
    | inr (inr (b, (reason, message, e))) ↦
        rw (e acc, resolve_all) (resolve_all-Failed refs _ (fail-Failed reason message acc.1))
  ]

  -- The loop's two results.
  resolve_all_lem :
      (refs : List BackendRef) (acc : Acc)
      → (bs : List ResolvedBackend) × Pool refs bs
        × ((resolve_all snap route refs acc).0 ≡ acc.0 ++ bs)
        × (All Resolvable refs → (resolve_all snap route refs acc).1 ≡ acc.1)
        × ((resolve_all snap route refs acc).1.resolved ≡ true → All Resolvable refs)
  unfolding resolve_all
  resolve_all_lem [] acc = ([], done, sym (append-nil acc.0), (λ _. refl), λ _. tt)
  resolve_all_lem (ref ∷ refs) acc = elim (one-Round ref) [
    | inl (r, n, e) ↦
        let next : Acc = (acc.0 ++ backend ref r.port ∷ [], acc.1) in
        let (bs, p, u, s, t) = resolve_all_lem refs next in
        rw (e acc, resolve_all)
          (
            backend ref r.port ∷ bs,
            keep r n p,
            u ∙ append_assoc acc.0 (backend ref r.port ∷ []) bs,
            (λ a. s a.1),
            λ h. (r, t h),
          )
    | inr (inl (r, z, e)) ↦
        let (bs, p, u, s, t) = resolve_all_lem refs acc in
        rw (e acc, resolve_all) (bs, idle r z p, u, (λ a. s a.1), λ h. (r, t h))
    | inr (inr (b, (reason, message, e))) ↦
        let next : Acc = (acc.0, fail reason message acc.1) in
        let (bs, p, u, s, t) = resolve_all_lem refs next in
        rw (e acc, resolve_all)
          (
            bs,
            skip b p,
            u,
            (λ a. absurd (b a.0)),
            λ h. cc (h, resolve_all-Failed refs next (fail-Failed reason message acc.1)),
          )
  ]

  -- ResolveBackends returns the backends of the refs that resolve and whose weight is not 0, in
  -- order; its status is resolved exactly when every ref resolves, the ones of weight 0 too.
  pub resolve_backends-Pool :
      (r : RsyncRoute)
      → Pool r.backend_refs (resolve_backends snap route r).0
        × (((resolve_backends snap route r).1.resolved ≡ true) ↔ All Resolvable r.backend_refs)
  unfolding resolve_backends
  resolve_backends-Pool r =
      let (bs, p, u, s, t) = resolve_all_lem r.backend_refs start in
      (subst (Pool r.backend_refs) (sym u) p, (t, λ a. rw (s a)))
    where
      start : Acc
      start = ([], record { resolved = true; reason = "ResolvedRefs"; message = "" })
