-- ===== src/Translate/Origins.antt =====
-- BuildServerConfig of internal/translate/translate.go: where the upstreams of its result come from, and that
-- it does not dereference a nil spec when each route has one.
use rsync_gateway.Prelude.{
  ℕ, suc, ◌≡◌, sym, subst, inl, inr, List, [], ◌∷◌, Option, none, some, String, Result, ok, err,
  ◌>>=◌, All, Bool-cases,
}
use rsync_gateway.Prelude.Keys.{◌==◌, String_eq, Map, insert}
use rsync_gateway.Api.{GatewayConfigSpec, ParseDuration}
use rsync_gateway.Server.{Upstream, Config, ProxySettings}
use rsync_gateway.Translate.{
  RouteBackend, RouteInput, Failure, rejected, nil_dereference, rejecting, proxy_settings,
  backend_upstream, add_backends, or_primary, check_spec, add_routes, build_server_config,
}

-- No nil dereference, and `Q` of a value.
abbrev pub Safe {ℓ} : {A : Type ℓ} → (A → Type 0) → Result Failure A → Type 0
Safe Q (ok a) = Q a
Safe Q (err (rejected e)) = Unit
Safe Q (err nil_dereference) = ⊥

Safe-bind {ℓ κ} :
    {A : Type ℓ} {B : Type κ} (Q : A → Type 0) (R : B → Type 0) (m : Result Failure A)
    (f : A → Result Failure B)
    → Safe Q m
    → ((a : A) → Q a → Safe R (f a))
    → Safe R (m >>= f)
Safe-bind Q R (ok a) f h next = next a h
Safe-bind Q R (err (rejected e)) f h next = tt
Safe-bind Q R (err nil_dereference) f h next = absurd h

Safe-rejecting {ℓ} :
    {A : Type ℓ} (p : String) (m : Result String A) → Safe (λ _. Unit {0}) (rejecting p m)
unfolding rejecting
Safe-rejecting p (ok a) = tt
Safe-rejecting p (err e) = tt

module _ (P : Upstream → Type 0) where
  abbrev pub Values : Map String Upstream → Type 0
  Values m = All (λ e. P e.1) m

  -- The upstreams of a route are as they should be.
  abbrev pub Backed : RouteInput → RouteBackend → Type 0
  Backed r b = (spec : GatewayConfigSpec) → P (backend_upstream r spec b)

  pub record Prepared (r : RouteInput) : Type 0 where
    pub spec : GatewayConfigSpec
    pub has_spec : r.config ≡ some spec
    pub backed : All (Backed r) r.backends

  pub Values-insert :
      (name : String) (u : Upstream) (m : Map String Upstream)
      → P u
      → Values m
      → Values (insert name u m)
  unfolding insert
  Values-insert name u [] p h = (p, tt)
  Values-insert name u ((k, v) ∷ m) p h = elim (Bool-cases (k == name)) [
    | inl e ↦ rw e (p, h.1)
    | inr e ↦ rw e (h.0, Values-insert name u m p h.1)
  ]

  add_backends-Safe :
      (r : RouteInput) (spec : GatewayConfigSpec) (i : ℕ) (bs : List RouteBackend)
      (m : Map String Upstream)
      → All (Backed r) bs
      → Values m
      → Safe Values (add_backends r (some spec) i bs m)
  unfolding add_backends
  add_backends-Safe r spec i [] m h v = v
  add_backends-Safe r spec i (b ∷ bs) m h v =
      add_backends-Safe r spec (suc i) bs _ h.1 (Values-insert _ _ m (h.0 spec) v)

  module _ (parse : ParseDuration) (primary : Option GatewayConfigSpec) where
    check_spec-Safe :
        (r : RouteInput) (o : Option GatewayConfigSpec)
        → Safe (λ _. Unit {0}) (check_spec parse r.route o)
    unfolding check_spec
    check_spec-Safe r none = tt
    check_spec-Safe r (some spec) = Safe-rejecting _ _

    add_routes-Safe :
        (rs : List RouteInput) (m : Map String Upstream)
        → All Prepared rs
        → Values m
        → Safe Values (add_routes parse primary rs m)
    unfolding add_routes
    add_routes-Safe [] m h v = v
    add_routes-Safe (r ∷ rs) m h v =
        let backends = add_backends r (or_primary r.config primary) 0 r.backends m in
        Safe-bind (λ _. Unit {0}) Values (check_spec parse r.route (or_primary r.config primary))
          (λ _. backends >>= λ m'. add_routes parse primary rs m')
          (check_spec-Safe r (or_primary r.config primary))
          (λ _ _.
            Safe-bind Values Values backends (λ m'. add_routes parse primary rs m')
              (subst (λ o. Safe Values (add_backends r (or_primary o primary) 0 r.backends m))
                (sym h.0.has_spec) (add_backends-Safe r h.0.spec 0 r.backends m h.0.backed v))
              (λ m' v'. add_routes-Safe rs m' h.1 v'))

    -- With a spec for each route BuildServerConfig never dereferences nil, and all its upstreams come from
    -- the routes.
    pub build_server_config-Safe :
        (rs : List RouteInput)
        → All Prepared rs
        → Safe (λ c. Values c.upstreams) (build_server_config parse primary rs)
    unfolding build_server_config
    build_server_config-Safe rs h =
        let whole : ProxySettings → Map String Upstream → Result Failure Config =
          λ p m. ok (record { proxy = p; upstreams = m }) in
        Safe-bind (λ _. Unit {0}) (λ c. Values c.upstreams)
          (rejecting "invalid GatewayConfig: " (proxy_settings parse primary))
          (λ p. add_routes parse primary rs [] >>= whole p)
          (Safe-rejecting _ (proxy_settings parse primary))
          (λ p _.
            Safe-bind Values (λ c. Values c.upstreams) (add_routes parse primary rs []) (whole p)
              (add_routes-Safe rs [] h tt) (λ m v. v))
