-- ===== src/Gateway/Status/Gateways.antt =====
-- BuildGatewayStatus of internal/gateway/status.go: a rebuilt status counts as unchanged.
use rsync_gateway.Prelude.{
  ◌≡◌, ◌≢◌, refl, sym, ap, ◌∙◌, subst, Bool, true, not, List, [], ◌∷◌, ◌++◌, map, append-nil,
  keep_if, keep_if-append, Bool-cases, inl, inr, ℕ, String, All, Distinct,
}
use rsync_gateway.Prelude.Keys.{◌==◌, String_eq, ==_refl}
use rsync_gateway.Api.{protocol_rsync}
use rsync_gateway.Gateway.Objects.{Condition, ListenerStatus, Listener, Gateway}
use rsync_gateway.Gateway.Conditions.{listener_status_equal, listener_statuses_equal}
use rsync_gateway.Gateway.Conditions.Content.{content}
use rsync_gateway.Gateway.Conditions.Equal.{listener_status_equal_lem, listener_statuses_equal_lem}
use rsync_gateway.Gateway.Status.{
  is_managed_listener, existing_listener, listener_accepted_condition,
  listener_programmed_condition, listener_status, statuses_of, build_gateway_status,
}
use rsync_gateway.Gateway.Status.Routes.{keep_if_idem, content-stabilise}

module _ (now : Condition → ℕ) (gw : Gateway) (served : List ℕ) where
  abbrev foreign : ListenerStatus → Bool
  foreign ls = not (is_managed_listener gw.listeners ls.name)

  -- Every listener of this list is managed if it is an rsync listener.
  abbrev Managed : List Listener → Type 0
  Managed ls =
      All
        (λ l.
          (l.protocol == protocol_rsync) ≡ true → is_managed_listener gw.listeners l.name ≡ true)
        ls

  none_foreign :
      (ls : List Listener) → Managed ls → keep_if foreign (statuses_of now gw served ls) ≡ []
  unfolding statuses_of listener_status
  none_foreign [] m = refl
  none_foreign (l ∷ ls) m = elim (Bool-cases (l.protocol == protocol_rsync)) [
    | inl e ↦ rw (e, m.0 e) (none_foreign ls m.1)
    | inr e ↦ rw e (none_foreign ls m.1)
  ]

  abbrev is_rsync : Listener → Bool
  is_rsync l = l.protocol == protocol_rsync

  statuses_of-map :
      (ls : List Listener)
      → statuses_of now gw served ls ≡ map (listener_status now gw served) (keep_if is_rsync ls)
  unfolding statuses_of
  statuses_of-map [] = refl
  statuses_of-map (l ∷ ls) = elim (Bool-cases (l.protocol == protocol_rsync)) [
    | inl e ↦ rw (e, statuses_of-map ls)
    | inr e ↦ rw e (statuses_of-map ls)
  ]

  said-listener_status :
      (l : Listener)
      → map content (listener_status now gw served l).conditions
        ≡ map content
            (listener_accepted_condition gw l ∷ listener_programmed_condition gw l served ∷ [])
  unfolding listener_status
  said-listener_status l =
      simp (content-stabilise now (existing_listener l.name gw.listener_statuses))

abbrev Claims : List Listener → Listener → Type 0
Claims all l = (l.protocol == protocol_rsync) ≡ true → is_managed_listener all l.name ≡ true

Claims-behind :
    (x : Listener) (all ls : List Listener)
    → All (λ n. x.name ≢ n) (map (λ (l : Listener). l.name) ls)
    → All (Claims all) ls
    → All (Claims (x ∷ all)) ls
unfolding is_managed_listener
Claims-behind x all [] d c = tt
Claims-behind x all (l ∷ ls) d c = (
  (λ e. elim (Bool-cases (x.name == l.name)) [
    | inl f ↦ absurd (d.0 ((String_eq.eqb_iff x.name l.name).0 f))
    | inr f ↦ rw f (c.0 e)
  ]),
  Claims-behind x all ls d.1 c.1,
)

-- With no name twice, an rsync listener is managed under its name.
Claims-own :
    (ls : List Listener) → Distinct (map (λ (l : Listener). l.name) ls) → All (Claims ls) ls
unfolding is_managed_listener
Claims-own [] d = tt
Claims-own (l ∷ ls) d =
    ((λ e. rw (==_refl l.name) e), Claims-behind l ls ls d.0 (Claims-own ls d.1))

abbrev listener_names : Gateway → List String
listener_names gw = map (λ (l : Listener). l.name) gw.listeners

module _ (now : Condition → ℕ) (gw : Gateway) (served : List ℕ) where
  abbrev ours : List ListenerStatus
  ours = map (listener_status now gw served) (keep_if (is_rsync now gw served) gw.listeners)

  build_gateway_status-shape :
      (build_gateway_status now gw served).0
      ≡ keep_if (foreign now gw served) gw.listener_statuses ++ ours
  unfolding build_gateway_status
  build_gateway_status-shape =
      ap (λ xs. keep_if (foreign now gw served) gw.listener_statuses ++ xs)
        (statuses_of-map now gw served gw.listeners)

  foreign-build_gateway_status :
      Distinct (listener_names gw)
      → keep_if (foreign now gw served) (build_gateway_status now gw served).0
        ≡ keep_if (foreign now gw served) gw.listener_statuses
  unfolding build_gateway_status
  foreign-build_gateway_status d =
      keep_if-append (foreign now gw served) (keep_if (foreign now gw served) gw.listener_statuses)
        (statuses_of now gw served gw.listeners)
      ∙ rw
          (
            none_foreign now gw served gw.listeners (Claims-own gw.listeners d),
            keep_if_idem (foreign now gw served) gw.listener_statuses,
          )
          (append-nil (keep_if (foreign now gw served) gw.listener_statuses))

module _ (now later : Condition → ℕ) (gw rebuilt : Gateway) (served : List ℕ) where
  listener_status-equal :
      rebuilt.generation ≡ gw.generation
      → (l : Listener)
      → listener_status_equal
          (listener_status now gw served l)
          (listener_status later rebuilt served l)
        ≡ true
  listener_status-equal same l =
      listener_status_equal_lem (listener_status now gw served l)
        (listener_status later rebuilt served l) (unfold listener_status in refl)
        (unfold listener_status in refl) (unfold listener_status in refl)
        (said-listener_status now gw served l
          ∙ said_same
          ∙ sym (said-listener_status later rebuilt served l))
    where
      said_same :
          map content
            (listener_accepted_condition gw l ∷ listener_programmed_condition gw l served ∷ [])
          ≡ map content (
              listener_accepted_condition rebuilt l
              ∷ listener_programmed_condition rebuilt l served
              ∷ [])
      said_same = unfold listener_accepted_condition listener_programmed_condition in simp same

-- For a Gateway without two listeners of one name: its listener statuses that are built from the
-- ones just written, for the same ports and at any time, are equal to them by ListenerStatusesEqual.
pub build_gateway_status-again :
    (now later : Condition → ℕ) (gw : Gateway) (served : List ℕ)
    → Distinct (listener_names gw)
    → listener_statuses_equal
        (build_gateway_status now gw served).0
        (build_gateway_status later
          (record gw {
            listener_statuses = (build_gateway_status now gw served).0;
            conditions = (build_gateway_status now gw served).1;
          })
          served).0
      ≡ true
build_gateway_status-again now later gw served d =
    subst (λ xs. listener_statuses_equal xs (build_gateway_status later rebuilt served).0 ≡ true)
      (sym (build_gateway_status-shape now gw served))
      (subst (λ ys. listener_statuses_equal (kept ++ ours now gw served) ys ≡ true)
        (sym (
          build_gateway_status-shape later rebuilt served
          ∙ ap (λ xs. xs ++ ours later rebuilt served)
              (foreign-build_gateway_status now gw served d)))
        (listener_statuses_equal_lem kept (listener_status now gw served)
          (listener_status later rebuilt served) (keep_if (is_rsync now gw served) gw.listeners)
          (listener_status-equal now later gw rebuilt served refl)))
  where
    rebuilt : Gateway
    rebuilt = record gw {
      listener_statuses = (build_gateway_status now gw served).0;
      conditions = (build_gateway_status now gw served).1;
    }

    kept : List ListenerStatus
    kept = keep_if (foreign now gw served) gw.listener_statuses
