-- ===== src/Server/Load/Alike.antt =====
-- loadConfig of pkg/server/server.go without log files, on servers that are started and have no TLS listener: whether
-- it accepts a configuration, and the table it then makes, do not depend on the server.
use rsync_gateway.Prelude.{
  ◌≡◌, refl, ap, true, false, List, [], Option, none, some, String, Result, ok, err, ◌>>=◌, ◌>>◌,
  map, Ensures, Ensures-bind, Ok-cases, inl, inr, if◌then◌else◌, Bool-cases, ℕ,
}
use rsync_gateway.Prelude.Int.{is_negative}
use rsync_gateway.Prelude.Keys.{Map}
use rsync_gateway.Server.{
  Config, ProxySettings, UpstreamConfig, Server, Target, build_module_targets, resolve_upstream,
}
use rsync_gateway.Server.Load.{
  World, check_non_negative, check_numbers, load_certificate, build_upstreams, sort_upstreams,
  check_listen_tls, server_started, prepare, update_upstream_queues, set_addresses, set_settings,
  commit, commit_after, load_config,
}
use rsync_gateway.Server.Load.Reload.{AllSound, update_upstream_queues-AllSound}

-- A server that listens, without TLS.
pub record Started (s : Server) : Type 0 where
  pub tcp : s.tcp_listener ≡ true
  pub tls : s.tls_listener ≡ false

check_listen_tls-Alike :
    (s t : Server) (p : ProxySettings)
    → Started s
    → Started t
    → check_listen_tls s p ≡ check_listen_tls t p
unfolding check_listen_tls server_started
check_listen_tls-Alike s t p a b = rw (a.tcp, a.tls, b.tcp, b.tls) refl

module _ (w : World) (c : Config) where
  prepare-Alike : (s t : Server) → Started s → Started t → prepare w s c false ≡ prepare w t c false
  unfolding prepare
  prepare-Alike s t a b =
      ap (λ checked. checked >>= λ _. rest) (check_listen_tls-Alike s t c.proxy a b)
    where
      rest : Result String (Option ℕ × List UpstreamConfig)
      rest = do
        cert ← load_certificate w c.proxy
        check_numbers c.proxy
        upstreams ← build_upstreams w c.proxy (sort_upstreams c.upstreams)
        ok (cert, map (resolve_upstream []) upstreams)

  -- The table that is made of the validated upstreams, where relay_idle_timeout passes.
  abbrev table_of :
      Result String (Option ℕ × List UpstreamConfig) → Option (Map String (List Target))
  table_of (err e) = none
  table_of (ok (cert, upstreams)) =
      if is_negative c.proxy.relay_idle_timeout_secs
      then none
      else some (build_module_targets upstreams)

  -- The table that the server is to have, none where the configuration is rejected.
  abbrev pub verdict : Server → Option (Map String (List Target))
  verdict s = table_of (prepare w s c false)

  pub verdict-Alike : (s t : Server) → Started s → Started t → verdict s ≡ verdict t
  verdict-Alike s t a b = ap table_of (prepare-Alike s t a b)

  -- Rejected with the table kept, or accepted with the table that is made.
  abbrev pub Obeys : Server → Option (Map String (List Target)) → Server × Option String → Type 0
  Obeys s none (s', o) = (s'.modules ≡ s.modules) × ((why : String) × (o ≡ some why))
  Obeys s (some table) (s', o) = (s'.modules ≡ table) × (o ≡ none)

  commit-Obeys :
      (s : Server) (cert : Option ℕ) (us : List UpstreamConfig)
      → AllSound s.upstream_queues
      → Ensures (Obeys s (table_of (ok (cert, us)))) (commit s c.proxy cert us)
  unfolding commit set_settings check_non_negative
  commit-Obeys s cert us a = elim (Bool-cases (is_negative c.proxy.relay_idle_timeout_secs)) [
    | inl e ↦ rw (e, commit) (refl, (_, refl))
    | inr e ↦
        rw (e, commit)
          (Ensures-bind AllSound _ (update_upstream_queues s.upstream_queues us [])
            (λ queues.
              ok (set_settings (record s { motd = c.proxy.motd }) c.proxy cert us queues, none))
            (update_upstream_queues-AllSound s.upstream_queues us [] a tt)
            (λ queues b. (refl, refl)))
  ]

  pub load_config-Obeys :
      (s : Server)
      → AllSound s.upstream_queues
      → Ensures (Obeys s (verdict s)) (load_config w s c false)
  unfolding load_config commit_after set_addresses
  load_config-Obeys s a = elim (Ok-cases (prepare w s c false)) [
    | inr (e, f) ↦ rw (f, load_config) (refl, (e, refl))
    | inl ((cert, us), f) ↦ rw (f, load_config) (commit-Obeys (set_addresses s c.proxy) cert us a)
  ]
