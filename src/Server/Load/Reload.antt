-- ===== src/Server/Load/Reload.antt =====
-- loadConfig of pkg/server/server.go: a reload does not break the queues, and one that is rejected
-- changes nothing.
use rsync_gateway.Prelude.{
  ◌≡◌, ◌≢◌, refl, sym, bind-ok, subst, Bool, true, false, List, [], ◌∷◌, Option, none, some, String,
  ok, Ensures, Ensures-bind, All, Bool-cases, inl, inr, Ok-cases, ℕ, if◌then◌else◌,
}
use rsync_gateway.Prelude.Int.{is_negative}
use rsync_gateway.Prelude.Keys.{◌==◌, String_eq, Map, lookup, insert}
use rsync_gateway.Queue.{Queue, new, set_max}
use rsync_gateway.Queue.History.{IsSound, new-IsSound, set_max-IsSound}
use rsync_gateway.Server.{Config, ProxySettings, UpstreamConfig, Server}
use rsync_gateway.Server.Load.{
  World, check_non_negative, prepare, open_logs, update_upstream_queues, set_addresses,
  set_settings, commit, commit_after, load_config,
}

abbrev pub AllSound : Map String Queue → Type 0
AllSound m = All (λ e. IsSound e.1) m

AllSound-insert :
    (name : String) (q : Queue) (m : Map String Queue)
    → IsSound q
    → AllSound m
    → AllSound (insert name q m)
unfolding insert
AllSound-insert name q [] s a = (s, tt)
AllSound-insert name q ((n, p) ∷ m) s a = elim (Bool-cases (n == name)) [
  | inl e ↦ rw e (s, a.1)
  | inr e ↦ rw e (a.0, AllSound-insert name q m s a.1)
]

AllSound-lookup :
    (name : String) (q : Queue) (m : Map String Queue)
    → AllSound m
    → lookup name m ≡ some q
    → IsSound q
unfolding lookup
AllSound-lookup name q [] a e = cc e
AllSound-lookup name q ((n, p) ∷ m) a e = elim (Bool-cases (n == name)) [
  | inl f ↦ let same : p ≡ q = cc (rw f at e) in subst IsSound same a.0
  | inr f ↦ AllSound-lookup name q m a.1 (rw f at e)
]

resized :
    (old : Map String Queue) (u : UpstreamConfig) (o : Option Queue)
    → lookup u.name old ≡ o
    → AllSound old
    → Ensures IsSound (elim o [
      | none ↦ ok (new u.max_active_conns u.max_queued_conns)
      | some q ↦ set_max u.max_active_conns u.max_queued_conns q
    ])
resized old u none e a = new-IsSound u.max_active_conns u.max_queued_conns
resized old u (some q) e a =
    set_max-IsSound u.max_active_conns u.max_queued_conns q (AllSound-lookup u.name q old a e)

pub update_upstream_queues-AllSound :
    (old : Map String Queue) (us : List UpstreamConfig) (queues : Map String Queue)
    → AllSound old
    → AllSound queues
    → Ensures AllSound (update_upstream_queues old us queues)
unfolding update_upstream_queues
update_upstream_queues-AllSound old [] queues a b = b
update_upstream_queues-AllSound old (u ∷ us) queues a b =
    Ensures-bind IsSound AllSound
      (elim (lookup u.name old) [
        | none ↦ ok (new u.max_active_conns u.max_queued_conns)
        | some q ↦ set_max u.max_active_conns u.max_queued_conns q
      ])
      (λ q. update_upstream_queues old us (insert u.name q queues))
      (resized old u (lookup u.name old) refl a)
      λ q s.
        update_upstream_queues-AllSound old us (insert u.name q queues) a
          (AllSound-insert u.name q queues s b)

abbrev pub QueuesSound : Server × Option String → Type 0
QueuesSound r = AllSound r.0.upstream_queues

commit-QueuesSound :
    (s : Server) (p : ProxySettings) (cert : Option ℕ) (us : List UpstreamConfig)
    → AllSound s.upstream_queues
    → Ensures QueuesSound (commit s p cert us)
unfolding commit set_settings
commit-QueuesSound s p cert us a =
    elim (Ok-cases (check_non_negative "relay_idle_timeout" p.relay_idle_timeout_secs)) [
      | inr (e, f) ↦ rw (f, commit) a
      | inl (x, f) ↦
          rw (f, commit)
            (Ensures-bind AllSound QueuesSound (update_upstream_queues s.upstream_queues us [])
              (λ queues. ok (set_settings (record s { motd = p.motd }) p cert us queues, none))
              (update_upstream_queues-AllSound s.upstream_queues us [] a tt) λ queues b. b)
    ]

open_logs-queues :
    (w : World) (s : Server) (p : ProxySettings)
    → (open_logs w s p).0.upstream_queues ≡ s.upstream_queues
unfolding open_logs
open_logs-queues w s p = elim (Ok-cases (w.set_file p.access_log)) [
  | inr (e, f) ↦ rw (f, open_logs)
  | inl (x, f) ↦ elim (Ok-cases (w.set_file p.error_log)) [
    | inr (e, g) ↦ rw (f, g, open_logs)
    | inl (y, g) ↦ rw (f, g, open_logs)
  ]
]

commit_after-QueuesSound :
    (r : Server × Option String) (p : ProxySettings) (cert : Option ℕ) (us : List UpstreamConfig)
    → QueuesSound r
    → Ensures QueuesSound (commit_after r p cert us)
unfolding commit_after
commit_after-QueuesSound (s, some why) p cert us a = a
commit_after-QueuesSound (s, none) p cert us a = commit-QueuesSound s p cert us a

module _ (w : World) (s : Server) (c : Config) where
  opened-QueuesSound :
      (open_log : Bool)
      → AllSound s.upstream_queues
      → QueuesSound (
          if open_log
          then open_logs w (set_addresses s c.proxy) c.proxy
          else (set_addresses s c.proxy, none))
  unfolding set_addresses
  opened-QueuesSound true a =
      subst AllSound (sym (open_logs-queues w (set_addresses s c.proxy) c.proxy)) a
  opened-QueuesSound false a = a

  -- Whatever the configuration, and whatever the system answers, loadConfig never panics and leaves
  -- the queue of every upstream sound, if the queues were sound before.
  pub load_config-QueuesSound :
      (open_log : Bool)
      → AllSound s.upstream_queues
      → Ensures QueuesSound (load_config w s c open_log)
  unfolding load_config
  load_config-QueuesSound open_log a = elim (Ok-cases (prepare w s c open_log)) [
    | inr (e, f) ↦ rw (f, load_config) a
    | inl ((cert, us), f) ↦
        rw (f, load_config)
          (commit_after-QueuesSound _ c.proxy cert us (opened-QueuesSound open_log a))
  ]

  commit-accepted :
      (cert : Option ℕ) (us : List UpstreamConfig) (t s' : Server) (why : String)
      → is_negative c.proxy.relay_idle_timeout_secs ≡ false
      → commit t c.proxy cert us ≢ ok (s', some why)
  unfolding commit check_non_negative
  commit-accepted cert us t s' why n h =
      let (queues, f, g) =
        bind-ok (update_upstream_queues t.upstream_queues us [])
          (λ queues.
            ok (set_settings (record t { motd = c.proxy.motd }) c.proxy cert us queues, none))
          (rw (n, commit) at h) in
      cc g

  -- Without log files to open, and with a relay_idle_timeout that is not negative, a configuration
  -- that loadConfig rejects leaves the server as it was.
  pub load_config-unchanged :
      (s' : Server) (why : String)
      → is_negative c.proxy.relay_idle_timeout_secs ≡ false
      → load_config w s c false ≡ ok (s', some why)
      → s' ≡ s
  unfolding load_config commit_after
  load_config-unchanged s' why n h = elim (Ok-cases (prepare w s c false)) [
    | inr (e, f) ↦ cc (rw (f, load_config) at h)
    | inl ((cert, us), f) ↦
        absurd
          (commit-accepted cert us (set_addresses s c.proxy) s' why n (rw (f, load_config) at h))
  ]
