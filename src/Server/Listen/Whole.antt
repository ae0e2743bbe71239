-- ===== src/Server/Listen/Whole.antt =====
-- Listen and Close of pkg/server/server.go: an error of Listen leaves no listener open, if modes can be set.
use rsync_gateway.Prelude.{
  ℕ, ◌≡◌, refl, ap, ◌∙◌, Bool, true, ◌||◌, Option, some, String, ok, subst, ◌≤◌, ◌<◌, nat_eq,
  nat_eq_iff, not, keep_if, keep_if-append, All-keep_if, ◌++◌,
}
use rsync_gateway.Server.Listen.{
  Listener, Sockets, Net, ◌>>=◌, pure, named, on_error, close, close_id, listen_tcp_or_unix,
  Instance, close_server, with_listeners, listen,
}
use rsync_gateway.Server.Listen.Leaves.{
  Fresh, Opens, Leaves, Leaves-bind, Leaves-guard, Leaves-renamed, Opens-as, owns_id, owns_some,
  Closes, Closes-both, Closes-close, old_kept, listen_tcp_or_unix-Leaves, listen_tls-Leaves,
}

-- A listener that is closed at once.
pub Opens-close :
    {A : Type 0} (P : A → ℕ → Bool) (s t : Sockets) (a : A) (l : Listener)
    → Fresh s
    → s.next ≤ l.id
    → Opens P s a t
    → Opens P s a (close (some l) t)
unfolding close close_id
Opens-close P s t a l f m o = record {
  fresh = All-keep_if (λ j. j < t.next) (λ j. not (nat_eq l.id j)) t.opened o.fresh;
  later = o.later;
  ids = keep_if (λ j. not (nat_eq l.id j)) o.ids;
  now_open =
      ap (keep_if (λ j. not (nat_eq l.id j))) o.now_open
      ∙ keep_if-append (λ j. not (nat_eq l.id j)) o.ids s.opened
      ∙ ap (λ xs. keep_if (λ j. not (nat_eq l.id j)) o.ids ++ xs)
          (old_kept (λ j. nat_eq l.id j) s f
            (λ j e. subst (λ k. s.next ≤ k) ((nat_eq_iff l.id j).0 e) m));
  owned = All-keep_if (λ j. P a j ≡ true) (λ j. not (nat_eq l.id j)) o.ids o.owned;
  new = o.new;
}

abbrev pub owns_instance : Instance → ℕ → Bool
owns_instance i j = (owns_some i.tcp j || owns_some i.tls j) || owns_some i.http j

-- Close closes the listeners of the server, and no other.
pub Closes-close_server : (i : Instance) → Closes (owns_instance i) (close_server i)
unfolding close_server
Closes-close_server i =
    Closes-both (λ j. owns_some i.tcp j || owns_some i.tls j) (owns_some i.http)
      (λ s. close i.tls (close i.tcp s)) (close i.http)
      (Closes-both (owns_some i.tcp) (owns_some i.tls) (close i.tcp) (close i.tls)
        (Closes-close i.tcp) (Closes-close i.tls))
      (Closes-close i.http)

module _ (net : Net) (settable : (addr : String) → net.chmod addr ≡ ok tt) (i : Instance)
    (s : Sockets) (f : Fresh s) where
  abbrev owns_two : Listener × Option Listener → ℕ → Bool
  owns_two (l, tls) j = owns_id l j || owns_some tls j

  last-Leaves :
      (l1 : Listener) (tls : Option Listener) (t : Sockets)
      → Opens owns_two s (l1, tls) t
      → Leaves owns_instance s (
          (on_error
                (λ s. close tls (close (some l1) s))
                (named "create http listener: " (listen_tcp_or_unix net i.server.http_listen_addr))
              >>= λ l2. pure (with_listeners i l1 tls l2))
            t)
  unfolding with_listeners
  last-Leaves l1 tls t o =
      Leaves-bind (λ l j. owns_two (l1, tls) j || owns_id l j) owns_instance s _
        (λ l2. pure (with_listeners i l1 tls l2))
        (Leaves-guard owns_two s t (l1, tls) o f owns_id (λ s. close tls (close (some l1) s)) _
          (Closes-both (owns_id l1) (owns_some tls) (close (some l1)) (close tls)
            (Closes-close (some l1)) (Closes-close tls))
          (Leaves-renamed owns_id t "create http listener: " _
            (listen_tcp_or_unix-Leaves net settable i.server.http_listen_addr t o.fresh)))
        (λ l2 u p.
          Opens-as (λ l j. owns_two (l1, tls) j || owns_id l j) owns_instance s u l2
            (with_listeners i l1 tls l2) (λ j. refl) p)

  pub listen-Leaves : Leaves owns_instance s (listen net i s)
  unfolding listen
  listen-Leaves =
      Leaves-bind owns_id owns_instance s _ _
        (Leaves-renamed owns_id s "create tcp listener: " _
          (listen_tcp_or_unix-Leaves net settable i.server.listen_addr s f))
        (λ l1 t o.
          Leaves-bind (λ tls j. owns_id l1 j || owns_some tls j) owns_instance s _ _
            (Leaves-guard owns_id s t l1 o f owns_some (close (some l1)) _ (Closes-close (some l1))
              (Leaves-renamed owns_some t "create tls listener: " _
                (listen_tls-Leaves net settable i.server.tls_listen_addr t o.fresh)))
            (λ tls u p. last-Leaves l1 tls u (
              Opens-as (λ tls j. owns_id l1 j || owns_some tls j) owns_two s u tls (l1, tls)
                (λ j. refl) p)))
