-- ===== src/Dataplane/Create/Clean.antt =====
-- New of internal/dataplane/dataplane.go: an error leaves no listener open, if the modes of Unix sockets can be set.
use rsync_gateway.Prelude.{
  ℕ, ◌≡◌, refl, sym, ap, ◌∙◌, inl, inr, Bool, true, false, ◌||◌, List, [], ◌∷◌, ◌++◌, Option, none,
  some, String, Result, ok, err, Bool-cases, nat_eq_iff, arith,
}
use rsync_gateway.Prelude.Keys.{◌==◌, String_eq}
use rsync_gateway.Prelude.Text.{◌^^◌}
use rsync_gateway.Queue.Channel.{Fault}
use rsync_gateway.Server.{Server}
use rsync_gateway.Server.Load.{World, load_config}
use rsync_gateway.Server.Listen.{
  Listener, Sockets, Net, Action, go_on, close, is_unix, net_listen, set_mode, Instance,
  close_server,
}
use rsync_gateway.Server.Listen.Leaves.{
  Fresh, Opens, Leaves, Leaves-bind, Leaves-guard, Leaves-renamed, Leaves-pure, Opens-as, owns_id,
  owns_some, Closes, Closes-both, Closes-close, keep_if_every, net_listen-Leaves,
}
use rsync_gateway.Server.Listen.Whole.{
  owns_instance, Closes-close_server, listen-Leaves, Opens-close,
}
use rsync_gateway.Dataplane.Create.{
  Options, empty_table_config, new_server, initial, close_all, bind_addr, bind_later,
  fresh_instance, bind_first, new_instance, create_from, create,
}

or_false : (x : Bool) → x ≡ (x || false)
or_false true = refl
or_false false = refl

or_right : (x y : Bool) → y ≡ true → (x || y) ≡ true
or_right x y e = ground arith

abbrev pub owns_all : List Instance → ℕ → Bool
owns_all [] j = false
owns_all (i ∷ is) j = owns_instance i j || owns_all is j

Closes-close_all : (is : List Instance) → Closes (owns_all is) (close_all is)
unfolding close_all
Closes-close_all [] = λ s. sym (keep_if_every s.opened)
Closes-close_all (i ∷ is) =
    Closes-both (owns_instance i) (owns_all is) (close_server i) (close_all is)
      (Closes-close_server i) (Closes-close_all is)

owns_all-snoc :
    (is : List Instance) (i : Instance) (j : ℕ)
    → (owns_all is j || owns_instance i j) ≡ owns_all (is ++ i ∷ []) j
owns_all-snoc [] i j = or_false (owns_instance i j)
owns_all-snoc (k ∷ is) i j = elim (Bool-cases (owns_instance k j)) [
  | inl e ↦ rw e refl
  | inr e ↦ rw e (owns_all-snoc is i j)
]

initial-Leaves :
    (r : Result Fault (Server × Option String)) (f : Server → Action Instance) (s : Sockets)
    → ((srv : Server) → Leaves owns_instance s (f srv s))
    → Leaves owns_instance s (go_on (initial r s) f)
unfolding initial
initial-Leaves (err e) f s h = refl
initial-Leaves (ok (srv, some e)) f s h = refl
initial-Leaves (ok (srv, none)) f s h = h srv

module _ (net : Net) (settable : (addr : String) → net.chmod addr ≡ ok tt) where
  bind_addr-Leaves :
      (addr : String) (s : Sockets) → Fresh s → Leaves owns_id s (bind_addr net addr s)
  unfolding bind_addr set_mode
  bind_addr-Leaves addr s f = elim (Bool-cases (is_unix addr)) [
    | inr e ↦ rw e (net_listen-Leaves net "tcp" addr s f)
    | inl e ↦ rw e (
        Leaves-bind owns_id owns_id s (net_listen net "unix" addr s) _
          (net_listen-Leaves net "unix" addr s f) (λ l t o. rw (settable addr, set_mode) o))
  ]

  bind_later-Leaves :
      (i : Instance) (addr : String) (s : Sockets)
      → i.tls ≡ none
      → Fresh s
      → Leaves owns_instance s (bind_later net i addr s)
  unfolding bind_later
  bind_later-Leaves i addr s n f =
      Leaves-bind owns_id owns_instance s _ _
        (Leaves-renamed owns_id s ("dataplane: listen on " ^^ addr ^^ ": ") _
          (bind_addr-Leaves addr s f))
        (λ l t o.
          Leaves-bind (owns_pair l) owns_instance s _ _
            (Leaves-guard owns_id s t l o f owns_id (close (some l)) _ (Closes-close (some l)) (
              Leaves-renamed owns_id t "dataplane: create dummy http listener: " _
                (net_listen-Leaves net "tcp" "127.0.0.1:0" t o.fresh)))
            (λ d u p.
              Opens-close owns_instance s u _ d f
                (p.new d.id
                  (or_right (owns_id l d.id) (owns_id d d.id) ((nat_eq_iff d.id d.id).1 refl)))
                (Opens-as (owns_pair l) owns_instance s u d _ (λ j. without_tls l d j) p)))
    where
      owns_pair : Listener → Listener → ℕ → Bool
      owns_pair l d j = owns_id l j || owns_id d j

      without_tls :
          (l d : Listener) (j : ℕ)
          → (owns_id l j || owns_id d j) ≡ ((owns_id l j || owns_some i.tls j) || owns_id d j)
      without_tls l d j =
          ap (λ x. x || owns_id d j) (or_false (owns_id l j))
          ∙ ap (λ tls. (owns_id l j || owns_some tls j) || owns_id d j) (sym n)

  module _ (w : World) (opts : Options) where
    new_instance-Leaves :
        (is_first : Bool) (addr : String) (s : Sockets)
        → Fresh s
        → Leaves owns_instance s (new_instance net w opts is_first addr s)
    unfolding new_instance bind_first fresh_instance
    new_instance-Leaves true addr s f =
        initial-Leaves (load_config w new_server empty_table_config false) _ s (λ srv.
          Leaves-renamed owns_instance s ("dataplane: listen on " ^^ addr ^^ ": ") _
            (listen-Leaves net settable _ s f))
    new_instance-Leaves false addr s f =
        initial-Leaves (load_config w new_server empty_table_config false) _ s
          (λ srv. bind_later-Leaves (fresh_instance net w opts srv) addr s refl f)

    create_from-Leaves :
        (is_first : Bool) (made : List Instance) (addrs : List String) (s t : Sockets)
        → Fresh s
        → Opens owns_all s made t
        → Leaves owns_all s (create_from net w opts is_first made addrs t)
    unfolding create_from
    create_from-Leaves is_first made [] s t f o = o
    create_from-Leaves is_first made (addr ∷ later) s t f o =
        Leaves-bind (λ i j. owns_all made j || owns_instance i j) owns_all s _
          (λ i. create_from net w opts false (made ++ i ∷ []) later)
          (Leaves-guard owns_all s t made o f owns_instance (close_all made) _
            (Closes-close_all made) (new_instance-Leaves is_first addr t o.fresh))
          (λ i u p. create_from-Leaves false (made ++ i ∷ []) later s u f (
            Opens-as (λ i j. owns_all made j || owns_instance i j) owns_all s u i (made ++ i ∷ [])
              (λ j. owns_all-snoc made i j) p))

    -- Where modes can be set, New leaves nothing open with an error, and otherwise nothing but the listeners of the servers.
    pub create-Leaves : (s : Sockets) → Fresh s → Leaves owns_all s (create net w opts s)
    unfolding create
    create-Leaves s f = by_addrs opts.bind_addrs refl
      where
        by_addrs :
            (addrs : List String)
            → opts.bind_addrs ≡ addrs
            → Leaves owns_all s (create net w opts s)
        by_addrs [] e = rw (e, create) refl
        by_addrs (addr ∷ later) e = elim (Bool-cases (opts.admin_addr == "")) [
          | inl g ↦ rw (e, g, create) refl
          | inr g ↦
              rw (e, g, create)
                (create_from-Leaves true [] (addr ∷ later) s s f
                  (Leaves-pure owns_all s [] f (λ j. refl)))
        ]
