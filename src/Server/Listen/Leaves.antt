-- ===== src/Server/Listen/Leaves.antt =====
-- pkg/server/server.go and utils.go: what is left open by the functions that open listeners.
use rsync_gateway.Prelude.{
  ℕ, suc, ◌≤◌, ◌<◌, ◌≡◌, refl, sym, ap, ◌∙◌, subst, inl, inr, Bool, true, false, not, ◌||◌, List,
  [], ◌∷◌, ◌++◌, Option, none, some, String, Result, ok, err, All, All-map, All-append,
  append_assoc, nat_eq, nat_eq_iff, keep_if, Bool-cases, Ok-cases, arith,
}
use rsync_gateway.Prelude.Keys.{◌==◌, String_eq}
use rsync_gateway.Server.Listen.{
  Listener, Sockets, Net, Trouble, reported, faulted, Action, go_on, cleaned, renamed, close_id,
  close, is_unix, net_listen, set_mode, listen_tcp_or_unix, listen_tls,
}

-- No number of an open listener is given out again.
abbrev pub Fresh : Sockets → Type 0
Fresh s = All (λ j. j < s.next) s.opened

-- From `s` on, `a` was opened: what is open besides is what was open in `s`, and `a` has only new listeners.
pub record Opens {A : Type 0} (owns : A → ℕ → Bool) (s : Sockets) (a : A) (t : Sockets)
    : Type 0 where
  pub fresh : Fresh t
  pub later : s.next ≤ t.next
  pub ids : List ℕ
  pub now_open : t.opened ≡ ids ++ s.opened
  pub owned : All (λ j. owns a j ≡ true) ids
  pub new : (j : ℕ) → owns a j ≡ true → s.next ≤ j

-- An action from `s` on leaves nothing open with an error.
abbrev pub Leaves : {A : Type 0} → (A → ℕ → Bool) → Sockets → Result Trouble A × Sockets → Type 0
Leaves owns s (err e, t) = t.opened ≡ s.opened
Leaves owns s (ok a, t) = Opens owns s a t

module _ {A B : Type 0} (P : A → ℕ → Bool) (Q : B → ℕ → Bool) (s : Sockets) where
  pub Leaves-bind :
      (r : Result Trouble A × Sockets) (f : A → Action B)
      → Leaves P s r
      → ((a : A) (t : Sockets) → Opens P s a t → Leaves Q s (f a t))
      → Leaves Q s (go_on r f)
  Leaves-bind (err e, t) f h k = h
  Leaves-bind (ok a, t) f h k = k a t h

abbrev pub owns_id : Listener → ℕ → Bool
owns_id l j = nat_eq l.id j

abbrev pub owns_some : Option Listener → ℕ → Bool
owns_some none j = false
owns_some (some l) j = nat_eq l.id j

-- The listeners of a clean-up are closed, and no other.
abbrev pub Closes : (ℕ → Bool) → (Sockets → Sockets) → Type 0
Closes own clean = (s : Sockets) → (clean s).opened ≡ keep_if (λ j. not (own j)) s.opened

keep_if_whole : (p : ℕ → Bool) (xs : List ℕ) → All (λ j. p j ≡ true) xs → keep_if p xs ≡ xs
keep_if_whole p [] h = refl
keep_if_whole p (x ∷ xs) h = rw h.0 (ap (λ ys. x ∷ ys) (keep_if_whole p xs h.1))

keep_if_nothing :
    (p : ℕ → Bool) (xs ys : List ℕ)
    → All (λ j. p j ≡ false) xs
    → keep_if p (xs ++ ys) ≡ keep_if p ys
keep_if_nothing p [] ys h = refl
keep_if_nothing p (x ∷ xs) ys h = rw h.0 (keep_if_nothing p xs ys h.1)

-- What is closed later than `s` is not among what was open in `s`.
pub old_kept :
    (own : ℕ → Bool) (s : Sockets)
    → Fresh s
    → ((j : ℕ) → own j ≡ true → s.next ≤ j)
    → keep_if (λ j. not (own j)) s.opened ≡ s.opened
old_kept own s fresh new =
    keep_if_whole (λ j. not (own j)) s.opened
      (All-map (λ j. j < s.next) (λ j. not (own j) ≡ true)
        (λ j l. elim (Bool-cases (own j)) [
          | inl e ↦ absurd (too_late j l (new j e))
          | inr e ↦ rw e refl
        ])
        s.opened fresh)
  where
    too_late : (j : ℕ) → j < s.next → s.next ≤ j → ⊥
    too_late j l m = omega arith

module _ {A : Type 0} (P : A → ℕ → Bool) (s t : Sockets) (a : A) (o : Opens P s a t)
    (fresh : Fresh s) where
  -- Closing it all leaves what was open before.
  pub closed_again :
      (clean : Sockets → Sockets) (u : Sockets)
      → Closes (P a) clean
      → u.opened ≡ t.opened
      → (clean u).opened ≡ s.opened
  closed_again clean u c e =
      c u
      ∙ ap (keep_if (λ j. not (P a j))) (e ∙ o.now_open)
      ∙ keep_if_nothing (λ j. not (P a j)) o.ids s.opened
          (All-map (λ j. P a j ≡ true) (λ j. not (P a j) ≡ false) (λ j f. rw f refl) o.ids o.owned)
      ∙ old_kept (P a) s fresh o.new

  -- The next action, which closes all this where it fails.
  pub Leaves-guard :
      {B : Type 0} (Q : B → ℕ → Bool) (clean : Sockets → Sockets) (r : Result Trouble B × Sockets)
      → Closes (P a) clean
      → Leaves Q t r
      → Leaves (λ b j. P a j || Q b j) s (cleaned clean r)
  Leaves-guard Q clean (err e, u) c h = closed_again clean u c h
  Leaves-guard Q clean (ok b, u) c h = record {
    fresh = h.fresh;
    later = further t.next u.next o.later h.later;
    ids = h.ids ++ o.ids;
    now_open =
        h.now_open ∙ ap (λ xs. h.ids ++ xs) o.now_open ∙ sym (append_assoc h.ids o.ids s.opened);
    owned =
        All-append _ h.ids o.ids
          (All-map (λ j. Q b j ≡ true) (λ j. (P a j || Q b j) ≡ true)
            (λ j e. or_right (P a j) (Q b j) e) h.ids h.owned)
          (All-map (λ j. P a j ≡ true) (λ j. (P a j || Q b j) ≡ true) (λ j e. rw e refl) o.ids
            o.owned);
    new = λ j e. elim (Bool-cases (P a j)) [
      | inl f ↦ o.new j f
      | inr f ↦ further t.next j o.later (h.new j (rw f at e))
    ];
  }
    where
      further : (m n : ℕ) → s.next ≤ m → m ≤ n → s.next ≤ n
      further m n l k = omega arith

      or_right : (x y : Bool) → y ≡ true → (x || y) ≡ true
      or_right x y e = ground arith

-- The same listeners under another name.
pub Opens-as :
    {A B : Type 0} (P : A → ℕ → Bool) (Q : B → ℕ → Bool) (s t : Sockets) (a : A) (b : B)
    → ((j : ℕ) → P a j ≡ Q b j)
    → Opens P s a t
    → Opens Q s b t
Opens-as P Q s t a b same o = record {
  fresh = o.fresh;
  later = o.later;
  ids = o.ids;
  now_open = o.now_open;
  owned = All-map (λ j. P a j ≡ true) (λ j. Q b j ≡ true) (λ j e. sym (same j) ∙ e) o.ids o.owned;
  new = λ j e. o.new j (same j ∙ e);
}

pub Leaves-renamed :
    {A : Type 0} (P : A → ℕ → Bool) (s : Sockets) (p : String) (r : Result Trouble A × Sockets)
    → Leaves P s r
    → Leaves P s (renamed p r)
Leaves-renamed P s p (err (reported e), t) h = h
Leaves-renamed P s p (err (faulted f), t) h = h
Leaves-renamed P s p (ok a, t) h = h

keep_both :
    (p q : ℕ → Bool) (xs : List ℕ)
    → keep_if (λ j. not (q j)) (keep_if (λ j. not (p j)) xs) ≡ keep_if (λ j. not (p j || q j)) xs
keep_both p q [] = refl
keep_both p q (x ∷ xs) = elim (Bool-cases (p x)) [
  | inl e ↦ rw e (keep_both p q xs)
  | inr e ↦ elim (Bool-cases (q x)) [
    | inl f ↦ rw (e, f) (keep_both p q xs)
    | inr f ↦ rw (e, f) (ap (λ ys. x ∷ ys) (keep_both p q xs))
  ]
]

pub Closes-both :
    (p q : ℕ → Bool) (f g : Sockets → Sockets)
    → Closes p f
    → Closes q g
    → Closes (λ j. p j || q j) (λ s. g (f s))
Closes-both p q f g c d s = d (f s) ∙ ap (keep_if (λ j. not (q j))) (c s) ∙ keep_both p q s.opened

pub keep_if_every : (xs : List ℕ) → keep_if (λ j. true) xs ≡ xs
keep_if_every [] = refl
keep_if_every (x ∷ xs) = ap (λ ys. x ∷ ys) (keep_if_every xs)

pub Closes-close : (l : Option Listener) → Closes (owns_some l) (close l)
unfolding close close_id
Closes-close none s = sym (keep_if_every s.opened)
Closes-close (some l) s = refl

pub Leaves-pure :
    {A : Type 0} (P : A → ℕ → Bool) (s : Sockets) (a : A)
    → Fresh s
    → ((j : ℕ) → P a j ≡ false)
    → Leaves P s (ok a, s)
Leaves-pure P s a f n = record {
  fresh = f;
  later = omega arith;
  ids = [];
  now_open = refl;
  owned = tt;
  new = λ j e. cc (n j, e);
}

module _ (net : Net) where
  pub net_listen-Leaves :
      (network addr : String) (s : Sockets)
      → Fresh s
      → Leaves owns_id s (net_listen net network addr s)
  unfolding net_listen
  net_listen-Leaves network addr s f = elim (Ok-cases (net.listen network addr s.next)) [
    | inr (e, g) ↦ rw (g, net_listen) refl
    | inl (own, g) ↦
        rw (g, net_listen)
          record {
            fresh = (
              omega arith,
              All-map (λ j. j < s.next) (λ j. j < suc s.next) (λ j l. omega arith) s.opened f,
            );
            later = omega arith;
            ids = s.next ∷ [];
            now_open = refl;
            owned = ((nat_eq_iff s.next s.next).1 refl, tt);
            new = λ j e. subst (λ k. s.next ≤ k) ((nat_eq_iff s.next j).0 e) (omega arith);
          }
  ]

  -- With modes that can be set,
  module _ (settable : (addr : String) → net.chmod addr ≡ ok tt) where
    pub listen_tcp_or_unix-Leaves :
        (addr : String) (s : Sockets) → Fresh s → Leaves owns_id s (listen_tcp_or_unix net addr s)
    unfolding listen_tcp_or_unix set_mode
    listen_tcp_or_unix-Leaves addr s f = elim (Bool-cases (is_unix addr)) [
      | inr e ↦ rw e (net_listen-Leaves "tcp" addr s f)
      | inl e ↦ rw e (
          Leaves-bind owns_id owns_id s (net_listen net "unix" addr s) _
            (net_listen-Leaves "unix" addr s f) (λ l t o. rw (settable addr, set_mode) o))
    ]

    pub listen_tls-Leaves :
        (addr : String) (s : Sockets) → Fresh s → Leaves owns_some s (listen_tls net addr s)
    unfolding listen_tls
    listen_tls-Leaves addr s f = elim (Bool-cases (addr == "")) [
      | inl e ↦ rw e (Leaves-pure owns_some s none f (λ j. refl))
      | inr e ↦ rw e (
          Leaves-bind owns_id owns_some s (listen_tcp_or_unix net addr s) (λ l t. (ok (some l), t))
            (listen_tcp_or_unix-Leaves addr s f)
            (λ l t o. Opens-as owns_id owns_some s t l (some l) (λ j. refl) o))
    ]
