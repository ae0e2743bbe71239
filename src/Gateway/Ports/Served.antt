-- ===== src/Gateway/Ports/Served.antt =====
-- What ServedPorts of internal/gateway/status.go returns.
use rsync_gateway.Prelude.{
  ℕ, ◌≡◌, ◌≢◌, ◌<◌, refl, sym, ap, ◌∙◌, Bool, true, false, not, ◌&&◌, ◌||◌, List, [], ◌∷◌, none,
  some, String, nat_eq, any_of, All, Distinct, Bool-cases, Option-cases, inl, inr, arith,
  if◌then◌else◌, leb, nat_eq_iff,
}
use rsync_gateway.Gateway.Ports.{
  port_of, ports_from, served_ports, parse_uint16, digits, split_port,
}

-- The address has this port.
abbrev pub has_port : ℕ → String → Bool
has_port p addr = elim (port_of addr) [ none ↦ false | some q ↦ nat_eq q p ]

abbrev pub among : ℕ → List ℕ → Bool
among p ports = any_of (λ q. nat_eq q p) ports

any_of-here :
    (p : String → Bool) (x : String) (xs : List String) → any_of p (x ∷ xs) ≡ (p x || any_of p xs)
any_of-here p x xs = elim (Bool-cases (p x)) [ inl e ↦ rw e | inr e ↦ rw e ]

among-here : (p q : ℕ) (ports : List ℕ) → among p (q ∷ ports) ≡ (nat_eq q p || among p ports)
among-here p q ports = elim (Bool-cases (nat_eq q p)) [ inl e ↦ rw e | inr e ↦ rw e ]

nothing : (b : Bool) → false ≡ (b && false)
nothing true = refl
nothing false = refl

-- A port that was seen before is not added, and one that is added has been seen from then on.
seen_before :
    (same seen rest : Bool)
    → (same ≡ true → seen ≡ true)
    → (not seen && rest) ≡ (not seen && (same || rest))
seen_before true true rest h = refl
seen_before true false rest h = cc (h refl)
seen_before false seen rest h = refl

seen_now :
    (same seen rest : Bool)
    → (same ≡ true → seen ≡ false)
    → (same || (not (same || seen) && rest)) ≡ (not seen && (same || rest))
seen_now true true rest h = cc (h refl)
seen_now true false rest h = refl
seen_now false seen rest h = refl

among-same : (p q : ℕ) (seen : List ℕ) → nat_eq q p ≡ true → among p seen ≡ among q seen
among-same p q seen e = ap (λ r. among r seen) (sym ((nat_eq_iff q p).0 e))

among-ports_from :
    (p : ℕ) (seen : List ℕ) (addrs : List String)
    → among p (ports_from seen addrs) ≡ (not (among p seen) && any_of (has_port p) addrs)
unfolding ports_from
among-ports_from p seen [] = nothing (not (among p seen))
among-ports_from p seen (addr ∷ addrs) = elim (Option-cases (port_of addr)) [
  | inl e ↦
      rw (any_of-here (has_port p) addr addrs, e, ports_from, has_port)
        (among-ports_from p seen addrs)
  | inr (q, e) ↦ elim (Bool-cases (among q seen)) [
    | inl f ↦
        rw (any_of-here (has_port p) addr addrs, e, f, ports_from, has_port)
          (among-ports_from p seen addrs
            ∙ seen_before (nat_eq q p) (among p seen) (any_of (has_port p) addrs)
                (λ g. among-same p q seen g ∙ f))
    | inr f ↦
        rw (any_of-here (has_port p) addr addrs, e, f, ports_from, has_port)
          (among-here p q (ports_from (q ∷ seen) addrs)
            ∙ ap (λ b. nat_eq q p || b)
                (among-ports_from p (q ∷ seen) addrs
                  ∙ ap (λ b. not b && any_of (has_port p) addrs) (among-here p q seen))
            ∙ seen_now (nat_eq q p) (among p seen) (any_of (has_port p) addrs)
                (λ g. among-same p q seen g ∙ f))
  ]
]

at_most : (m n : ℕ) → (if leb m 65535 then some m else none) ≡ some n → n < 65536
at_most m n h = ground arith

parse_uint16-lt : (s : String) (n : ℕ) → parse_uint16 s ≡ some n → n < 65536
unfolding parse_uint16
parse_uint16-lt String.[] n h = cc h
parse_uint16-lt (String.◌∷◌ c s) n h = elim (Option-cases (digits 0 (String.◌∷◌ c s))) [
  | inl e ↦ cc (rw (e, parse_uint16) at h)
  | inr (m, e) ↦ at_most m n (rw (e, parse_uint16) at h)
]

port_of-lt : (addr : String) (n : ℕ) → port_of addr ≡ some n → n < 65536
unfolding port_of
port_of-lt addr n h = elim (Option-cases (split_port addr)) [
  | inl e ↦ cc (rw (e, port_of) at h)
  | inr (s, e) ↦ parse_uint16-lt s n (rw (e, port_of) at h)
]

ports_from-lt : (seen : List ℕ) (addrs : List String) → All (λ p. p < 65536) (ports_from seen addrs)
unfolding ports_from
ports_from-lt seen [] = tt
ports_from-lt seen (addr ∷ addrs) = elim (Option-cases (port_of addr)) [
  | inl e ↦ rw (e, ports_from, All) (ports_from-lt seen addrs)
  | inr (q, e) ↦ elim (Bool-cases (among q seen)) [
    | inl f ↦ rw (e, f, ports_from, All) (ports_from-lt seen addrs)
    | inr f ↦ rw (e, f, ports_from, All) (port_of-lt addr q e, ports_from-lt (q ∷ seen) addrs)
  ]
]

fresh : (p : ℕ) (ports : List ℕ) → among p ports ≡ false → All (λ q. p ≢ q) ports
fresh p [] h = tt
fresh p (q ∷ ports) h = elim (Bool-cases (nat_eq q p)) [
  | inl e ↦ cc (rw e at h)
  | inr e ↦ ((λ g. cc (e, (nat_eq_iff q p).1 (sym g))), fresh p ports (rw e at h))
]

among_self : (q : ℕ) (seen : List ℕ) → among q (q ∷ seen) ≡ true
among_self q seen = rw ((nat_eq_iff q q).1 refl) refl

ports_from-Distinct : (seen : List ℕ) (addrs : List String) → Distinct (ports_from seen addrs)
unfolding ports_from
ports_from-Distinct seen [] = tt
ports_from-Distinct seen (addr ∷ addrs) = elim (Option-cases (port_of addr)) [
  | inl e ↦ rw (e, ports_from, Distinct) (ports_from-Distinct seen addrs)
  | inr (q, e) ↦ elim (Bool-cases (among q seen)) [
    | inl f ↦ rw (e, f, ports_from, Distinct) (ports_from-Distinct seen addrs)
    | inr f ↦
        rw (e, f, ports_from, Distinct)
          (
            fresh q (ports_from (q ∷ seen) addrs) (
                among-ports_from q (q ∷ seen) addrs
                ∙ ap (λ b. not b && any_of (has_port q) addrs) (among_self q seen)),
            ports_from-Distinct (q ∷ seen) addrs,
          )
  ]
]

-- ServedPorts returns no port twice and only ports below 2^16, and a number is among them exactly when it is the
-- port of some listen address.
pub served_ports_lem :
    (addrs : List String)
    → Distinct (served_ports addrs)
      × All (λ p. p < 65536) (served_ports addrs)
      × ((p : ℕ) → among p (served_ports addrs) ≡ any_of (has_port p) addrs)
unfolding served_ports
served_ports_lem addrs =
    (ports_from-Distinct [] addrs, ports_from-lt [] addrs, λ p. among-ports_from p [] addrs)
