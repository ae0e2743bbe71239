-- ===== src/Queue/Invariant.antt =====
-- The well-formedness of the queue of pkg/queue/queue.go, and the lemmas on lists and on the channel
-- store by which its methods are seen to keep it.
use rsync_gateway.Prelude.{
  ℕ, ◌<◌, ◌≤◌, ◌≡◌, ◌≢◌, refl, sym, ◌∙◌, ◌⊎◌, inl, inr, true, false, Option, none, some, List, [],
  ◌∷◌, ◌++◌, arith, nat_eq, nat_eq_iff, length, All, Any, All-append_left, All-append_right,
  All-map, Distinct, Bool-cases,
}
use rsync_gateway.Prelude.Int.{pos, ◌≤ℤ◌}
use rsync_gateway.Queue.Channel.{Chan, Chans, Status, write, write_ne}
use rsync_gateway.Queue.{Queue, has_room, without}

-- A waiter's channel holds at most a position, an active handle's at most the go-ahead.
abbrev pub NotYet : Option Status → Type 0
NotYet none = Unit {0}
NotYet (some st) = (st.ok ≡ false) × (st.full ≡ false)

abbrev pub GoAhead : Option Status → Type 0
GoAhead none = Unit {0}
GoAhead (some st) = (st.ok ≡ true) × (st.full ≡ false)

abbrev pub IsWaiting : Chan → Type 0
IsWaiting x = (x.closed ≡ false) × NotYet x.buffer

abbrev pub IsGranted : Chan → Type 0
IsGranted x = (x.closed ≡ true) × GoAhead x.buffer

-- The handles in the order of arrival: the active ones stand before those that wait.
abbrev pub line : Queue → List ℕ
line q = q.active ++ q.queued

pub record IsValid (q : Queue) : Type 0 where
  pub distinct : Distinct (line q)
  pub below : All (λ c. c < q.next) (line q)
  pub waiting : All (λ c. IsWaiting (q.chans c)) q.queued
  pub granted : All (λ c. IsGranted (q.chans c)) q.active

-- Nobody waits while there is room.
abbrev pub IsSettled : Queue → Type 0
IsSettled q = (q.queued ≡ []) ⊎ (has_room q ≡ false)

-- The limit is 0, which stands for none, or it is kept.
abbrev pub IsBounded : Queue → Type 0
IsBounded q = (q.max ≡ pos 0) ⊎ (pos (length q.active) ≤ℤ q.max)

abbrev pub Apart : ℕ → List ℕ → Type 0
Apart c xs = All (λ d. c ≢ d) xs

module _ (P : Chan → Type 0) (h : Chans) (c : ℕ) (x : Chan) where
  -- A write to one channel is not seen at the others.
  pub All-write :
      (xs : List ℕ) → Apart c xs → All (λ d. P (h d)) xs → All (λ d. P (write h c x d)) xs
  All-write [] n a = tt
  All-write (d ∷ xs) n a = (rw (write_ne h c d x n.0) a.0, All-write xs n.1 a.1)

pub Distinct-right : (xs ys : List ℕ) → Distinct (xs ++ ys) → Distinct ys
Distinct-right [] ys h = h
Distinct-right (x ∷ xs) ys h = Distinct-right xs ys h.1

-- The element in the middle is none of those before it.
pub Distinct-middle : (xs : List ℕ) (y : ℕ) (ys : List ℕ) → Distinct (xs ++ y ∷ ys) → Apart y xs
Distinct-middle [] y ys h = tt
Distinct-middle (x ∷ xs) y ys h =
    (λ e. (All-append_right (λ z. x ≢ z) xs (y ∷ ys) h.0).0 (sym e), Distinct-middle xs y ys h.1)

pub Distinct-disjoint :
    (c : ℕ) (xs ys : List ℕ) → Distinct (xs ++ ys) → Any (λ d. c ≡ d) ys → Apart c xs
Distinct-disjoint c [] ys h a = tt
Distinct-disjoint c (x ∷ xs) ys h a =
    (λ e. hit ys (All-append_right (λ z. x ≢ z) xs ys h.0) a e, Distinct-disjoint c xs ys h.1 a)
  where
    hit : (zs : List ℕ) → All (λ z. x ≢ z) zs → Any (λ d. c ≡ d) zs → c ≡ x → ⊥
    hit [] n m e = m
    hit (z ∷ zs) n (inl m) e = n.0 (sym e ∙ m)
    hit (z ∷ zs) n (inr m) e = hit zs n.1 m e

pub Distinct-left : (xs ys : List ℕ) → Distinct (xs ++ ys) → Distinct xs
Distinct-left [] ys h = tt
Distinct-left (x ∷ xs) ys h = (All-append_left (λ z. x ≢ z) xs ys h.0, Distinct-left xs ys h.1)

-- An element of the first part is none of the second.
pub Apart-from_right :
    (c : ℕ) (xs ys : List ℕ) → Distinct (xs ++ ys) → Any (λ d. c ≡ d) xs → Apart c ys
Apart-from_right c (x ∷ xs) ys h (inl e) = rw e (All-append_right (λ z. x ≢ z) xs ys h.0)
Apart-from_right c (x ∷ xs) ys h (inr a) = Apart-from_right c xs ys h.1 a
Apart-from_right c [] ys h a = absurd a

-- What lies below the next identity is not the next identity.
pub Apart-below : (n : ℕ) (xs : List ℕ) → All (λ c. c < n) xs → Apart n xs
Apart-below n [] h = tt
Apart-below n (x ∷ xs) h = (omega arith, Apart-below n xs h.1)

pub Apart-flip : (n : ℕ) (xs : List ℕ) → Apart n xs → All (λ c. c ≢ n) xs
Apart-flip n xs = All-map (λ d. n ≢ d) (λ c. c ≢ n) (λ d h e. h (sym e)) xs

module _ (c : ℕ) where
  pub without_cases : (xs : List ℕ) → Apart c xs ⊎ Any (λ d. c ≡ d) xs
  without_cases [] = inl tt
  without_cases (x ∷ xs) = elim (Bool-cases (nat_eq c x)) [
    | inl e ↦ inr (inl ((nat_eq_iff c x).0 e))
    | inr e ↦ elim (without_cases xs) [ inl n ↦ inl (ground arith, n) | inr a ↦ inr (inr a) ]
  ]

  pub without_absent : (xs : List ℕ) → Apart c xs → without c xs ≡ xs
  unfolding without
  without_absent [] h = refl
  without_absent (x ∷ xs) h = ground (arith, without_absent xs h.1)

  pub length-without_le : (xs : List ℕ) → length (without c xs) ≤ length xs
  unfolding without
  length-without_le [] = omega arith
  length-without_le (x ∷ xs) = ground (arith, length-without_le xs)

  pub length-without_lt : (xs : List ℕ) → Any (λ d. c ≡ d) xs → length (without c xs) < length xs
  unfolding without
  length-without_lt [] a = absurd a
  length-without_lt (x ∷ xs) (inl e) = ground (arith, length-without_le xs)
  length-without_lt (x ∷ xs) (inr a) = ground (arith, length-without_lt xs a)
