-- ===== src/Queue/Channel.antt =====
-- The channels of pkg/queue/queue.go: each is made with capacity 1 and carries a Status. A send that
-- Go answers with a panic, or that would block for ever with the queue's mutex held, is a fault.
use mathlib.Core.Path.{fun_ext}
use rsync_gateway.Prelude.{
  ℕ, ◌≡◌, ◌≢◌, ◌∙◌, ap, Bool, true, false, Option, none, some, arith, nat_eq, if◌then◌else◌, Result,
  ok, err, ◌⊎◌, inl, inr, Bool-cases, nat_eq_iff,
}
use rsync_gateway.Prelude.Int.{ℤ, pos}

pub record Status : Type 0 where
  pub index : ℤ
  pub max : ℤ
  pub ok : Bool
  pub full : Bool

abbrev pub granted_status : Status
granted_status = record { index = pos 0; max = pos 0; ok = true; full = false }

abbrev pub full_status : Status
full_status = record { index = pos 0; max = pos 0; ok = false; full = true }

-- `Status{Index: i, Max: m}`
abbrev pub waiting_status : ℤ → ℤ → Status
waiting_status i m = record { index = i; max = m; ok = false; full = false }

pub record Chan : Type 0 where
  pub buffer : Option Status
  pub closed : Bool

-- `make(chan Status, 1)`
abbrev pub fresh_chan : Chan
fresh_chan = record { buffer = none; closed = false }

pub data Fault : Type 0 where
  send_on_closed close_of_closed send_blocks : Fault

-- Every channel that the queue has made, by its identity.
abbrev pub Chans : Type 0
Chans = ℕ → Chan

unfoldable pub write : Chans → ℕ → Chan → Chans
write h c x d = if nat_eq c d then x else h d

-- `ch <- st`
unfoldable pub send : Chans → ℕ → Status → Result Fault Chans
send h c st = if (h c).closed then err send_on_closed else elim (h c).buffer [
  | none ↦ ok (write h c (record (h c) { buffer = some st }))
  | some _ ↦ err send_blocks
]

-- `close(ch)`
unfoldable pub close : Chans → ℕ → Result Fault Chans
close h c =
    if (h c).closed then err close_of_closed else ok (write h c (record (h c) { closed = true }))

-- `select { case <-ch: default: }`
unfoldable pub drain : Chans → ℕ → Chans
drain h c = write h c (record (h c) { buffer = none })

unfoldable pub try_send : Chans → ℕ → Status → Result Fault Chans
try_send h c st = send (drain h c) c st

-- What a handle's owner gets from `<-handle.C`: `none` while the receive would block, and the zero
-- Status from a closed channel that holds nothing.
pub receive : Chans → ℕ → Option Status
receive h c = elim (h c).buffer [
  | some st ↦ some st
  | none ↦ if (h c).closed then some (waiting_status (pos 0) (pos 0)) else none
]

module _ (h : Chans) (c : ℕ) where
  pub write_self : (x : Chan) → write h c x c ≡ x
  unfolding write
  write_self x = ground arith

  pub write_ne : (d : ℕ) (x : Chan) → c ≢ d → write h c x d ≡ h d
  unfolding write
  write_ne d x n = ground arith

  pub write-write : (x y : Chan) → write (write h c x) c y ≡ write h c y
  unfolding write
  write-write x y = fun_ext λ d. ground arith

  pub send_lem :
      (st : Status)
      → (h c).closed ≡ false
      → (h c).buffer ≡ none
      → send h c st ≡ ok (write h c (record { buffer = some st; closed = false }))
  unfolding send
  send_lem st open_ empty = simp (open_, empty)

  pub close_lem :
      (h c).closed ≡ false
      → close h c ≡ ok (write h c (record { buffer = (h c).buffer; closed = true }))
  unfolding close
  close_lem e = ground arith

-- On an open channel a try-send delivers, whatever the buffer held.
pub try_send_lem :
    (h : Chans) (c : ℕ) (st : Status)
    → (h c).closed ≡ false
    → try_send h c st ≡ ok (write h c (record { buffer = some st; closed = false }))
unfolding try_send drain
try_send_lem h c st e =
    send_lem (drain h c) c st (rw (write_self h c) e) (rw (write_self h c))
    ∙ ap ok (write-write h c _ _)

-- A receive empties one buffer at most, and opens or closes nothing.
pub drain_at :
    (h : Chans) (c d : ℕ) → (drain h c d ≡ h d) ⊎ (drain h c d ≡ record (h d) { buffer = none })
unfolding drain write
drain_at h c d = elim (Bool-cases (nat_eq c d)) [
  | inl e ↦ inr (rw (e, (nat_eq_iff c d).0 e))
  | inr e ↦ inl (rw e)
]
