-- ===== src/Queue.antt =====
-- pkg/queue/queue.go: the admission queue of one upstream. `active` and `queued` list the channels
-- of the handles, oldest first; a handle is named by its channel, which it shares with nobody.
-- `mu` is held across each method, so a method is one step.
pub mod Channel
pub mod Invariant
pub mod Broadcast
pub mod Promote
pub mod Release
pub mod Acquire
pub mod Fifo
pub mod History
pub mod Capacity
mod Tests
use rsync_gateway.Prelude.{
  ℕ, suc, ◌+◌, ◌≡◌, Bool, true, false, not, ◌&&◌, ◌||◌, List, [], ◌∷◌, ◌++◌, arith, nat_eq,
  if◌then◌else◌, length, keep_if, Result, ok, err, ◌>>=◌,
}
use rsync_gateway.Prelude.Int.{ℤ, pos, ◌+ℤ◌, ◌-ℤ◌, ltb_ℤ, int_eq, is_positive}
use Channel.{
  Chans, Fault, Status, write, fresh_chan, granted_status, full_status, waiting_status, send, close,
  try_send, drain,
}

pub record Queue : Type 0 where
  pub max : ℤ
  pub active : List ℕ
  pub queued : List ℕ
  pub max_queued : ℤ
  -- the channels, the next one's identity, and the `released` flag of each handle
  pub chans : Chans
  pub next : ℕ
  pub released : ℕ → Bool

-- New(max, maxQueued)
pub new : ℤ → ℤ → Queue
new max max_queued = record {
  max = max;
  active = [];
  queued = [];
  max_queued = max_queued;
  chans = λ _. fresh_chan;
  next = 0;
  released = λ _. false;
}

-- `len(q.active) < q.max || q.max == 0`
pub has_room : Queue → Bool
has_room q = ltb_ℤ (pos (length q.active)) q.max || int_eq q.max (pos 0)

-- `len(q.active) - q.max`
pub surplus : Queue → ℤ
surplus q = pos (length q.active) -ℤ q.max

-- `q.maxQueued > 0 && len(q.queued) >= q.maxQueued`
pub queue_full : Queue → Bool
queue_full q = is_positive q.max_queued && not (ltb_ℤ (pos (length q.queued)) q.max_queued)

-- The body of broadcastStatus's loop, from position `i` on.
pub broadcast_from : ℤ → ℕ → ℕ → List ℕ → Chans → Result Fault Chans
broadcast_from s total i [] h = ok h
broadcast_from s total i (c ∷ cs) h = do
  h' ← try_send h c (waiting_status (s +ℤ pos i) (s +ℤ pos total))
  broadcast_from s total (suc i) cs h'

pub broadcast_status : Queue → Result Fault Queue
broadcast_status q = do
  h ← broadcast_from (surplus q) (length q.queued) 0 q.queued q.chans
  ok (record q { chans = h })

-- popHead, where `q.queued` is `head ∷ rest`.
pub pop_head : ℕ → List ℕ → Queue → Result Fault Queue
pop_head head rest q = do
  h ← try_send q.chans head granted_status
  h' ← close h head
  ok (record q { chans = h'; active = q.active ++ head ∷ []; queued = rest })

-- `for len(q.queued) > 0 && (len(q.active) < q.max || q.max == 0) { q.popHead() }`: the first
-- argument is `q.queued`, which each round shortens.
pub promote : List ℕ → Queue → Result Fault Queue
promote [] q = ok q
promote (head ∷ rest) q = elim (has_room q) [
  | true ↦ pop_head head rest q >>= promote rest
  | false ↦ ok q
]

pub set_max : ℤ → ℤ → Queue → Result Fault Queue
set_max max max_queued q = do
  q' ← promote q.queued (record q { max = max; max_queued = max_queued })
  broadcast_status q'

-- The new queue; the handle returned is named by `q.next`.
pub acquire : Queue → Result Fault Queue
acquire q =
    let c = q.next in
    let h = write q.chans c fresh_chan in
    let q' = record q { next = suc c; chans = h } in
    if has_room q
    then (do
      h ← send h c granted_status
      h ← close h c
      ok (record q' { chans = h; active = q.active ++ c ∷ [] }))
    else if queue_full q
    then (do h ← send h c full_status; h ← close h c; ok (record q' { chans = h }))
    else (do
      let queued = q.queued ++ c ∷ []
      h ← send h c (
          waiting_status (surplus q +ℤ pos (length queued) -ℤ pos 1)
            (surplus q +ℤ pos (length queued)))
      ok (record q' { chans = h; queued = queued }))

-- The copy of a list without one handle's channel.
pub without : ℕ → List ℕ → List ℕ
without c = keep_if (λ d. not (nat_eq c d))

pub release_from_handle : ℕ → Queue → Result Fault Queue
release_from_handle c q =
    let new_list = without c q.queued in
    if not (nat_eq (length new_list) (length q.queued))
    then broadcast_status (record q { queued = new_list })
    else (do q' ← promote q.queued (record q { active = without c q.active }); broadcast_status q')

-- Handle.Release
pub release : ℕ → Queue → Result Fault Queue
release c q =
    if q.released c
    then ok q
    else release_from_handle c
        (record q { released = λ d. if nat_eq c d then true else q.released d })
