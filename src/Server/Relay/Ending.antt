-- ===== src/Server/Relay/Ending.antt =====
-- Rules to show that a session of pkg/server/server.go ends, if enough of its reads fail sooner or later, as
-- those with a deadline do.
use text.Mathlib.TextLemmas.{length-nil}
use rsync_gateway.Prelude.{
  ℕ, suc, ◌≡◌, ◌≤◌, refl, Bool, true, false, List, [], ◌∷◌, Option, none, some, String,
  if◌then◌else◌, arith,
}
use rsync_gateway.Server.Wire.{LineRead, line, failed, waits, read_line}
use rsync_gateway.Server.Wire.Lines.{failures, Spends, read_line-Spends}
use rsync_gateway.Server.Relay.{
  Side, client, upstream, Effect, World, Outcome, go, stop, panic, blocked, M, ◌>>=◌, continue,
  result, quit, fault, emit, finally, ending, check, try_send, sent, unless_failed, send_or_quit,
  read_or_quit, after_read,
}

-- At least so many errors are still to come from either side.
abbrev pub Enough : ℕ → ℕ → World → Type 0
Enough c u w = (c ≤ failures w.from_client) × (u ≤ failures w.from_upstream)

-- The computation does not block.
abbrev pub Ended : {A : Type 0} → ℕ → ℕ → Outcome A × World → Type 0
Ended c u (go a, w) = Enough c u w
Ended c u (stop e, w) = Unit {0}
Ended c u (panic, w) = Unit {0}
Ended c u (blocked, w) = ⊥

-- With `c` and `u` errors to come it ends and, where it goes on, leaves `c'` and `u'`.
pub record Ends {A : Type 0} (c u : ℕ) (m : M A) (c' u' : ℕ) : Type 0 where
  pub run : (w : World) → Enough c u w → Ended c' u' (m w)

Ended-continue :
    {A B : Type 0} (c u c' u' : ℕ) (f : A → M B) (r : Outcome A × World)
    → ((a : A) → Ends c u (f a) c' u')
    → Ended c u r
    → Ended c' u' (continue f r)
Ended-continue c u c' u' f (go a, w) k h = (k a).run w h
Ended-continue c u c' u' f (stop e, w) k h = tt
Ended-continue c u c' u' f (panic, w) k h = tt
Ended-continue c u c' u' f (blocked, w) k h = h

pub Ends-bind :
    {A B : Type 0} {c u c'' u'' : ℕ} {m : M A} {f : A → M B} (c' u' : ℕ)
    → Ends c u m c' u'
    → ((a : A) → Ends c' u' (f a) c'' u'')
    → Ends c u (m >>= f) c'' u''
Ends-bind {c''} {u''} {m} {f} c' u' hm hf = record {
  run = λ w h. Ended-continue c' u' c'' u'' f (m w) hf (hm.run w h);
}

Ended-ending :
    {A : Type 0} (c u : ℕ) (e : Effect) (r : Outcome A × World)
    → Ended c u r
    → Ended c u (ending e r)
Ended-ending c u e (go a, w) h = h
Ended-ending c u e (stop why, w) h = tt
Ended-ending c u e (panic, w) h = tt
Ended-ending c u e (blocked, w) h = h

pub Ends-finally :
    {A : Type 0} {c u c' u' : ℕ} {m : M A} (e : Effect)
    → Ends c u m c' u'
    → Ends c u (finally e m) c' u'
Ends-finally {c'} {u'} {m} e hm = record { run = λ w h. Ended-ending c' u' e (m w) (hm.run w h) }

module _ {c u : ℕ} where
  pub Ends-emit : (e : Effect) → Ends c u (emit e) c u
  Ends-emit e = record { run = λ w h. h }

  pub Ends-result : {A : Type 0} (a : A) → Ends c u (result a) c u
  Ends-result a = record { run = λ w h. h }

  pub Ends-quit : {A : Type 0} (c' u' : ℕ) (e : Option String) → Ends c u (quit {A = A} e) c' u'
  Ends-quit c' u' e = record { run = λ w h. tt }

  pub Ends-fault : {A : Type 0} (c' u' : ℕ) → Ends c u (fault {A = A}) c' u'
  Ends-fault c' u' = record { run = λ w h. tt }

  pub Ends-if :
      {A : Type 0} {c' u' : ℕ} (b : Bool) {m n : M A}
      → Ends c u m c' u'
      → Ends c u n c' u'
      → Ends c u (if b then m else n) c' u'
  Ends-if true hm hn = hm
  Ends-if false hm hn = hn

  -- A branch may use its test.
  pub Ends-split :
      {A : Type 0} {c' u' : ℕ} (b : Bool) {m n : M A}
      → (b ≡ true → Ends c u m c' u')
      → (b ≡ false → Ends c u n c' u')
      → Ends c u (if b then m else n) c' u'
  Ends-split true hm hn = hm refl
  Ends-split false hm hn = hn refl

  pub Ends-check : (good : Bool) (why : String) → Ends c u (check good why) c u
  Ends-check true why = record { run = λ w h. h }
  Ends-check false why = record { run = λ w h. tt }

  Ended-sent :
      (side : Side) (text : String) (w : World) (answers : List (Option String))
      → Enough c u w
      → Ended c u (sent side text w answers)
  Ended-sent side text w [] h = h
  Ended-sent side text w (_ ∷ rest) h = h

  pub Ends-try_send : (side : Side) (text : String) → Ends c u (try_send side text) c u
  unfolding try_send
  Ends-try_send side text = record { run = λ w h. Ended-sent side text w w.writes h }

  Ends-unless_failed :
      (context : String) (failure : Option String) → Ends c u (unless_failed context failure) c u
  Ends-unless_failed context none = record { run = λ w h. h }
  Ends-unless_failed context (some why) = record { run = λ w h. tt }

  pub Ends-send :
      (side : Side) (text context : String) → Ends c u (send_or_quit side text context) c u
  unfolding send_or_quit
  Ends-send side text context = Ends-bind c u (Ends-try_send side text) (Ends-unless_failed context)

  Ended-read_client :
      (context : String) (w : World) (r : LineRead)
      → Spends (failures w.from_client) r
      → Enough (suc c) u w
      → Ended c u (after_read client context w r)
  unfolding after_read
  Ended-read_client context w (line got rest) s h = omega arith
  Ended-read_client context w (failed got why rest) s h = tt
  Ended-read_client context w (waits got) s h = omega arith

  Ended-read_upstream :
      (context : String) (w : World) (r : LineRead)
      → Spends (failures w.from_upstream) r
      → Enough c (suc u) w
      → Ended c u (after_read upstream context w r)
  unfolding after_read
  Ended-read_upstream context w (line got rest) s h = omega arith
  Ended-read_upstream context w (failed got why rest) s h = tt
  Ended-read_upstream context w (waits got) s h = omega arith

  pub Ends-read_client : (context : String) → Ends (suc c) u (read_or_quit client context) c u
  unfolding read_or_quit
  Ends-read_client context = record {
    run = λ w h.
        Ended-read_client context w (read_line 256 "" w.from_client)
          (read_line-Spends 256 "" w.from_client (omega (arith, length-nil))) h;
  }

  pub Ends-read_upstream : (context : String) → Ends c (suc u) (read_or_quit upstream context) c u
  unfolding read_or_quit
  Ends-read_upstream context = record {
    run = λ w h.
        Ended-read_upstream context w (read_line 256 "" w.from_upstream)
          (read_line-Spends 256 "" w.from_upstream (omega (arith, length-nil))) h;
  }
