-- ===== src/Server/Relay/Rules.antt =====
-- Rules to show that a computation follows the protocol of Protocol.
use rsync_gateway.Prelude.{
  refl, Bool, true, false, List, [], ◌∷◌, Option, none, some, String, if◌then◌else◌,
}
use rsync_gateway.Server.Wire.{LineRead, line, failed, waits, read_line}
use rsync_gateway.Server.Relay.{
  Side, client, upstream, Effect, send, World, Outcome, go, stop, panic, blocked, M, ◌>>=◌,
  continue, result, quit, block, fault, done, emit, finally, ending, check, try_send, sent,
  unless_failed, send_or_quit, read_or_quit, after_read, unread,
}
use rsync_gateway.Server.Relay.Protocol.{Held, after, Stands, Post, Runs, Leads}

Stands-done :
    (P Q : Held → Type 0) (e : Effect) (w : World) → Leads P e Q → Stands P w → Stands Q (done e w)
Stands-done P Q e w l (h, at, p) = (after e h, rw (at, (l h p).0) refl, (l h p).1)

module _ {P Q R : Held → Type 0} where
  pub Runs-emit : (e : Effect) → Leads P e Q → Runs P (emit e) Q R
  Runs-emit e l = record { run = λ w s. Stands-done P Q e w l s }

  pub Runs-result : {A : Type 0} {a : A} → ((h : Held) → P h → Q h) → Runs P (result a) Q R
  Runs-result f = record { run = λ w (h, at, p). (h, at, f h p) }

  pub Runs-quit :
      {A : Type 0} (e : Option String) → ((h : Held) → P h → R h) → Runs P (quit {A = A} e) Q R
  Runs-quit e f = record { run = λ w (h, at, p). (h, at, f h p) }

  pub Runs-block : {A : Type 0} → Runs P (block {A = A}) Q R
  Runs-block = record { run = λ w (h, at, p). (h, at, tt) }

  pub Runs-fault : {A : Type 0} → ((h : Held) → P h → R h) → Runs P (fault {A = A}) Q R
  Runs-fault f = record { run = λ w (h, at, p). (h, at, f h p) }

  pub Runs-if :
      {A : Type 0} (b : Bool) {m n : M A}
      → Runs P m Q R
      → Runs P n Q R
      → Runs P (if b then m else n) Q R
  Runs-if true hm hn = hm
  Runs-if false hm hn = hn

-- A test whose value `P` knows.
pub Runs-cases :
    {A : Type 0} {Q R : Held → Type 0} {m n : M A} (P : Bool → Held → Type 0) (b : Bool)
    → Runs (P true) m Q R
    → Runs (P false) n Q R
    → Runs (P b) (if b then m else n) Q R
Runs-cases P true hm hn = hm
Runs-cases P false hm hn = hn

Post-continue :
    {A B : Type 0} (P Q R : Held → Type 0) (f : A → M B) (r : Outcome A × World)
    → ((a : A) → Runs P (f a) Q R)
    → Post P R r
    → Post Q R (continue f r)
Post-continue P Q R f (go a, w) k s = (k a).run w s
Post-continue P Q R f (stop e, w) k s = s
Post-continue P Q R f (panic, w) k s = s
Post-continue P Q R f (blocked, w) k s = s

pub Runs-bind :
    {A B : Type 0} {P Q R : Held → Type 0} {m : M A} {f : A → M B} (S : Held → Type 0)
    → Runs P m S R
    → ((a : A) → Runs S (f a) Q R)
    → Runs P (m >>= f) Q R
Runs-bind {Q} {R} {m} {f} S hm hf = record {
  run = λ w s. Post-continue S Q R f (m w) hf (hm.run w s);
}

Post-ending :
    {A : Type 0} (S T Q R : Held → Type 0) (e : Effect) (r : Outcome A × World)
    → Leads S e Q
    → Leads T e R
    → Post S T r
    → Post Q R (ending e r)
Post-ending S T Q R e (go a, w) lq lr s = Stands-done S Q e w lq s
Post-ending S T Q R e (stop why, w) lq lr s = Stands-done T R e w lr s
Post-ending S T Q R e (panic, w) lq lr s = Stands-done T R e w lr s
Post-ending S T Q R e (blocked, w) lq lr s = s

pub Runs-finally :
    {A : Type 0} {P Q R : Held → Type 0} {m : M A} (e : Effect) (S T : Held → Type 0)
    → Runs P m S T
    → Leads S e Q
    → Leads T e R
    → Runs P (finally e m) Q R
Runs-finally {Q} {R} {m} e S T hm lq lr = record {
  run = λ w s. Post-ending S T Q R e (m w) lq lr (hm.run w s);
}

-- A step that keeps `P`, which is enough for `R` where it returns: a test, a write and a read.
module _ {P R : Held → Type 0} (enough : (h : Held) → P h → R h) where
  pub Runs-check : (good : Bool) (why : String) → Runs P (check good why) P R
  Runs-check true why = record { run = λ w s. s }
  Runs-check false why = record { run = λ w (h, at, p). (h, at, enough h p) }

  Post-sent :
      (side : Side) (text : String) (w : World) (answers : List (Option String))
      → Leads P (send side text) P
      → Stands P w
      → Post P R (sent side text w answers)
  Post-sent side text w [] l s = Stands-done P P (send side text) w l s
  Post-sent side text w (_ ∷ rest) l s = Stands-done P P (send side text) w l s

  pub Runs-try_send :
      (side : Side) (text : String) → Leads P (send side text) P → Runs P (try_send side text) P R
  unfolding try_send
  Runs-try_send side text l = record { run = λ w s. Post-sent side text w w.writes l s }

  Runs-unless_failed :
      (context : String) (failure : Option String) → Runs P (unless_failed context failure) P R
  Runs-unless_failed context none = record { run = λ w s. s }
  Runs-unless_failed context (some why) = record { run = λ w (h, at, p). (h, at, enough h p) }

  pub Runs-send :
      (side : Side) (text context : String)
      → Leads P (send side text) P
      → Runs P (send_or_quit side text context) P R
  unfolding send_or_quit
  Runs-send side text context l =
      Runs-bind P (Runs-try_send side text l) (Runs-unless_failed context)

  Post-after_read :
      (side : Side) (context : String) (w : World) (r : LineRead)
      → Stands P w
      → Post P R (after_read side context w r)
  unfolding after_read
  Post-after_read client context w (line got rest) s = s
  Post-after_read upstream context w (line got rest) s = s
  Post-after_read client context w (failed got why rest) (h, at, p) = (h, at, enough h p)
  Post-after_read upstream context w (failed got why rest) (h, at, p) = (h, at, enough h p)
  Post-after_read client context w (waits got) (h, at, p) = (h, at, tt)
  Post-after_read upstream context w (waits got) (h, at, p) = (h, at, tt)

  pub Runs-read : (side : Side) (context : String) → Runs P (read_or_quit side context) P R
  unfolding read_or_quit
  Runs-read side context = record {
    run = λ w s. Post-after_read side context w (read_line 256 "" (unread side w)) s;
  }
