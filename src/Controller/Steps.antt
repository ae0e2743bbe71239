-- ===== src/Controller/Steps.antt =====
-- internal/controller/reconciler.go: what a reconciliation does step by step, and its loops that end at the first error or panic.
use rsync_gateway.Prelude.{ℕ, Bool, true, false, List, [], ◌∷◌, Option, none, some, String}
use rsync_gateway.Prelude.Keys.{Map}
use rsync_gateway.Gateway.Objects.{
  NamespacedName, Condition, Gateway, GatewayClass, GatewayConfig, RsyncRoute, Snapshot,
}
use rsync_gateway.Server.{Config}

-- What a reconciliation does to its surroundings.
pub data Effect : Type 0 where
  applied : Config → Effect
  wrote_class : GatewayClass → Effect
  wrote_gateway : Gateway → Effect
  wrote_route : RsyncRoute → Effect
  wrote_config : GatewayConfig → Effect
  warned : NamespacedName → String → String → Effect

-- The error of an update.
pub record UpdateError : Type 0 where
  pub is_not_found : Bool
  pub message : String

-- The surroundings: the time that stamps a condition, the answer to an update after all that was done
-- before, whether the Recorder is not nil, and BindAddrs.
pub record Cluster : Type 0 where
  pub now : Condition → ℕ
  pub update : List Effect → Effect → Option UpdateError
  pub has_recorder : Bool
  pub bind_addrs : List String

-- What ends a function early: an error that it returns, or the panic of a nil dereference.
pub data Halt : Type 0 where
  failed : String → Halt
  crashed : Halt

-- The value afterwards, all effects so far, and what ends the function early.
pub record Step (V : Type 0) : Type 0 where
  pub value : V
  pub effects : List Effect
  pub halt : Option Halt

abbrev pub unchanged : {V : Type 0} → V → List Effect → Step V
unchanged v effects = record { value = v; effects = effects; halt = none }

-- The use of a pointer, which panics where it is nil.
abbrev pub dereference : {A V : Type 0} → Option A → V → List Effect → (A → Step V) → Step V
dereference none v effects use_it = record { value = v; effects = effects; halt = some crashed }
dereference (some a) v effects use_it = use_it a

abbrev pub is_nil : {A : Type 0} → Option A → Bool
is_nil none = true
is_nil (some a) = false

-- A loop over a map that ends at the first error or panic.
unfoldable pub over :
    {K V : Type 0} → (K → V → List Effect → Step V) → Map K V → List Effect → Step (Map K V)
over body [] effects = unchanged [] effects
over body ((k, v) ∷ m) effects =
    let s = body k v effects in
    let rest = over body m s.effects in
    elim s.halt [
      | some e ↦ record { value = (k, s.value) ∷ m; effects = s.effects; halt = some e }
      | none ↦ record rest { value = (k, s.value) ∷ rest.value }
    ]

-- A step on a part of the snapshot.
abbrev pub put : {V : Type 0} → (V → Snapshot) → Step V → Step Snapshot
put whole s = record { value = whole s.value; effects = s.effects; halt = s.halt }

-- The next loop, unless the function has ended.
abbrev pub and_then : (Snapshot → List Effect → Step Snapshot) → Step Snapshot → Step Snapshot
and_then next s = elim s.halt [ some _ ↦ s | none ↦ next s.value s.effects ]
