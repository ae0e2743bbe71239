-- ===== src/Dataplane/Rollout.antt =====
-- Apply of internal/dataplane/dataplane.go: which servers have which table afterwards.
use rsync_gateway.Prelude.{
  ℕ, suc, ◌≡◌, refl, sym, List, [], ◌∷◌, map, subst, Option, none, some, String, ◌⊎◌, inl, inr, All,
}
use rsync_gateway.Prelude.Keys.{Map}
use rsync_gateway.Prelude.Text.{◌^^◌}
use rsync_gateway.Server.{Config, Server, Target}
use rsync_gateway.Server.Load.{World}
use rsync_gateway.Server.Load.Reload.{AllSound}
use rsync_gateway.Server.Load.Alike.{Started, verdict, verdict-Alike}
use rsync_gateway.Dataplane.{Dataplane}

-- A server with sound queues.
abbrev pub HasSound : Server → Type 0
HasSound s = AllSound s.upstream_queues

abbrev pub tables : List Server → List (Map String (List Target))
tables servers = map (λ (s : Server). s.modules) servers

-- A verdict is the table that loadConfig makes, or none where it rejects the configuration.
module _ (c : Config) where
  -- A server that accepts has its table, and the loop goes on; one that rejects keeps its table, and all behind it are
  -- as they were.
  abbrev pub Applied : (ℕ → World) → List Server → List Server → Option String → Type 0
  Applied worlds [] after o = (after ≡ []) × (o ≡ none)
  Applied worlds (s ∷ later) [] o = ⊥
  Applied worlds (s ∷ later) (s' ∷ later') o =
      (verdict (worlds 0) c s ≡ some s'.modules) × Applied (λ n. worlds (suc n)) later later' o
      ⊎ (verdict (worlds 0) c s ≡ none)
        × (s'.modules ≡ s.modules)
        × (later' ≡ later)
        × ((why : String) × (o ≡ some ("dataplane: apply config: " ^^ why)))

  Reached : (ℕ → World) → List Server → List Server × Option String → Type 0
  Reached worlds servers (after, o) = Applied worlds servers after o

  -- The tables are all the same, or with an error they are all as before.
  abbrev pub Uniform : List Server → List Server → Option String → Type 0
  Uniform before after (some why) = tables after ≡ tables before
  Uniform before after none =
      (table : Map String (List Target)) × All (λ s. s.modules ≡ table) after

  module _ (w : World) where
    agreed :
        (table : Map String (List Target)) (s : Server) (before after : List Server)
        (o : Option String)
        → Started s
        → All Started before
        → verdict w c s ≡ some table
        → Applied (λ _. w) before after o
        → All (λ s. s.modules ≡ table) after × (o ≡ none)
    agreed table s [] after o a h e (f, g) = (subst (All _) (sym f) tt, g)
    agreed table s (t ∷ before) [] o a h e x = absurd x
    agreed table s (t ∷ before) (t' ∷ after) o a h e (inl (f, x)) =
        let (all, g) = agreed table s before after o a h.1 e x in
        let same = verdict-Alike w c s t a h.0 in ((cc, all), g)
    agreed table s (t ∷ before) (t' ∷ after) o a h e (inr (f, _, _, _)) =
        let same = verdict-Alike w c s t a h.0 in cc

    -- Where all servers listen without TLS and get the same answers, Apply changes all of the tables to one or none.
    pub Applied-Uniform :
        (before after : List Server) (o : Option String)
        → All Started before
        → Applied (λ _. w) before after o
        → Uniform before after o
    Applied-Uniform [] after none h x = ([], subst (All _) (sym x.0) tt)
    Applied-Uniform [] after (some why) h x = cc
    Applied-Uniform (s ∷ before) [] o h x = absurd x
    Applied-Uniform (s ∷ before) (s' ∷ after) o h (inl (f, x)) =
        let (all, g) = agreed s'.modules s before after o h.0 h.1 f x in
        rw g (s'.modules, (refl, all))
    Applied-Uniform (s ∷ before) (s' ∷ after) o h (inr (f, same, kept, (why, e))) =
        rw (e, same, kept) refl
