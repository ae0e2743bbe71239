-- ===== src/Server/Tests.antt =====
-- One upstream, and the theorem on buildModuleTargets of pkg/server at it.
use rsync_gateway.Prelude.{◌≡◌, ◌<◌, refl, false, [], ◌∷◌, ◌++◌, get_or, arith}
use rsync_gateway.Prelude.Int.{pos}
use rsync_gateway.Prelude.Keys.{String_eq, lookup, insert}
use rsync_gateway.Server.{UpstreamConfig, build_module_targets, module_targets_from, add_targets}
use rsync_gateway.Server.Balance.{v4_in_v6_prefix, fnv32a, choose_target_by_client_ip}
use rsync_gateway.Server.Balance.Range.{
  choose_target_by_client_ip-lt, choose_target_by_client_ip-mapped,
}
use rsync_gateway.Server.Admission.{run_sessions}
use rsync_gateway.Server.Admission.Cap.{Capped, crowd, run_sessions-Capped}
use rsync_gateway.Server.Modules.{targets_of, build_module_targets_lem}

abbrev resolved : UpstreamConfig
resolved = record {
  name = "u1";
  target = record { upstream = "u1"; addr = "10.0.0.1:873"; use_proxy_protocol = false };
  modules = "debian" ∷ [];
  discover_modules = false;
  max_active_conns = pos 4;
  max_queued_conns = pos 8;
  per_ip_max_active_conns = pos 2;
}

build_module_targets_lem_example :
    get_or (lookup "debian" (build_module_targets (resolved ∷ []))) []
    ≡ targets_of "debian" (resolved ∷ [])
build_module_targets_lem_example = build_module_targets_lem "debian" (resolved ∷ [])

-- With a limit of two the third of three sessions is refused; the first ends before it is gone.
run_sessions-Capped_example :
    Capped (pos 2) (run_sessions (pos 2) (0 ∷ 1 ∷ 2 ∷ 0 ∷ 2 ∷ []) (pos 0, crowd 3))
run_sessions-Capped_example = run_sessions-Capped (pos 2) 3 (0 ∷ 1 ∷ 2 ∷ 0 ∷ 2 ∷ [])

choose_target_by_client_ip-lt_example : choose_target_by_client_ip (10 ∷ 0 ∷ 0 ∷ 7 ∷ []) 1 < 1
unfolding build_module_targets module_targets_from add_targets lookup insert
choose_target_by_client_ip-lt_example =
    choose_target_by_client_ip-lt (10 ∷ 0 ∷ 0 ∷ 7 ∷ []) (resolved ∷ []) "debian"
      (resolved.target ∷ []) refl (omega arith)

choose_target_by_client_ip-mapped_example :
    choose_target_by_client_ip (v4_in_v6_prefix ++ 10 ∷ 0 ∷ 0 ∷ 7 ∷ []) 3
    ≡ choose_target_by_client_ip (10 ∷ 0 ∷ 0 ∷ 7 ∷ []) 3
choose_target_by_client_ip-mapped_example = choose_target_by_client_ip-mapped 10 0 0 7 3

-- FNV-1a of "a" is 0xe40c292c.
fnv32a_of_a : fnv32a (97 ∷ []) ≡ 3826002220
unfolding fnv32a
fnv32a_of_a = refl
