-- ===== src/Server/Discovery/Tests.antt =====
-- A list of two modules.
use rsync_gateway.Prelude.{◌≡◌, refl, [], ◌∷◌, ok, true}
use rsync_gateway.Prelude.Int.{pos}
use rsync_gateway.Prelude.Bytes.{has_prefix}
use rsync_gateway.Server.{UpstreamConfig}
use rsync_gateway.Server.Listing.{sort_strings}
use rsync_gateway.Server.Discovery.{is_space, discover_modules_from_upstream}
use rsync_gateway.Server.Discovery.Lists.{proxy_peer, discover_modules-lines}

abbrev upstream : UpstreamConfig
upstream = record {
  name = "mirror";
  target = record { upstream = "mirror"; addr = "mirror:873"; use_proxy_protocol = true };
  modules = [];
  discover_modules = true;
  max_active_conns = pos 0;
  max_queued_conns = pos 0;
  per_ip_max_active_conns = pos 0;
}

discover_modules-lines_example :
    discover_modules_from_upstream (proxy_peer "EOF" ("debian" ∷ "ubuntu" ∷ [])) upstream
    ≡ ok (sort_strings ("debian" ∷ "ubuntu" ∷ []))
unfolding is_space has_prefix
discover_modules-lines_example = discover_modules-lines "EOF" upstream ("debian" ∷ "ubuntu" ∷ []) (
  ((refl, (refl, (refl, (refl, (refl, (refl, tt)))))), refl),
  (((refl, (refl, (refl, (refl, (refl, (refl, tt)))))), refl), tt),
)
