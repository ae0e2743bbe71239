-- ===== src/Gateway/Ports/Tests.antt =====
-- ServedPorts at the addresses of a data plane.
use rsync_gateway.Prelude.{◌≡◌, refl, ℕ, ◌<◌, List, [], ◌∷◌, String, All, Distinct, any_of}
use rsync_gateway.Gateway.Ports.{served_ports, ports_from, port_of}
use rsync_gateway.Gateway.Ports.Served.{among, has_port, served_ports_lem}

abbrev addresses : List String
addresses =
    ":873" ∷ "0.0.0.0:9080" ∷ "127.0.0.1:873" ∷ "[::1]:874" ∷ "/run/rsync.sock" ∷ "::1" ∷ ":70000"
    ∷ []

served_ports-addresses : served_ports addresses ≡ 873 ∷ 9080 ∷ 874 ∷ []
unfolding served_ports ports_from port_of
served_ports-addresses = refl

served_ports_lem_example :
    Distinct (served_ports addresses)
    × All (λ p. p < 65536) (served_ports addresses)
    × ((p : ℕ) → among p (served_ports addresses) ≡ any_of (has_port p) addresses)
served_ports_lem_example = served_ports_lem addresses
