-- ===== src/Topology/Examples.antt =====
-- Two peers and three routes, one of them to no peer.
use evuproxy.Common.{◌≡◌, refl, String, Bool, true, false, List, [], ◌∷◌}
use evuproxy.Topology.{
  Peer, Route, key_of, route_matches_topology_filter, tunnel_to_host, build_topology_groups,
  stand_in, topology_scale_rows, group_expanded, set_group_expanded,
}
use evuproxy.Topology.Whole.{IsGrouping, build_topology_groups-IsGrouping}

abbrev same_text : String → String
same_text t = t

abbrev as_they_come : String → String → Bool
as_they_come a b = true

abbrev peers : List Peer
peers =
    record { name = "web"; tunnel_ip = "10.0.0.2/32"; public_key = "A" }
    ∷ record { name = "mail"; tunnel_ip = "10.0.0.3"; public_key = "B" }
    ∷ []

abbrev to_web : Route
to_web = record {
  name = "site";
  proto = "tcp";
  ports = "80" ∷ "443" ∷ [];
  target_ip = "10.0.0.2";
  disabled = false;
}

abbrev to_nobody : Route
to_nobody = record {
  name = "old";
  proto = "udp";
  ports = [];
  target_ip = "10.0.0.9";
  disabled = true;
}

abbrev routes : List Route
routes = to_web ∷ to_nobody ∷ record to_web { name = "api" } ∷ []

host : tunnel_to_host "10.0.0.2/32" ≡ "10.0.0.2"
unfolding tunnel_to_host
host = refl

no_host : tunnel_to_host "10.0.0.2/" ≡ ""
unfolding tunnel_to_host
no_host = refl

grouped :
    build_topology_groups same_text peers "" as_they_come routes
    ≡ record { key = "A"; label = "web"; routes = to_web ∷ record to_web { name = "api" } ∷ [] }
      ∷ record { key = "orphan:10.0.0.9"; label = "10.0.0.9"; routes = to_nobody ∷ [] }
      ∷ []
unfolding build_topology_groups key_of route_matches_topology_filter
grouped = refl

filtered :
    build_topology_groups same_text peers "api" as_they_come routes
    ≡ record { key = "A"; label = "web"; routes = record to_web { name = "api" } ∷ [] } ∷ []
unfolding build_topology_groups key_of route_matches_topology_filter
filtered = refl

collapsed :
    topology_scale_rows (λ k. false) (build_topology_groups same_text peers "" as_they_come routes)
    ≡ stand_in 2 ("80" ∷ "443" ∷ "80" ∷ "443" ∷ []) "10.0.0.2" false
      ∷ stand_in 1 [] "10.0.0.9" true
      ∷ []
unfolding build_topology_groups topology_scale_rows key_of
collapsed = refl

reopened :
    group_expanded true
      (set_group_expanded true (set_group_expanded true [] "A" false) "A" true)
      "A"
    ≡ true
unfolding group_expanded set_group_expanded
reopened = refl

build_topology_groups-IsGrouping_example :
    IsGrouping same_text peers "api" routes
      (build_topology_groups same_text peers "api" as_they_come routes)
build_topology_groups-IsGrouping_example =
    build_topology_groups-IsGrouping same_text peers "api" as_they_come routes
