-- ===== src/Topology.antt =====
-- web/static/js/pages/topology.js: the routes of a large config, grouped by the peer that they go to.
-- Texts are trimmed, and a route's protocol is the text that `routeProtoPlainText` makes of it.
-- `toLowerCase` and the collator of the labels are arguments.
pub mod Groups
pub mod Grouping
pub mod Whole
mod Examples
use Prim.Native.Char.{Char, code}
use Prim.Native.String
use evuproxy.Common.{
  ℕ, suc, ◌+◌, String, Bool, true, false, not, ◌&&◌, ◌||◌, Option, none, some, List, [], ◌∷◌, ◌++◌,
  ◌==◌, leb, length, all, keep, map, str_eq, if◌then◌else◌,
}

pub record Peer : Type 0 where
  pub name : String
  pub tunnel_ip : String
  pub public_key : String

pub record Route : Type 0 where
  pub name : String
  pub proto : String
  pub ports : List String
  pub target_ip : String
  pub disabled : Bool

pub record Group : Type 0 where
  pub key : String
  pub label : String
  pub routes : List Route

abbrev is_digit : Char → Bool
is_digit c = leb 48 (code c) && leb (code c) 57

abbrev is_digit_or_dot : Char → Bool
is_digit_or_dot c = is_digit c || (code c == 46)

abbrev all_digits : String → Bool
all_digits String.[] = true
all_digits (String.◌∷◌ c s) = is_digit c && all_digits s

-- What may stand behind the host: nothing, or a slash and digits.
abbrev is_suffix : String → Bool
is_suffix String.[] = true
is_suffix (String.◌∷◌ c String.[]) = false
is_suffix (String.◌∷◌ c (String.◌∷◌ d s)) = (code c == 47) && is_digit d && all_digits s

-- The digits and dots in front, if what follows them may stand there.
abbrev host_part : String → Option String
host_part String.[] = some ""
host_part (String.◌∷◌ c s) =
    let rest = host_part s in
    if is_digit_or_dot c then push c rest else if is_suffix (String.◌∷◌ c s) then some "" else none
  where
    push : Char → Option String → Option String
    push c none = none
    push c (some t) = some (String.◌∷◌ c t)

-- `tunnelToHost`: one digit or dot at least, else the empty text.
unfoldable pub tunnel_to_host : String → String
tunnel_to_host s = elim (host_part s) [ none ↦ "" | some t ↦ t ]

unfoldable pub topology_peer_for_host : List Peer → String → Option Peer
unfolding tunnel_to_host
topology_peer_for_host [] host = none
topology_peer_for_host (p ∷ peers) host =
    let rest = topology_peer_for_host peers host in
    if str_eq (tunnel_to_host p.tunnel_ip) host then some p else rest

abbrev pub topology_peer_key : Option Peer → String → String
topology_peer_key none host = String.◌++◌ "orphan:" host
topology_peer_key (some p) host = if str_eq p.public_key "" then "peer-empty-key" else p.public_key

abbrev pub group_label : Option Peer → String → String
group_label none host = host
group_label (some p) host = p.name

-- `includes`
abbrev starts_with : String → String → Bool
starts_with String.[] s = true
starts_with (String.◌∷◌ c q) String.[] = false
starts_with (String.◌∷◌ c q) (String.◌∷◌ d s) = (code c == code d) && starts_with q s

abbrev includes : String → String → Bool
includes String.[] q = starts_with q String.[]
includes (String.◌∷◌ c s) q = starts_with q (String.◌∷◌ c s) || includes s q

abbrev join : String → List String → String
join sep [] = ""
join sep (t ∷ []) = t
join sep (t ∷ u ∷ ts) = String.◌++◌ t (String.◌++◌ sep (join sep (u ∷ ts)))

abbrev peer_texts : Option Peer → List String
peer_texts none = "" ∷ "" ∷ []
peer_texts (some p) = p.name ∷ p.tunnel_ip ∷ []

-- A group is added for a new key. The keys of a Map differ: at most one group has a route's key.
abbrev pub has_key : String → List Group → Bool
has_key k [] = false
has_key k (g ∷ groups) = str_eq g.key k || has_key k groups

abbrev pub push_route : String → List Route → Group → Group
push_route k rs g = if str_eq g.key k then record g { routes = g.routes ++ rs } else g

abbrev pub is_filled : Group → Bool
is_filled g = elim g.routes [ [] ↦ false | r ∷ rs ↦ true ]

-- The stable sort by label: a group goes before the first that it does not come after.
abbrev pub insert_group : (String → String → Bool) → Group → List Group → List Group
insert_group not_after g [] = g ∷ []
insert_group not_after g (h ∷ groups) =
    let rest = insert_group not_after g groups in
    if not_after g.label h.label then g ∷ h ∷ groups else h ∷ rest

abbrev pub sort_groups : (String → String → Bool) → List Group → List Group
sort_groups not_after [] = []
sort_groups not_after (g ∷ groups) = insert_group not_after g (sort_groups not_after groups)

module _ (lower : String → String) (peers : List Peer) (q : String) where
  unfoldable pub route_matches_topology_filter : Route → Bool
  unfolding topology_peer_for_host
  route_matches_topology_filter r =
      includes
        (lower (
          join " " (
            r.name
            ∷ r.proto
            ∷ join ", " r.ports
            ∷ r.target_ip
            ∷ peer_texts (topology_peer_for_host peers r.target_ip))))
        q

  unfoldable pub key_of : Route → String
  unfolding topology_peer_for_host
  key_of r = topology_peer_key (topology_peer_for_host peers r.target_ip) r.target_ip

  -- `q` is the filter, in lower case.
  abbrev pub is_shown : Route → Bool
  is_shown r = if str_eq q "" then true else route_matches_topology_filter r

  unfoldable pub add_route : List Group → Route → List Group
  unfolding topology_peer_for_host
  add_route groups r =
      let k = key_of r in
      let rs = if is_shown r then r ∷ [] else [] in
      let label = group_label (topology_peer_for_host peers r.target_ip) r.target_ip in
      if has_key k groups
      then map (push_route k rs) groups
      else groups ++ (record { key = k; label = label; routes = rs } ∷ [])

  unfoldable pub add_routes : List Group → List Route → List Group
  unfolding add_route
  add_routes groups [] = groups
  add_routes groups (r ∷ routes) = add_routes (add_route groups r) routes

  unfoldable pub build_topology_groups : (String → String → Bool) → List Route → List Group
  unfolding add_routes
  build_topology_groups not_after routes =
      sort_groups not_after (keep is_filled (add_routes [] routes))

-- What the graph draws: a route, or one stand-in for the routes of a collapsed peer.
pub data Drawn : Type 0 where
  route : Route → Drawn
  stand_in : ℕ → List String → String → Bool → Drawn

abbrev all_ports : List Route → List String
all_ports [] = []
all_ports (r ∷ rs) = r.ports ++ all_ports rs

abbrev first_target : List Route → String
first_target [] = ""
first_target (r ∷ rs) = r.target_ip

abbrev pub drawn_each : List Route → List Drawn
drawn_each [] = []
drawn_each (r ∷ rs) = route r ∷ drawn_each rs

unfoldable pub topology_scale_rows : (String → Bool) → List Group → List Drawn
topology_scale_rows expanded [] = []
topology_scale_rows expanded (g ∷ groups) =
    let rest = topology_scale_rows expanded groups in
    if expanded g.key
    then drawn_each g.routes ++ rest
    else stand_in (length g.routes) (all_ports g.routes) (first_target g.routes)
        (all (λ r. r.disabled) g.routes)
      ∷ rest

-- `topologyGroupExpanded` and `setTopologyGroupExpanded`: while filtering, the set holds the closed ones.
abbrev member : String → List String → Bool
member k [] = false
member k (j ∷ ks) = str_eq j k || member k ks

abbrev delete_key : String → List String → List String
delete_key k [] = []
delete_key k (j ∷ ks) = if str_eq j k then delete_key k ks else j ∷ delete_key k ks

unfoldable pub group_expanded : Bool → List String → String → Bool
group_expanded filtering keys k = if filtering then not (member k keys) else member k keys

unfoldable pub set_group_expanded : Bool → List String → String → Bool → List String
set_group_expanded filtering keys k opened =
    if (if opened then filtering else not filtering) then delete_key k keys else k ∷ keys
