-- ===== src/Editorial/Graph.antt =====
-- apps/api/src/services/editorial-graph.ts: cycles among the channels that carry other channels. A
-- `Map` from a channel to its sources is an association list in insertion order; the map of visit
-- states is a function, as a missing key reads as unvisited.
pub mod Walks
pub mod Marks
pub mod Search
pub mod Build
pub mod Decides
use Prim.Native.String
use snc_platform.Prelude.{
  ℕ, zero, suc, String, Bool, true, false, Option, none, some, List, [], ◌∷◌, ◌++◌, ◌||◌, str_eq,
  if◌then◌else◌, length, map,
}
use snc_platform.Shared.{Result, ok, err, validation_error}

pub record ChannelSourceEdge : Type 0 where
  pub channel_id : String
  pub source_channel_id : String

pub data VisitState : Type 0 where
  unvisited in_progress done : VisitState

abbrev pub Graph : Type 0
Graph = List (String × List String)

abbrev pub mem : List String → String → Bool
mem [] x = false
mem (y ∷ ys) x = str_eq y x || mem ys x

-- `graph.get(node) ?? []`
unfoldable pub neighbors : Graph → String → List String
neighbors [] u = []
neighbors ((k, vs) ∷ g) u = if str_eq k u then vs else neighbors g u

abbrev pub keys : Graph → List String
keys [] = []
keys ((k, vs) ∷ g) = k ∷ keys g

-- `neighbors.push(v); graph.set(u, neighbors)`
unfoldable pub push_neighbor : String → String → Graph → Graph
push_neighbor u v [] = (u, v ∷ []) ∷ []
push_neighbor u v ((k, vs) ∷ g) =
    if str_eq k u then (k, vs ++ v ∷ []) ∷ g else (k, vs) ∷ push_neighbor u v g

-- `if (!graph.has(v)) graph.set(v, [])`
unfoldable pub ensure_node : String → Graph → Graph
ensure_node v g = if mem (keys g) v then g else g ++ (v, []) ∷ []

unfoldable pub add_edge : ChannelSourceEdge → Graph → Graph
add_edge e g = ensure_node e.source_channel_id (push_neighbor e.channel_id e.source_channel_id g)

unfoldable pub build : List ChannelSourceEdge → Graph → Graph
build [] g = g
build (e ∷ es) g = build es (add_edge e g)

abbrev pub States : Type 0
States = String → VisitState

abbrev pub mark : String → VisitState → States → States
mark x v st = λ y. if str_eq y x then v else st y

abbrev pub from_first : String → List String → List String
from_first n [] = []
from_first n (x ∷ xs) = if str_eq x n then x ∷ xs else from_first n xs

abbrev pub last_one : List String → List String
last_one [] = []
last_one (x ∷ []) = x ∷ []
last_one (x ∷ y ∷ ys) = last_one (y ∷ ys)

-- `path.slice(path.indexOf(n))`: with no n on the path the index is -1.
unfoldable pub slice_from : String → List String → List String
slice_from n path = if mem path n then from_first n path else last_one path

pub data Outcome : Type 0 where
  found : (cycle : List String) → Outcome
  finished : (states : States) → Outcome
  out_of_fuel : Outcome

-- The loop over the neighbors of a node, with the recursive call as an argument.
unfoldable pub visit_all :
    (String → States → List String → Outcome)
    → String
    → List String
    → States
    → List String
    → Outcome
visit_all visit node [] st path = finished (mark node done st)
visit_all visit node (n ∷ ns) st path = elim (st n) [
  | in_progress ↦ found (slice_from n path ++ n ∷ [])
  | done ↦ visit_all visit node ns st path
  | unvisited ↦ elim (visit n st path) [
    | found cycle ↦ found cycle
    | out_of_fuel ↦ out_of_fuel
    | finished st' ↦ visit_all visit node ns st' path
  ]
]

-- The depth of the recursion is the fuel.
unfoldable pub dfs_visit : Graph → ℕ → String → States → List String → Outcome
dfs_visit g zero node st path = out_of_fuel
dfs_visit g (suc fuel) node st path =
    visit_all (dfs_visit g fuel) node (neighbors g node) (mark node in_progress st)
      (path ++ node ∷ [])

-- The loop over the keys: a search from each that is unvisited.
unfoldable pub visit_keys : Graph → ℕ → List String → States → Outcome
visit_keys g fuel [] st = finished st
visit_keys g fuel (k ∷ ks) st = elim (st k) [
  | in_progress ↦ visit_keys g fuel ks st
  | done ↦ visit_keys g fuel ks st
  | unvisited ↦ elim (dfs_visit g fuel k st []) [
    | found cycle ↦ found cycle
    | out_of_fuel ↦ out_of_fuel
    | finished st' ↦ visit_keys g fuel ks st'
  ]
]

unfoldable pub find_cycle : List ChannelSourceEdge → Outcome
find_cycle es =
    visit_keys (build es []) (length (keys (build es []))) (keys (build es [])) (λ _. unvisited)

abbrev pub join_arrow : List String → String
join_arrow [] = ""
join_arrow (x ∷ []) = x
join_arrow (x ∷ y ∷ ys) = String.◌++◌ x (String.◌++◌ " → " (join_arrow (y ∷ ys)))

-- No answer stands for a search that ran out of fuel.
abbrev pub report : Outcome → Option (Result (Unit {0}))
report (found cycle) =
    some
      (err (validation_error (String.◌++◌ "Channel-as-source cycle detected: " (join_arrow cycle))))
report (finished st) = some (ok tt)
report out_of_fuel = none

unfoldable pub detect_channel_source_cycles : List ChannelSourceEdge → Option (Result (Unit {0}))
detect_channel_source_cycles es = report (find_cycle es)
