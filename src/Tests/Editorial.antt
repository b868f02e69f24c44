-- ===== src/Tests/Editorial.antt =====
-- Channels that carry other channels.
use Prim.Native.String
use snc_platform.Prelude.{String, ◌≡◌, ◌⊎◌, refl, some, List, [], ◌∷◌}
use snc_platform.Shared.{ok, err, validation_error}
use snc_platform.Editorial.Graph.{
  ChannelSourceEdge, build, push_neighbor, ensure_node, neighbors, visit_all, dfs_visit, visit_keys,
  find_cycle, slice_from, join_arrow, detect_channel_source_cycles, add_edge,
}
use snc_platform.Editorial.Graph.Decides.{Walk, IsTour, detect_channel_source_cycles-decides}

abbrev edge : String → String → ChannelSourceEdge
edge u v = record { channel_id = u; source_channel_id = v }

-- The main channel carries two that both carry a third.
abbrev diamond : List ChannelSourceEdge
diamond = edge "main" "music" ∷ edge "main" "film" ∷ edge "music" "loop" ∷ edge "film" "loop" ∷ []

abbrev ring : List ChannelSourceEdge
ring = edge "main" "music" ∷ edge "music" "film" ∷ edge "film" "music" ∷ []

diamond_ok : detect_channel_source_cycles diamond ≡ some (ok tt)
unfolding detect_channel_source_cycles find_cycle visit_keys dfs_visit visit_all build push_neighbor
    ensure_node add_edge neighbors
diamond_ok = refl

ring_cycle :
    detect_channel_source_cycles ring
    ≡ some (err (validation_error "Channel-as-source cycle detected: music → film → music"))
unfolding detect_channel_source_cycles find_cycle visit_keys dfs_visit visit_all build push_neighbor
    ensure_node add_edge neighbors slice_from
ring_cycle = refl

self_loop :
    detect_channel_source_cycles (edge "main" "main" ∷ [])
    ≡ some (err (validation_error "Channel-as-source cycle detected: main → main"))
unfolding detect_channel_source_cycles find_cycle visit_keys dfs_visit visit_all build push_neighbor
    ensure_node add_edge neighbors slice_from
self_loop = refl

detect_channel_source_cycles-decides_example :
    ((p : List String) × (detect_channel_source_cycles ring
        ≡ some (
            err
              (validation_error (String.◌++◌ "Channel-as-source cycle detected: " (join_arrow p)))))
      × IsTour ring p)
    ⊎ ((detect_channel_source_cycles ring ≡ some (ok tt)) × ((u : String) → ¬ (Walk ring u u)))
detect_channel_source_cycles-decides_example = detect_channel_source_cycles-decides ring
