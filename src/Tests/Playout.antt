-- ===== src/Tests/Playout.antt =====
-- The playout services on a creator's channel.
use snc_platform.Prelude.{
  ◌+◌, List, true, false, String, ◌≤◌, ◌≡◌, refl, some, [], ◌∷◌, ◌++◌, arith, length, All, map, min,
  if◌then◌else◌, leb, ◌-◌,
}
use snc_platform.Prelude.Table.{select, update, first, count_where, any, order_by}
use snc_platform.Shared.{ok}
use snc_platform.Playout.Store.{queued, playing, content_source, has_id, QueueRow}
use snc_platform.Playout.Rows.{HasDistinctIds}
use snc_platform.Playout.Handlers.{
  Call, run, start, auto, track_started, skip_track, insert, remove, elapse,
}
use snc_platform.Playout.Transitions.{
  with_status, promote_next, next_queued, enqueue, batch_rows, next_position,
  publish_creator_editorial_change,
}
use snc_platform.Playout.Transitions.Playing.{IsNext, promote_next-IsNext}
use snc_platform.Playout.Transitions.Positions.{moved, KeepsOrder, enqueue_at_position}
use snc_platform.Playout.Pool.{
  creator_scope, resolve_pool_scope, assign_content, assign_scoped, assign_checked,
  check_assignment, reject_disallowed, disallowed,
}
use snc_platform.Playout.Pool.Assignment.{IsOwned, assign_content-IsOwned}
use snc_platform.Playout.AutoFill.{depth, auto_fill, auto_fill_batch, auto_fill_threshold}
use snc_platform.Playout.AutoFill.Laws.{
  filled, candidates_of, IsOwnPick, depth-auto_fill, auto_fill-IsOwnPick,
}
use snc_platform.Playout.Prefetch.{push_prefetch_buffer}
use snc_platform.Playout.Prefetch.Laws.{unflagged, push_prefetch_buffer-bounded}
use snc_platform.Playout.Control.{on_track_started, skip, remove_from_queue}
use snc_platform.Playout.Control.Removal.{Removes, remove_from_queue-Removes}
use snc_platform.Playout.Invariant.Advance.{IsSound}
use snc_platform.Playout.Invariant.Calls.{run-IsSound}
use snc_platform.Playout.Invariant.Lifecycle.{StoreEvolves, advancing-Evolves}
use snc_platform.Playout.Store.{channel_has_id}
use mathlib.Core.List.{Memᴰ}
use snc_platform.Playout.Invariant.Progress.{ahead, HasStarted}
use snc_platform.Playout.Invariant.Progress.Rounds.{rounds, rounds-HasStarted}
use snc_platform.Playout.Status.{channel_status, get_channel_queue_status}
use snc_platform.Playout.Status.Multi.{get_multi_channel_queue_status, status_of}
use snc_platform.Playout.Status.Multi.Agreement.{
  HasDistinctChannels, get_multi_channel_queue_status_lem,
}
use snc_platform.Tests.Data.{channel, env, env-UuidsDiffer, empty_store, busy_store, row}

empty_store-IsSound : IsSound env empty_store
unfolding any count_where
empty_store-IsSound = record {
  distinct = tt;
  fresh = λ k h. refl;
  one_source = tt;
  one_playing = λ c. omega arith;
}

abbrev day : List Call
day =
    start
    ∷ auto "tv"
    ∷ track_started "tv"
    ∷ insert "tv" (content_source "film") (some 1)
    ∷ elapse 60000
    ∷ skip_track "tv"
    ∷ remove "tv" "x"
    ∷ []

run-IsSound_example : IsSound env (run env day empty_store)
run-IsSound_example = run-IsSound env env-UuidsDiffer day empty_store empty_store-IsSound

advancing-Evolves_example :
    StoreEvolves (run env day empty_store) (on_track_started env "tv" (run env day empty_store)).0
    × StoreEvolves (run env day empty_store) (skip env "tv" (run env day empty_store)).0
advancing-Evolves_example =
    advancing-Evolves env "tv" (run env day empty_store) env-UuidsDiffer
      (run-IsSound env env-UuidsDiffer day empty_store empty_store-IsSound)

promoted : (promote_next "tv" busy_store).1 ≡ some (row "r3" queued 2)
unfolding promote_next next_queued first order_by select
promoted = refl

promote_next-IsNext_example :
    IsNext "tv" busy_store.queue (row "r3" queued 2)
    × ((promote_next "tv" busy_store).0.queue
        ≡ update (has_id "r3") (with_status playing) busy_store.queue)
promote_next-IsNext_example = promote_next-IsNext "tv" busy_store promoted

busy_ids : HasDistinctIds busy_store.queue
unfolding any
busy_ids = (refl, (refl, (refl, tt)))

remove_from_queue-Removes_example :
    Removes "tv" "r2" busy_store (remove_from_queue "tv" "r2" busy_store)
remove_from_queue-Removes_example = remove_from_queue-Removes "tv" "r2" busy_store busy_ids

enqueue_at_position_example :
    ((enqueue env "tv" (content_source "film") (some 3) busy_store).0.queue
      ≡ map (moved "tv" 3) busy_store.queue
        ++ (enqueue env "tv" (content_source "film") (some 3) busy_store).1 ∷ [])
    × ((enqueue env "tv" (content_source "film") (some 3) busy_store).1.position ≡ 3)
    × ((enqueue env "tv" (content_source "film") (some 3) busy_store).1.channel_id ≡ "tv")
    × ((enqueue env "tv" (content_source "film") (some 3) busy_store).1.status ≡ queued)
    × KeepsOrder "tv" 3 (row "r3" queued 2) (row "r2" queued 3)
enqueue_at_position_example =
    enqueue_at_position env "tv" (content_source "film") 3 busy_store (row "r3" queued 2)
      (row "r2" queued 3) refl refl

scoped : resolve_pool_scope "tv" busy_store ≡ ok (creator_scope "band")
unfolding resolve_pool_scope first
scoped = refl

assigned : (assign_content env "tv" [] ("song" ∷ []) busy_store).1 ≡ ok tt
unfolding assign_content assign_scoped resolve_pool_scope first assign_checked check_assignment
    reject_disallowed disallowed select any
assigned = refl

abbrev no_ids : List String
no_ids = []

assign_content-IsOwned_example :
    (no_ids ≡ []) × All (IsOwned "band" busy_store.contents) ("song" ∷ [])
assign_content-IsOwned_example =
    assign_content-IsOwned env "tv" "band" no_ids ("song" ∷ []) busy_store scoped assigned

depth-auto_fill_example :
    depth "tv" (auto_fill env "tv" empty_store)
    ≡ depth "tv" empty_store
      + (if leb auto_fill_threshold (depth "tv" empty_store)
          then 0
          else min
              (auto_fill_batch - depth "tv" empty_store)
              (candidates_of env "tv" empty_store (resolve_pool_scope "tv" empty_store)))
depth-auto_fill_example = depth-auto_fill env "tv" empty_store

empty_scoped : resolve_pool_scope "tv" empty_store ≡ ok (creator_scope "band")
unfolding resolve_pool_scope first
empty_scoped = refl

auto_fill-IsOwnPick_example :
    ((auto_fill env "tv" empty_store).queue
      ≡ empty_store.queue
        ++ batch_rows env "tv" empty_store.now empty_store.ids_used
            (next_position "tv" empty_store.queue)
            (filled env "tv" empty_store))
    × All (IsOwnPick "tv" "band" empty_store) (filled env "tv" empty_store)
auto_fill-IsOwnPick_example = auto_fill-IsOwnPick env "tv" "band" empty_store empty_scoped

push_prefetch_buffer-bounded_example :
    (unflagged (push_prefetch_buffer env "tv" busy_store).queue ≡ unflagged busy_store.queue)
    × (length (push_prefetch_buffer env "tv" busy_store).tracks ≤ length busy_store.tracks + 3)
push_prefetch_buffer-bounded_example = push_prefetch_buffer-bounded env "tv" busy_store

-- The entry at position 3 has the one at position 2 before it.
two_ahead : ahead "tv" 3 busy_store.queue ≤ 2
unfolding count_where
two_ahead = omega arith

rounds-HasStarted_example :
    (y : QueueRow) × Memᴰ y (run env (rounds "tv" (true ∷ false ∷ [])) busy_store).queue
    × (y.id ≡ "r2")
    × HasStarted y
rounds-HasStarted_example =
    rounds-HasStarted env "tv" (true ∷ false ∷ []) busy_store (row "r2" queued 3)
      (Memᴰ.tail (Memᴰ.head refl)) refl two_ahead

-- Auto-fill of the empty queue takes both pooled videos.
two_filled : depth "tv" (auto_fill env "tv" empty_store) ≡ 2
unfolding auto_fill count_where first any publish_creator_editorial_change batch_rows
two_filled = refl

busy_channels : HasDistinctChannels busy_store.channels
busy_channels = ((refl, tt), (tt, tt))

channel_found : first (channel_has_id "tv") busy_store.channels ≡ some channel
unfolding first
channel_found = refl

get_multi_channel_queue_status_lem_example :
    (status_of "tv" (get_multi_channel_queue_status ("main" ∷ "tv" ∷ []) busy_store)
      ≡ some (channel_status channel "tv" busy_store))
    × (get_channel_queue_status "tv" busy_store ≡ ok (channel_status channel "tv" busy_store))
get_multi_channel_queue_status_lem_example =
    get_multi_channel_queue_status_lem ("main" ∷ "tv" ∷ []) busy_store "tv" channel busy_channels
      refl channel_found refl
