-- ===== src/Playout/Status/Multi.antt =====
-- apps/api/src/services/playout/queue-status.ts, getMultiChannelQueueStatus: the statuses of many
-- channels at once. A `Map` is an association list; `set` on a key that is there replaces its value.
pub mod Gathering
pub mod Agreement
use snc_platform.Prelude.{
  ℕ, String, Bool, true, false, Option, none, some, List, [], ◌∷◌, ◌++◌, ◌&&◌, str_eq, map,
  if◌then◌else◌,
}
use snc_platform.Prelude.Table.{select, first, count_where, order_by}
use snc_platform.Playout.Store.{QueueRow, PoolRow, Channel, Store, is_live, by_position, truthy}
use snc_platform.Playout.Pool.{mem_text}
use snc_platform.Playout.Status.{
  ChannelQueueStatus, status_entry, map_option, row_is_playing, row_is_queued,
}

abbrev pub live_in : List String → QueueRow → Bool
live_in ids r = mem_text ids r.channel_id && is_live r.status

abbrev pub channel_in : List String → Channel → Bool
channel_in ids c = mem_text ids c.id

-- `channelNameMap.get`: of two rows with one id the later one counts.
unfoldable pub name_in : String → List Channel → Option String
name_in ch [] = none
name_in ch (c ∷ cs) = elim (name_in ch cs) [
  | some name ↦ some name
  | none ↦ if str_eq c.id ch then some c.name else none
]

-- `poolCountMap.get(ch) ?? 0`: the size of the channel's group.
abbrev pub pooled_in : List String → String → PoolRow → Bool
pooled_in ids ch r = mem_text ids r.channel_id && str_eq r.channel_id ch

-- A turn of the loop that gathers the rows by channel.
unfoldable pub add_row : QueueRow → List (String × List QueueRow) → List (String × List QueueRow)
add_row r [] = (r.channel_id, r ∷ []) ∷ []
add_row r ((k, rs) ∷ m) =
    if str_eq k r.channel_id then (k, rs ++ r ∷ []) ∷ m else (k, rs) ∷ add_row r m

unfoldable pub gather :
    List QueueRow → List (String × List QueueRow) → List (String × List QueueRow)
gather [] m = m
gather (r ∷ rs) m = gather rs (add_row r m)

-- `queueByChannel.get(ch) ?? []`
unfoldable pub rows_of : String → List (String × List QueueRow) → List QueueRow
rows_of ch [] = []
rows_of ch ((k, rs) ∷ m) = if str_eq k ch then rs else rows_of ch m

unfoldable pub queue_by_channel : List String → Store → List (String × List QueueRow)
queue_by_channel ids s = gather (order_by by_position (select (live_in ids) s.queue)) []

unfoldable pub named_status : List String → String → String → Store → ChannelQueueStatus
named_status ids ch name s =
    let rows = rows_of ch (queue_by_channel ids s) in
    record {
      channel_id = ch;
      channel_name = name;
      now_playing = map_option (status_entry s) (first row_is_playing rows);
      upcoming = map (status_entry s) (select row_is_queued rows);
      pool_size = count_where (pooled_in ids ch) s.pool;
    }

-- `if (!name) continue`: a channel that is not there is passed over, one named "" too.
unfoldable pub status_in : List String → String → Option String → Store → Option ChannelQueueStatus
status_in ids ch none s = none
status_in ids ch (some name) s = some (named_status ids ch name s)

unfoldable pub set_status :
    String
    → ChannelQueueStatus
    → List (String × ChannelQueueStatus)
    → List (String × ChannelQueueStatus)
set_status k v [] = (k, v) ∷ []
set_status k v ((j, w) ∷ m) = if str_eq j k then (j, v) ∷ m else (j, w) ∷ set_status k v m

abbrev pub put :
    String
    → Option ChannelQueueStatus
    → List (String × ChannelQueueStatus)
    → List (String × ChannelQueueStatus)
put ch none m = m
put ch (some v) m = set_status ch v m

abbrev pub found_name : List String → String → Store → Option String
found_name ids ch s = truthy (name_in ch (select (channel_in ids) s.channels))

unfoldable pub collect :
    List String
    → List String
    → Store
    → List (String × ChannelQueueStatus)
    → List (String × ChannelQueueStatus)
collect ids [] s m = m
collect ids (ch ∷ chs) s m = collect ids chs s (put ch (status_in ids ch (found_name ids ch s) s) m)

unfoldable pub get_multi_channel_queue_status :
    List String → Store → List (String × ChannelQueueStatus)
get_multi_channel_queue_status ids s = collect ids ids s []

-- `Map.get` on the result.
unfoldable pub status_of : String → List (String × ChannelQueueStatus) → Option ChannelQueueStatus
status_of ch [] = none
status_of ch ((k, v) ∷ m) = if str_eq k ch then some v else status_of ch m
