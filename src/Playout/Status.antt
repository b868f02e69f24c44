-- ===== src/Playout/Status.antt =====
-- apps/api/src/services/playout/queue-projections.ts and queue-status.ts: what a channel's queue
-- looks like to its readers. Timestamps stay numbers.
pub mod Multi
use snc_platform.Prelude.{ℕ, String, Bool, Option, none, some, List, str_eq, map}
use snc_platform.Prelude.Table.{select, first, count_where, order_by}
use snc_platform.Shared.{Result, ok, err, not_found_error}
use snc_platform.Playout.Store.{
  QueueStatus, QueueRow, PoolRow, Channel, PlayoutItem, Content, Store, is_queued, is_playing,
  live_on, channel_has_id, by_position,
}

pub data SourceType : Type 0 where
  playout content : SourceType

-- A queue row with the display fields of its source.
pub record QueueEntry : Type 0 where
  pub id : String
  pub channel_id : String
  pub playout_item_id : Option String
  pub content_id : Option String
  pub source_type : SourceType
  pub position : ℕ
  pub status : QueueStatus
  pub pushed_to_liquidsoap : Bool
  pub created_at : ℕ
  pub title : Option String
  pub duration : Option ℕ

abbrev pub to_queue_entry : QueueRow → SourceType → Option String → Option ℕ → QueueEntry
to_queue_entry r source_type title duration = record {
  id = r.id;
  channel_id = r.channel_id;
  playout_item_id = r.playout_item_id;
  content_id = r.content_id;
  source_type = source_type;
  position = r.position;
  status = r.status;
  pushed_to_liquidsoap = r.pushed_to_liquidsoap;
  created_at = r.created_at;
  title = title;
  duration = duration;
}

abbrev pub item_has_id : String → PlayoutItem → Bool
item_has_id x i = str_eq i.id x

abbrev pub content_has_id : String → Content → Bool
content_has_id x c = str_eq c.id x

-- LEFT JOIN: the row of the source, if the column is set and the row is there.
unfoldable pub joined_item : Option String → Store → Option PlayoutItem
joined_item none s = none
joined_item (some x) s = first (item_has_id x) s.playout_items

unfoldable pub joined_content : Option String → Store → Option Content
joined_content none s = none
joined_content (some x) s = first (content_has_id x) s.contents

abbrev coalesce {ℓ} : {A : Type ℓ} → Option A → Option A → Option A
coalesce none b = b
coalesce (some a) b = some a

abbrev item_title : Option PlayoutItem → Option String
item_title none = none
item_title (some i) = i.title

abbrev item_duration : Option PlayoutItem → Option ℕ
item_duration none = none
item_duration (some i) = i.duration

abbrev content_title : Option Content → Option String
content_title none = none
content_title (some c) = some c.title

abbrev content_duration : Option Content → Option ℕ
content_duration none = none
content_duration (some c) = c.duration

abbrev source_type_of : Option String → SourceType
source_type_of none = SourceType.content
source_type_of (some x) = SourceType.playout

-- `QUEUE_STATUS_COLUMNS` over the two joins.
unfoldable pub status_entry : Store → QueueRow → QueueEntry
unfolding joined_item joined_content
status_entry s r =
    let item = joined_item r.playout_item_id s in
    let piece = joined_content r.content_id s in
    to_queue_entry r (source_type_of r.playout_item_id)
      (coalesce (item_title item) (content_title piece))
      (coalesce (item_duration item) (content_duration piece))

pub record ChannelQueueStatus : Type 0 where
  pub channel_id : String
  pub channel_name : String
  pub now_playing : Option QueueEntry
  pub upcoming : List QueueEntry
  pub pool_size : ℕ

abbrev pub live_rows : String → Store → List QueueRow
live_rows ch s = order_by by_position (select (live_on ch) s.queue)

abbrev pub row_is_playing : QueueRow → Bool
row_is_playing r = is_playing r.status

abbrev pub row_is_queued : QueueRow → Bool
row_is_queued r = is_queued r.status

abbrev pub in_pool_of : String → PoolRow → Bool
in_pool_of ch r = str_eq r.channel_id ch

abbrev pub map_option {ℓ κ} : {A : Type ℓ} {B : Type κ} → (A → B) → Option A → Option B
map_option f none = none
map_option f (some a) = some (f a)

unfoldable pub channel_status : Channel → String → Store → ChannelQueueStatus
unfolding status_entry
channel_status c ch s = record {
  channel_id = ch;
  channel_name = c.name;
  now_playing = map_option (status_entry s) (first row_is_playing (live_rows ch s));
  upcoming = map (status_entry s) (select row_is_queued (live_rows ch s));
  pool_size = count_where (in_pool_of ch) s.pool;
}

unfoldable pub get_channel_queue_status : String → Store → Result ChannelQueueStatus
unfolding channel_status
get_channel_queue_status ch s = elim (first (channel_has_id ch) s.channels) [
  | none ↦ err (not_found_error "Channel not found")
  | some c ↦ ok (channel_status c ch s)
]
