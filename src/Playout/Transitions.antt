-- ===== src/Playout/Transitions.antt =====
-- apps/api/src/services/playout-queue-transitions.ts: the only writers of a queue row's status,
-- and the only creators and removers of live rows.
pub mod Playing
pub mod Births
pub mod Positions
use snc_platform.Prelude.{
  ℕ, suc, ◌+◌, max, String, Bool, true, false, Option, none, some, List, [], ◌∷◌, ◌++◌, ◌&&◌,
  str_eq, leb, if◌then◌else◌, length,
}
use snc_platform.Prelude.Table.{select, update, delete, first, order_by}
use snc_platform.Shared.{AppError, Result, ok, err}
use snc_platform.Events.{
  PlatformEvent, ChangeType, playout_queue_changed, playout_now_playing_changed,
  content_playout_changed,
}
use snc_platform.Playout.Store.{
  QueueStatus, queued, playing, played, QueueSource, playout_source, content_source, QueueRow,
  Channel, Store, Env, has_id, is_playing, queued_on, live_on, channel_has_id, by_position, truthy,
  publish,
}

-- `findChannelCreatorId` of apps/api/src/services/channels.ts.
unfoldable pub find_channel_creator_id : String → Store → Option String
find_channel_creator_id ch s = elim (first (channel_has_id ch) s.channels) [
  | none ↦ none
  | some c ↦ if str_eq c.ownership "creator" then c.creator_id else none
]

-- The creator's copy of an event; a platform channel has none.
unfoldable pub publish_creator_editorial_change : String → ChangeType → Store → Store
unfolding find_channel_creator_id
publish_creator_editorial_change ch change s = elim (truthy (find_channel_creator_id ch s)) [
  | none ↦ s
  | some creator ↦ publish (content_playout_changed ch creator change) s
]

abbrev pub with_status : QueueStatus → QueueRow → QueueRow
with_status st r = record r { status = st }

-- playing → played
unfoldable pub mark_played : String → String → Store → Store
mark_played entry_id ch s =
    let s1 = record s { queue = update (has_id entry_id) (with_status played) s.queue } in
    publish_creator_editorial_change ch ChangeType.now_playing
      (publish (playout_now_playing_changed ch) s1)

-- The queued row of the channel with the lowest position.
unfoldable pub next_queued : String → List QueueRow → Option QueueRow
next_queued ch q = first (λ _. true) (order_by by_position (select (queued_on ch) q))

-- queued → playing, for the next row; the result is that row as it was read.
unfoldable pub promote_next : String → Store → Store × Option QueueRow
promote_next ch s = elim (next_queued ch s.queue) [
  | none ↦ (s, none)
  | some next ↦ (
    publish_creator_editorial_change ch ChangeType.now_playing (
        publish (playout_now_playing_changed ch)
          (record s { queue = update (has_id next.id) (with_status playing) s.queue })),
    some next,
  )
]

abbrev pub source_playout_item : QueueSource → Option String
source_playout_item (playout_source p) = some p
source_playout_item (content_source c) = none

abbrev pub source_content : QueueSource → Option String
source_content (playout_source p) = none
source_content (content_source c) = some c

-- `MAX(position) ?? 0`
unfoldable pub max_position : List QueueRow → ℕ
max_position [] = 0
max_position (r ∷ rs) = max r.position (max_position rs)

unfoldable pub next_position : String → List QueueRow → ℕ
next_position ch q = max_position (select (live_on ch) q) + 1

abbrev pub new_row : Env → ℕ → ℕ → String → QueueSource → ℕ → QueueRow
new_row env n created ch source position = record {
  id = env.uuid n;
  channel_id = ch;
  playout_item_id = source_playout_item source;
  content_id = source_content source;
  position = position;
  status = queued;
  pushed_to_liquidsoap = false;
  created_at = created;
}

abbrev pub at_or_after : String → ℕ → QueueRow → Bool
at_or_after ch p r = queued_on ch r && leb p r.position

abbrev pub shift : QueueRow → QueueRow
shift r = record r { position = r.position + 1 }

-- Shift the queued rows from `position` on, or find the end of the queue; the place to insert at.
unfoldable pub make_room : String → Option ℕ → List QueueRow → List QueueRow × ℕ
make_room ch (some p) q = (update (at_or_after ch p) shift q, p)
make_room ch none q = (q, next_position ch q)

-- Birth of one queued row; the INSERT returns the row.
unfoldable pub enqueue : Env → String → QueueSource → Option ℕ → Store → Store × QueueRow
enqueue env ch source position s =
    let room = make_room ch position s.queue in
    let row = new_row env s.ids_used s.now ch source room.1 in
    let s1 = record s { queue = room.0 ++ row ∷ []; ids_used = suc s.ids_used } in
    (
      publish_creator_editorial_change ch ChangeType.queue (publish (playout_queue_changed ch) s1),
      row,
    )

-- The rows of a batch, at consecutive positions and with the ids from the n-th on.
unfoldable pub batch_rows : Env → String → ℕ → ℕ → ℕ → List QueueSource → List QueueRow
batch_rows env ch created n position [] = []
batch_rows env ch created n position (x ∷ xs) =
    new_row env n created ch x position ∷ batch_rows env ch created (suc n) (position + 1) xs

abbrev insert_batch : Env → String → List QueueSource → Store → Store
insert_batch env ch sources s =
    let rows = batch_rows env ch s.now s.ids_used (next_position ch s.queue) sources in
    let s1 = record s { queue = s.queue ++ rows; ids_used = s.ids_used + length sources } in
    publish_creator_editorial_change ch ChangeType.queue (publish (playout_queue_changed ch) s1)

-- Batch birth: the number of rows inserted.
unfoldable pub enqueue_batch : Env → String → List QueueSource → Store → Store × ℕ
enqueue_batch env ch [] s = (s, 0)
enqueue_batch env ch (x ∷ xs) s = (insert_batch env ch (x ∷ xs) s, length (x ∷ xs))

abbrev pub cannot_remove_playing : AppError
cannot_remove_playing = record {
  code = "CANNOT_REMOVE_PLAYING";
  message = "Cannot remove the currently playing item";
  status_code = 409;
}

-- Remove a row that is not playing; the caller passes the row as it read it.
unfoldable pub remove_queued : QueueRow → Store → Store × Result (Unit {0})
remove_queued entry s = if is_playing entry.status then (s, err cannot_remove_playing) else (
  publish_creator_editorial_change entry.channel_id ChangeType.queue (
      publish (playout_queue_changed entry.channel_id)
        (record s { queue = delete (has_id entry.id) s.queue })),
  ok tt,
)
