-- ===== src/Playout/Control.antt =====
-- apps/api/src/services/playout/queue-control.ts and startup.ts: the handlers over the queue.
-- Each runs as one sequence of statements; logging is left out.
pub mod Removal
pub mod Insertion
use snc_platform.Prelude.{
  ℕ, suc, ◌+◌, String, Bool, true, false, Option, none, some, List, [], ◌∷◌, ◌&&◌, ◌||◌, not,
  str_eq, if◌then◌else◌, map,
}
use snc_platform.Prelude.Table.{select, update, first, any}
use snc_platform.Shared.{AppError, Result, ok, err, not_found_error, forbidden_error}
use snc_platform.Playout.Store.{
  QueueSource, playout_source, content_source, QueueRow, PoolRow, Channel, PlayoutItem, Content,
  Store, Env, column_eq, truthy, has_id, is_live, playing_on,
}
use snc_platform.Playout.Transitions.{mark_played, promote_next, enqueue, remove_queued}
use snc_platform.Playout.Pool.{PoolScope, creator_scope, all_creators, mem_text, resolve_pool_scope}
use snc_platform.Playout.AutoFill.{auto_fill, queue_depth_below_auto_fill_threshold}
use snc_platform.Playout.Prefetch.{push_prefetch_buffer, with_pushed}
use snc_platform.Playout.Status.{
  SourceType, QueueEntry, to_queue_entry, item_has_id, content_has_id,
}

-- The pool row that a queue row was drawn from.
abbrev pub pool_match : String → QueueRow → PoolRow → Bool
pool_match ch playing r = str_eq r.channel_id ch && elim (truthy playing.playout_item_id) [
  | some p ↦ column_eq r.playout_item_id p
  | none ↦ elim playing.content_id [ none ↦ false | some c ↦ column_eq r.content_id c ]
]

abbrev pub count_play : ℕ → PoolRow → PoolRow
count_play now r = record r { last_played_at = some now; play_count = r.play_count + 1 }

abbrev pub record_play : String → QueueRow → Store → Store
record_play ch playing s = record s {
  pool = update (pool_match ch playing) (count_play s.now) s.pool;
}

-- The row that was playing is played, and its pool row counts the play.
unfoldable pub finish_playing : String → Store → Store
finish_playing ch s = elim (first (playing_on ch) s.queue) [
  | none ↦ s
  | some r ↦ record_play ch r (mark_played r.id r.channel_id s)
]

-- The tail that `onTrackStarted` and `skip` share: promote, fill if the queue is short, push.
unfoldable pub advance : Env → String → Store → Store
advance env ch s =
    let s1 = (promote_next ch s).0 in
    let s2 = if queue_depth_below_auto_fill_threshold ch s1 then auto_fill env ch s1 else s1 in
    push_prefetch_buffer env ch s2

unfoldable pub on_track_started : Env → String → Store → Store × Result (Unit {0})
on_track_started env ch s = (advance env ch (finish_playing ch s), ok tt)

-- `skip` marks the row as played, and counts no play.
unfoldable pub stop_playing : String → Store → Store
stop_playing ch s = elim (first (playing_on ch) s.queue) [
  | none ↦ s
  | some r ↦ mark_played r.id r.channel_id s
]

-- A failed `skipTrack` is only logged.
unfoldable pub skip : Env → String → Store → Store × Result (Unit {0})
skip env ch s = (advance env ch (stop_playing ch s), ok tt)

abbrev pub in_pool : String → QueueSource → PoolRow → Bool
in_pool ch (playout_source p) r = str_eq r.channel_id ch && column_eq r.playout_item_id p
in_pool ch (content_source c) r = str_eq r.channel_id ch && column_eq r.content_id c

-- A creator's channel takes only what is in its pool.
unfoldable pub insert_allowed : String → QueueSource → PoolScope → Store → Bool
insert_allowed ch source all_creators s = true
insert_allowed ch source (creator_scope creator) s = any (in_pool ch source) s.pool

-- What is shown of a source: its kind, title and duration.
pub record SourceInfo : Type 0 where
  pub kind : SourceType
  pub title : Option String
  pub duration : Option ℕ

unfoldable pub find_source : QueueSource → Store → Result SourceInfo
find_source (playout_source p) s = elim (first (item_has_id p) s.playout_items) [
  | none ↦ err (not_found_error "Playout item not found")
  | some i ↦ ok (record { kind = SourceType.playout; title = i.title; duration = i.duration })
]
find_source (content_source x) s = elim (first (content_has_id x) s.contents) [
  | none ↦ err (not_found_error "Content not found")
  | some c ↦ ok (record { kind = SourceType.content; title = some c.title; duration = c.duration })
]

unfoldable pub insert_found :
    Env → String → QueueSource → Option ℕ → SourceInfo → Store → Store × Result QueueEntry
insert_found env ch source position info s =
    let inserted = enqueue env ch source position s in
    (
      push_prefetch_buffer env ch inserted.0,
      ok (to_queue_entry inserted.1 info.kind info.title info.duration),
    )

-- After the lookup of the source.
unfoldable pub insert_source :
    Env → String → QueueSource → Option ℕ → Result SourceInfo → Store → Store × Result QueueEntry
insert_source env ch source position (err e) s = (s, err e)
insert_source env ch source position (ok info) s = insert_found env ch source position info s

abbrev pub not_in_pool : AppError
not_in_pool = forbidden_error "Item is not in this channel's content pool"

-- After the lookup of the channel's scope.
unfoldable pub insert_scoped :
    Env → String → QueueSource → Option ℕ → Result PoolScope → Store → Store × Result QueueEntry
insert_scoped env ch source position (err e) s = (s, err e)
insert_scoped env ch source position (ok scope) s =
    if insert_allowed ch source scope s
    then insert_source env ch source position (find_source source s) s
    else (s, err not_in_pool)

unfoldable pub insert_into_queue :
    Env → String → QueueSource → Option ℕ → Store → Store × Result QueueEntry
insert_into_queue env ch source position s =
    insert_scoped env ch source position (resolve_pool_scope ch s) s

abbrev pub entry_on : String → String → QueueRow → Bool
entry_on ch x r = str_eq r.id x && str_eq r.channel_id ch

unfoldable pub remove_from_queue : String → String → Store → Store × Result (Unit {0})
remove_from_queue ch entry_id s = elim (first (entry_on ch entry_id) s.queue) [
  | none ↦ (s, err (not_found_error "Queue entry not found"))
  | some r ↦ remove_queued r s
]

abbrev includes_live_ingest : Env → Bool
includes_live_ingest env = str_eq env.test_control_profile "e2e"

-- The query's roles and the filter after it, for an active channel.
abbrev pub is_startup_channel : Env → Channel → Bool
is_startup_channel env c =
    c.is_active
    && (str_eq c.role "playout"
        || (includes_live_ingest env
            && (str_eq c.role "live-ingest" && str_eq c.ownership "creator")))

abbrev pub channel_id_of : Channel → String
channel_id_of c = c.id

abbrev pub stale_push : List String → QueueRow → Bool
stale_push ids r = mem_text ids r.channel_id && (is_live r.status && r.pushed_to_liquidsoap)

unfoldable pub start_channels : Env → List String → Store → Store
start_channels env [] s = s
start_channels env (ch ∷ chs) s =
    start_channels env chs (push_prefetch_buffer env ch (auto_fill env ch s))

-- After a restart Liquidsoap has no tracks: forget what was pushed, then fill and push again.
unfoldable pub initialize : Env → Store → Store
initialize env s = elim (map channel_id_of (select (is_startup_channel env) s.channels)) [
  | [] ↦ s
  | ch ∷ chs ↦
      start_channels env (ch ∷ chs)
        (record s { queue = update (stale_push (ch ∷ chs)) (with_pushed false) s.queue })
]
