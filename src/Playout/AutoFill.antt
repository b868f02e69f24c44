-- ===== src/Playout/AutoFill.antt =====
-- apps/api/src/services/playout/auto-fill.ts: fill the queue from the pool, the least recently
-- played first, up to ten live rows.
pub mod Laws
use snc_platform.Prelude.{
  ℕ, suc, ◌+◌, ◌-◌, String, Bool, true, false, Option, none, some, List, [], ◌∷◌, ◌++◌, ◌&&◌, ◌||◌,
  not, str_eq, leb, ltb, ◌==◌, if◌then◌else◌, length, take, map,
}
use snc_platform.Prelude.Table.{select, first, any, count_where, order_by}
use snc_platform.Shared.{Result, ok, err}
use snc_platform.Playout.Store.{
  QueueSource, playout_source, content_source, QueueRow, PoolRow, PlayoutItem, Content, Store, Env,
  column_eq, is_some, live_on,
}
use snc_platform.Playout.Transitions.{enqueue_batch}
use snc_platform.Playout.Pool.{PoolScope, creator_scope, all_creators, resolve_pool_scope}

abbrev pub auto_fill_threshold : ℕ
auto_fill_threshold = 5

abbrev pub auto_fill_batch : ℕ
auto_fill_batch = 10

-- A row of the candidate query; `draw` is its value of `random()`.
pub record Candidate : Type 0 where
  pub source : QueueSource
  pub last_played_at : Option ℕ
  pub play_count : ℕ
  pub draw : ℕ

-- The rest of the order once the last plays are equal.
abbrev by_count : Candidate → Candidate → Bool
by_count a b = ltb a.play_count b.play_count || (a.play_count == b.play_count && leb a.draw b.draw)

abbrev by_last_played : Option ℕ → Option ℕ → Candidate → Candidate → Bool
by_last_played none none a b = by_count a b
by_last_played none (some y) a b = true
by_last_played (some x) none a b = false
by_last_played (some x) (some y) a b = ltb x y || (x == y && by_count a b)

-- last_played_at ASC NULLS FIRST, play_count ASC, random()
abbrev pub before : Candidate → Candidate → Bool
before a b = by_last_played a.last_played_at b.last_played_at a b

abbrev pub is_ready_item : String → PlayoutItem → Bool
is_ready_item x i = str_eq i.id x && str_eq i.processing_status "ready"

abbrev pub is_ready_status : Option String → Bool
is_ready_status none = true
is_ready_status (some st) = str_eq st "ready"

abbrev pub in_scope : PoolScope → Content → Bool
in_scope all_creators c = true
in_scope (creator_scope creator) c = str_eq c.creator_id creator && not (is_some c.deleted_at)

abbrev pub is_playable_content : PoolScope → String → Content → Bool
is_playable_content scope x c =
    str_eq c.id x
    && (is_ready_status c.processing_status && (str_eq c.type "video" && in_scope scope c))

abbrev pub queued_item : String → String → QueueRow → Bool
queued_item ch x r = live_on ch r && column_eq r.playout_item_id x

abbrev pub queued_content : String → String → QueueRow → Bool
queued_content ch x r = live_on ch r && column_eq r.content_id x

abbrev pub candidate : Env → Store → PoolRow → QueueSource → Candidate
candidate env s r source = record {
  source = source;
  last_played_at = r.last_played_at;
  play_count = r.play_count;
  draw = env.random s.draws_used r.id;
}

abbrev pub item_ok : String → Store → PoolRow → Option String → Bool
item_ok ch s r none = false
item_ok ch s r (some x) =
    str_eq r.channel_id ch
    && (any (is_ready_item x) s.playout_items && not (any (queued_item ch x) s.queue))

abbrev pub content_ok : PoolScope → String → Store → PoolRow → Option String → Bool
content_ok scope ch s r none = false
content_ok scope ch s r (some x) =
    str_eq r.channel_id ch
    && (any (is_playable_content scope x) s.contents && not (any (queued_content ch x) s.queue))

abbrev pub text_or_empty : Option String → String
text_or_empty none = ""
text_or_empty (some x) = x

-- The two SELECTs of the UNION; a creator's channel has the second alone.
unfoldable pub playout_arm : Env → String → Store → List PoolRow → List Candidate
playout_arm env ch s [] = []
playout_arm env ch s (r ∷ rs) =
    let rest = playout_arm env ch s rs in
    if item_ok ch s r r.playout_item_id
    then candidate env s r (playout_source (text_or_empty r.playout_item_id)) ∷ rest
    else rest

unfoldable pub content_arm : Env → PoolScope → String → Store → List PoolRow → List Candidate
content_arm env scope ch s [] = []
content_arm env scope ch s (r ∷ rs) =
    let rest = content_arm env scope ch s rs in
    if content_ok scope ch s r r.content_id
    then candidate env s r (content_source (text_or_empty r.content_id)) ∷ rest
    else rest

unfoldable pub candidates : Env → PoolScope → String → Store → List Candidate
unfolding playout_arm content_arm
candidates env all_creators ch s =
    playout_arm env ch s s.pool ++ content_arm env all_creators ch s s.pool
candidates env (creator_scope creator) ch s = content_arm env (creator_scope creator) ch s s.pool

unfoldable pub chosen : Env → PoolScope → String → ℕ → Store → List Candidate
unfolding candidates order_by
chosen env scope ch needed s = take needed (order_by before (candidates env scope ch s))

abbrev pub candidate_source : Candidate → QueueSource
candidate_source c = c.source

abbrev pub depth : String → Store → ℕ
depth ch s = count_where (live_on ch) s.queue

unfoldable pub fill : Env → String → PoolScope → Store → Store
unfolding chosen enqueue_batch
fill env ch scope s =
    (enqueue_batch env ch
      (map candidate_source (chosen env scope ch (auto_fill_batch - depth ch s) s))
      (record s { draws_used = suc s.draws_used })).0

unfoldable pub auto_fill : Env → String → Store → Store
unfolding fill resolve_pool_scope
auto_fill env ch s =
    if leb auto_fill_threshold (depth ch s)
    then s
    else elim (resolve_pool_scope ch s) [ err _ ↦ s | ok scope ↦ fill env ch scope s ]

unfoldable pub queue_depth_below_auto_fill_threshold : String → Store → Bool
queue_depth_below_auto_fill_threshold ch s = ltb (depth ch s) auto_fill_threshold
