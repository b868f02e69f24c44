-- ===== src/EventBus.antt =====
-- apps/api/src/services/event-bus.ts: the in-process event bus behind the SSE route. A subscription
-- is an object with a coalescing map, at most one waiting `next()` and its timer; the bus holds all
-- objects in creation order, and a flag tells which are in its set.
pub mod Delivery
pub mod Validity
pub mod Bus
use Prim.Native.String
use snc_platform.Prelude.{
  ℕ, suc, ◌+◌, String, Bool, true, false, Option, none, some, List, [], ◌∷◌, ◌++◌, ◌&&◌, ◌||◌, not,
  str_eq, ltb, ◌==◌, if◌then◌else◌, length,
}
use snc_platform.Prelude.Table.{update, count_where}
use snc_platform.Events.{
  ChangeType, queue, now_playing, PlatformEvent, channel_live_state_changed, playout_queue_changed,
  playout_now_playing_changed, playout_engine_restarted, content_processing_status_changed,
  content_playout_changed, SseTopic, live, playout, content,
}

pub record SubscriberContext : Type 0 where
  pub user_id : Option String
  pub roles : List String
  pub creator_ids : List String

abbrev pub includes : List String → String → Bool
includes [] x = false
includes (y ∷ ys) x = str_eq y x || includes ys x

-- The columns of `EVENT_REGISTRY`.
unfoldable pub topic_of : PlatformEvent → SseTopic
topic_of (channel_live_state_changed ch l) = live
topic_of (playout_queue_changed ch) = playout
topic_of (playout_now_playing_changed ch) = playout
topic_of playout_engine_restarted = playout
topic_of (content_processing_status_changed c creator st) = content
topic_of (content_playout_changed ch creator change) = content

abbrev pub event_type : PlatformEvent → String
event_type (channel_live_state_changed ch l) = "channel.live-state-changed"
event_type (playout_queue_changed ch) = "playout.queue-changed"
event_type (playout_now_playing_changed ch) = "playout.now-playing-changed"
event_type playout_engine_restarted = "playout.engine-restarted"
event_type (content_processing_status_changed c creator st) = "content.processing-status-changed"
event_type (content_playout_changed ch creator change) = "content.playout-changed"

abbrev pub change_text : ChangeType → String
change_text queue = "queue"
change_text now_playing = "now-playing"

abbrev pub join_colon : String → String → String
join_colon a b = String.◌++◌ a (String.◌++◌ ":" b)

unfoldable pub coalesce_key : PlatformEvent → String
coalesce_key (channel_live_state_changed ch l) = ch
coalesce_key (playout_queue_changed ch) = ch
coalesce_key (playout_now_playing_changed ch) = ch
coalesce_key playout_engine_restarted = "engine"
coalesce_key (content_processing_status_changed c creator st) = c
coalesce_key (content_playout_changed ch creator change) = join_colon ch (change_text change)

-- An entry with no filter lets every subscriber of the topic have the event.
unfoldable pub scope_filter : PlatformEvent → SubscriberContext → Bool
scope_filter (content_processing_status_changed c creator st) ctx =
    includes ctx.roles "admin" || includes ctx.creator_ids creator
scope_filter (content_playout_changed ch creator change) ctx =
    includes ctx.roles "admin" || includes ctx.creator_ids creator
scope_filter _ ctx = true

abbrev pub same_topic : SseTopic → SseTopic → Bool
same_topic live live = true
same_topic playout playout = true
same_topic content content = true
same_topic _ _ = false

abbrev pub has_topic : List SseTopic → SseTopic → Bool
has_topic [] t = false
has_topic (x ∷ xs) t = same_topic x t || has_topic xs t

unfoldable pub map_key : PlatformEvent → String
map_key e = join_colon (event_type e) (coalesce_key e)

abbrev pub coalesce_backstop : ℕ
coalesce_backstop = 256

-- `resolver` names the `next()` call that waits; `timers` are the timeouts that are armed;
-- `resolved` lists the settled calls with their batches, the latest first.
pub record Subscription : Type 0 where
  pub topics : List SseTopic
  pub ctx : SubscriberContext
  pub coalesce_map : List (String × PlatformEvent)
  pub resolver : Option ℕ
  pub closed : Bool
  pub timeout_handle : Option ℕ
  pub timers : List ℕ
  pub resolved : List (ℕ × List PlatformEvent)
  pub calls : ℕ
  pub registered : Bool

-- `Map.set`: a key that is there keeps its place.
unfoldable pub map_set :
    String → PlatformEvent → List (String × PlatformEvent) → List (String × PlatformEvent)
map_set k e [] = (k, e) ∷ []
map_set k e ((j, x) ∷ m) = if str_eq j k then (j, e) ∷ m else (j, x) ∷ map_set k e m

abbrev pub values : List (String × PlatformEvent) → List PlatformEvent
values [] = []
values ((k, e) ∷ m) = e ∷ values m

-- `clearTimeout`
abbrev pub disarm : Option ℕ → List ℕ → List ℕ
disarm none ts = ts
disarm (some t) [] = []
disarm (some t) (x ∷ xs) = let rest = disarm (some t) xs in if x == t then rest else x ∷ rest

-- Settle the waiting call, if there is one, with a batch.
abbrev pub settle : Option ℕ → List PlatformEvent → Subscription → Subscription
settle none batch s = s
settle (some n) batch s = record s {
  resolver = none;
  timeout_handle = none;
  timers = disarm s.timeout_handle s.timers;
  resolved = (n, batch) ∷ s.resolved;
}

unfoldable pub wake : Subscription → Subscription
wake s = settle s.resolver [] s

-- `onClose` takes the subscription out of the bus's set.
unfoldable pub close : Subscription → Subscription
unfolding wake
close s = if s.closed then s else record (wake (record s { closed = true })) { registered = false }

-- The event is for this subscriber.
abbrev pub is_visible : Subscription → PlatformEvent → Bool
is_visible s e = has_topic s.topics (topic_of e) && scope_filter e s.ctx

-- Hand the map to the waiting call and clear it.
abbrev pub deliver : Option ℕ → Subscription → Subscription
deliver none s = s
deliver (some n) s = settle (some n) (values s.coalesce_map) (record s { coalesce_map = [] })

abbrev pub stored : PlatformEvent → Subscription → Subscription
stored e s = record s { coalesce_map = map_set (map_key e) e s.coalesce_map }

unfoldable pub enqueue : PlatformEvent → Subscription → Subscription
unfolding close
enqueue e s =
    if s.closed || not (is_visible s e)
    then s
    else if ltb coalesce_backstop (length (stored e s).coalesce_map)
    then close (stored e s)
    else deliver s.resolver (stored e s)

-- The n-th `next()` call settles at once, or waits under a timer.
abbrev pub wait_or_drain : List (String × PlatformEvent) → Subscription → Subscription
wait_or_drain [] s = record s {
  resolver = some s.calls;
  timeout_handle = some s.calls;
  timers = s.calls ∷ s.timers;
  calls = suc s.calls;
}
wait_or_drain (x ∷ xs) s = record s {
  coalesce_map = [];
  resolved = (s.calls, values (x ∷ xs)) ∷ s.resolved;
  calls = suc s.calls;
}

unfoldable pub next : Subscription → Subscription
next s =
    if s.closed
    then record s { resolved = (s.calls, []) ∷ s.resolved; calls = suc s.calls }
    else wait_or_drain s.coalesce_map s

-- The timer of call n fires: the callback clears the waiting call, whichever it is.
unfoldable pub time_out : ℕ → Subscription → Subscription
time_out n s = record s {
  resolver = none;
  timeout_handle = none;
  timers = disarm (some n) s.timers;
  resolved = (n, []) ∷ s.resolved;
}

pub record EventBus : Type 0 where
  pub subscriptions : List Subscription
  pub closed : Bool

abbrev pub is_registered : Subscription → Bool
is_registered s = s.registered

unfoldable pub create_event_bus : EventBus
create_event_bus = record { subscriptions = []; closed = false }

unfoldable pub publish : PlatformEvent → EventBus → EventBus
publish e b =
    if b.closed
    then b
    else record b { subscriptions = update is_registered (enqueue e) b.subscriptions }

abbrev pub new_subscription : List SseTopic → SubscriberContext → Subscription
new_subscription topics ctx = record {
  topics = topics;
  ctx = ctx;
  coalesce_map = [];
  resolver = none;
  closed = false;
  timeout_handle = none;
  timers = [];
  resolved = [];
  calls = 0;
  registered = true;
}

unfoldable pub subscribe : List SseTopic → SubscriberContext → EventBus → EventBus
subscribe topics ctx b = record b {
  subscriptions = b.subscriptions ++ new_subscription topics ctx ∷ [];
}

unfoldable pub close_all : EventBus → EventBus
close_all b = record { subscriptions = update is_registered close b.subscriptions; closed = true }

unfoldable pub connection_count : EventBus → ℕ
connection_count b = count_where is_registered b.subscriptions
