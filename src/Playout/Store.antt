-- ===== src/Playout/Store.antt =====
-- The tables that the playout services read and write (apps/api/src/db/schema), the events that
-- they publish and what they take from outside: fresh ids, random(), the Liquidsoap client.
use snc_platform.Prelude.{
  ℕ, String, Bool, true, false, Option, none, some, List, ◌∷◌, ◌&&◌, str_eq, leb, if◌then◌else◌,
}
use snc_platform.Events.{PlatformEvent}

pub data QueueStatus : Type 0 where
  queued playing played : QueueStatus

-- Exactly one source: an admin playout item or a creator's content piece.
pub data QueueSource : Type 0 where
  playout_source : (playout_item_id : String) → QueueSource
  content_source : (content_id : String) → QueueSource

pub record QueueRow : Type 0 where
  pub id : String
  pub channel_id : String
  pub playout_item_id : Option String
  pub content_id : Option String
  pub position : ℕ
  pub status : QueueStatus
  pub pushed_to_liquidsoap : Bool
  pub created_at : ℕ

pub record PoolRow : Type 0 where
  pub id : String
  pub channel_id : String
  pub playout_item_id : Option String
  pub content_id : Option String
  pub last_played_at : Option ℕ
  pub play_count : ℕ

pub record Channel : Type 0 where
  pub id : String
  pub name : String
  pub ownership : String
  pub creator_id : Option String
  pub role : String
  pub is_active : Bool

pub record PlayoutItem : Type 0 where
  pub id : String
  pub title : Option String
  pub duration : Option ℕ
  pub source_key : Option String
  pub rendition_1080p_key : Option String
  pub rendition_720p_key : Option String
  pub rendition_480p_key : Option String
  pub processing_status : String

pub record Content : Type 0 where
  pub id : String
  pub creator_id : String
  pub type : String
  pub title : String
  pub duration : Option ℕ
  pub deleted_at : Option ℕ
  pub processing_status : Option String
  pub media_key : Option String
  pub transcoded_media_key : Option String

-- The state of the services: the tables, the clock, the events published so far (newest first),
-- the tracks that Liquidsoap accepted (newest first), and how many ids, random orders and client
-- calls have been used.
pub record Store : Type 0 where
  pub queue : List QueueRow
  pub pool : List PoolRow
  pub channels : List Channel
  pub playout_items : List PlayoutItem
  pub contents : List Content
  pub now : ℕ
  pub events : List PlatformEvent
  pub tracks : List (String × String)
  pub ids_used : ℕ
  pub draws_used : ℕ
  pub calls_used : ℕ

-- What the code under src/ does not decide: the n-th `randomUUID()`, the value of `random()` for
-- a row of the n-th query, whether the n-th `pushTrack` succeeds, the configured bucket and the
-- runtime profile.
pub record Env : Type 0 where
  pub uuid : ℕ → String
  pub random : ℕ → String → ℕ
  pub push_ok : ℕ → String → String → Bool
  pub s3_bucket : Option String
  pub test_control_profile : String

-- A nullable column equal to a value: NULL equals nothing.
abbrev pub column_eq : Option String → String → Bool
column_eq none v = false
column_eq (some c) v = str_eq c v

abbrev pub is_some {ℓ} : {A : Type ℓ} → Option A → Bool
is_some none = false
is_some (some a) = true

-- A nullable text under `if (x)`: null and "" are falsy.
abbrev pub truthy : Option String → Option String
truthy none = none
truthy (some s) = if str_eq s "" then none else some s

abbrev pub is_queued : QueueStatus → Bool
is_queued queued = true
is_queued _ = false

abbrev pub is_playing : QueueStatus → Bool
is_playing playing = true
is_playing _ = false

-- `inArray(status, ["queued", "playing"])`
abbrev pub is_live : QueueStatus → Bool
is_live played = false
is_live _ = true

abbrev pub has_id : String → QueueRow → Bool
has_id x r = str_eq r.id x

abbrev pub on_channel : String → QueueRow → Bool
on_channel ch r = str_eq r.channel_id ch

abbrev pub queued_on : String → QueueRow → Bool
queued_on ch r = str_eq r.channel_id ch && is_queued r.status

abbrev pub playing_on : String → QueueRow → Bool
playing_on ch r = str_eq r.channel_id ch && is_playing r.status

abbrev pub live_on : String → QueueRow → Bool
live_on ch r = str_eq r.channel_id ch && is_live r.status

abbrev pub channel_has_id : String → Channel → Bool
channel_has_id ch c = str_eq c.id ch

abbrev pub by_position : QueueRow → QueueRow → Bool
by_position a b = leb a.position b.position

abbrev pub publish : PlatformEvent → Store → Store
publish e s = record s { events = e ∷ s.events }
