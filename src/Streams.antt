-- ===== src/Streams.antt =====
-- Live streams: apps/api/src/services/streaming-callbacks.ts, stream-sessions.ts, stream-lifecycle.ts,
-- the live channels of channels.ts and the keys of stream-keys.ts, over the tables of
-- streaming.schema.ts. SHA-256 is a parameter; a text that is searched is a list of UTF-16 code
-- units. The chat room that goes with a channel is left out.
pub mod Callbacks
pub mod Publishing
pub mod Unpublishing
use snc_platform.Prelude.{
  ℕ, zero, suc, ◌+◌, String, Bool, true, false, not, ◌&&◌, ◌||◌, Option, none, some, List, [], ◌∷◌,
  ◌++◌, str_eq, ◌==◌, if◌then◌else◌,
}
use snc_platform.Prelude.Table.{first, update, any, select}

pub record StreamKey : Type 0 where
  pub id : String
  pub creator_id : String
  pub key_hash : String
  pub revoked_at : Option ℕ

pub record StreamSession : Type 0 where
  pub id : String
  pub creator_id : String
  pub stream_key_id : String
  pub srs_client_id : String
  pub srs_stream_name : String
  pub started_at : ℕ
  pub ended_at : Option ℕ

pub record StreamEvent : Type 0 where
  pub id : String
  pub session_id : Option String
  pub event_type : String
  pub payload : List (String × String)

pub record LiveChannel : Type 0 where
  pub id : String
  pub name : String
  pub ownership : String
  pub role : String
  pub creator_id : Option String
  pub srs_stream_name : Option String
  pub stream_session_id : Option String
  pub is_active : Bool

pub record Profile : Type 0 where
  pub id : String
  pub display_name : String

-- The tables, the clock, how many ids have been drawn, what was published of channels going live or
-- off, and the creators whose followers were told.
pub record LiveStore : Type 0 where
  pub keys : List StreamKey
  pub sessions : List StreamSession
  pub stream_events : List StreamEvent
  pub channels : List LiveChannel
  pub profiles : List Profile
  pub now : ℕ
  pub ids_used : ℕ
  pub live_changes : List (String × Bool)
  pub notified : List String

pub record StreamEnv : Type 0 where
  pub uuid : ℕ → String
  pub sha256 : List ℕ → String
  pub playout_stream_key : List ℕ

abbrev pub is_none : Option ℕ → Bool
is_none none = true
is_none (some t) = false

abbrev pub is_text : Option String → String → Bool
is_text none x = false
is_text (some y) x = str_eq y x

abbrev pub is_open : StreamSession → Bool
is_open x = is_none x.ended_at

abbrev pub is_active_key : String → StreamKey → Bool
is_active_key hash k = str_eq k.key_hash hash && is_none k.revoked_at

abbrev pub lookup_creator_by_key_hash : String → LiveStore → Option StreamKey
lookup_creator_by_key_hash hash s = first (is_active_key hash) s.keys

pub record Opening : Type 0 where
  pub creator_id : String
  pub stream_key_id : String
  pub srs_client_id : String
  pub srs_stream_name : String
  pub callback_payload : List (String × String)

abbrev pub new_session : StreamEnv → Opening → LiveStore → StreamSession
new_session env o s = record {
  id = env.uuid s.ids_used;
  creator_id = o.creator_id;
  stream_key_id = o.stream_key_id;
  srs_client_id = o.srs_client_id;
  srs_stream_name = o.srs_stream_name;
  started_at = s.now;
  ended_at = none;
}

abbrev pub log_event :
    String → Option String → String → List (String × String) → List StreamEvent → List StreamEvent
log_event id session_id event_type payload events =
    events
    ++ record { id = id; session_id = session_id; event_type = event_type; payload = payload } ∷ []

unfoldable pub open_session : StreamEnv → Opening → LiveStore → LiveStore × StreamSession
open_session env o s = (
  record s {
    sessions = s.sessions ++ new_session env o s ∷ [];
    stream_events =
        log_event (env.uuid (s.ids_used + 1)) (some (env.uuid s.ids_used)) "on_publish"
          o.callback_payload s.stream_events;
    ids_used = s.ids_used + 2;
  },
  new_session env o s,
)

abbrev pub open_of : String → StreamSession → Bool
open_of client x = str_eq x.srs_client_id client && is_open x

abbrev pub has_session_id : String → StreamSession → Bool
has_session_id i x = str_eq x.id i

abbrev pub ended : ℕ → StreamSession → StreamSession
ended t x = record x { ended_at = some t }

abbrev pub log_unpublish :
    StreamEnv → Option String → List (String × String) → LiveStore → LiveStore
log_unpublish env session_id payload s = record s {
  stream_events = log_event (env.uuid s.ids_used) session_id "on_unpublish" payload s.stream_events;
  ids_used = s.ids_used + 1;
}

unfoldable pub close_session : StreamEnv → String → List (String × String) → LiveStore → LiveStore
close_session env client payload s = elim (first (open_of client) s.sessions) [
  | none ↦ log_unpublish env none payload s
  | some x ↦
      log_unpublish env (some x.id) payload
        (record s { sessions = update (has_session_id x.id) (ended s.now) s.sessions })
]

abbrev pub is_live_ingest_of : String → LiveChannel → Bool
is_live_ingest_of creator c =
    is_text c.creator_id creator && (str_eq c.ownership "creator" && str_eq c.role "live-ingest")

abbrev pub has_channel_id : String → LiveChannel → Bool
has_channel_id i c = str_eq c.id i

-- The unique index on the stream name refuses the row.
abbrev pub name_taken : String → String → LiveChannel → Bool
name_taken i stream c = is_text c.srs_stream_name stream && not (str_eq c.id i)

pub record Activation : Type 0 where
  pub creator_id : String
  pub channel_name : String
  pub stream_session_id : String
  pub srs_stream_name : String

abbrev pub on_air : Activation → LiveChannel → LiveChannel
on_air a c = record c {
  name = a.channel_name;
  srs_stream_name = some a.srs_stream_name;
  stream_session_id = some a.stream_session_id;
  is_active = true;
}

abbrev pub new_channel : String → Activation → LiveChannel
new_channel i a = record {
  id = i;
  name = a.channel_name;
  ownership = "creator";
  role = "live-ingest";
  creator_id = some a.creator_id;
  srs_stream_name = some a.srs_stream_name;
  stream_session_id = some a.stream_session_id;
  is_active = true;
}

abbrev pub set_channels : List LiveChannel → String → Bool → LiveStore → LiveStore
set_channels cs i live s = record s {
  channels = cs;
  live_changes = s.live_changes ++ (i, live) ∷ [];
}

-- The id that a new channel would have is drawn before the row is refused.
abbrev pub provision : StreamEnv → Activation → LiveStore → LiveStore
provision env a s =
    let i = env.uuid s.ids_used in
    let drawn = record s { ids_used = s.ids_used + 1 } in
    if any (name_taken i a.srs_stream_name) s.channels
    then drawn
    else set_channels (s.channels ++ new_channel i a ∷ []) i true drawn

-- A failure is logged and swallowed by the caller.
unfoldable pub activate_live_channel : StreamEnv → Activation → LiveStore → LiveStore
activate_live_channel env a s = elim (first (is_live_ingest_of a.creator_id) s.channels) [
  | none ↦ provision env a s
  | some c ↦
      if any (name_taken c.id a.srs_stream_name) s.channels
      then s
      else set_channels (update (has_channel_id c.id) (on_air a) s.channels) c.id true s
]

abbrev pub carries : String → LiveChannel → Bool
carries session c = is_text c.stream_session_id session && c.is_active

abbrev pub off_air : LiveChannel → LiveChannel
off_air c = record c { is_active = false }

unfoldable pub deactivate_live_channel : String → LiveStore → LiveStore
deactivate_live_channel session s = elim (first (carries session) s.channels) [
  | none ↦ s
  | some c ↦ set_channels (update (has_channel_id c.id) off_air s.channels) c.id false s
]
