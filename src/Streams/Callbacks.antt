-- ===== src/Streams/Callbacks.antt =====
-- The callbacks of the stream server: apps/api/src/services/streaming-callbacks.ts, on_publish and
-- on_unpublish, with the channel that goes live or off in stream-lifecycle.ts.
use Prim.Native.String
use snc_platform.Prelude.{
  ℕ, String, Bool, true, false, not, ◌&&◌, ◌||◌, Option, none, some, List, [], ◌∷◌, ◌++◌, str_eq,
  ◌==◌, leb, if◌then◌else◌,
}
use snc_platform.Prelude.Table.{first, select, order_by}
use snc_platform.Streams.{
  StreamKey, StreamSession, Profile, LiveStore, StreamEnv, Opening, lookup_creator_by_key_hash,
  open_session, close_session, activate_live_channel, deactivate_live_channel,
}

-- The body of a callback; `param` is the one field that is searched.
pub record SrsCallback : Type 0 where
  pub client_id : String
  pub ip : String
  pub vhost : String
  pub app : String
  pub stream : String
  pub param : List ℕ

abbrev pub until_ampersand : List ℕ → List ℕ
until_ampersand [] = []
until_ampersand (c ∷ cs) = let rest = until_ampersand cs in if c == 38 then [] else c ∷ rest

-- "key=" in code units
abbrev pub key_prefix : List ℕ
key_prefix = 107 ∷ 101 ∷ 121 ∷ 61 ∷ []

unfoldable pub past_prefix : List ℕ → List ℕ → Option (List ℕ)
past_prefix [] cs = some cs
past_prefix (p ∷ ps) [] = none
past_prefix (p ∷ ps) (c ∷ cs) = let rest = past_prefix ps cs in if p == c then rest else none

-- `param.match(/[?&]key=([^&]*)/)?.[1] ?? null`
unfoldable pub extract_stream_key : List ℕ → Option (List ℕ)
extract_stream_key [] = none
extract_stream_key (c ∷ cs) =
    let later = extract_stream_key cs in
    if c == 63 || c == 38
    then elim (past_prefix key_prefix cs) [ none ↦ later | some rest ↦ some (until_ampersand rest) ]
    else later

abbrev pub same_key : List ℕ → List ℕ → Bool
same_key [] [] = true
same_key [] (y ∷ ys) = false
same_key (x ∷ xs) [] = false
same_key (x ∷ xs) (y ∷ ys) = x == y && same_key xs ys

abbrev pub is_blank : List ℕ → Bool
is_blank [] = true
is_blank (c ∷ cs) = false

-- The fields of the body that are kept; `param`, which carries the key, is not among them.
abbrev pub redact_srs_callback_payload : String → SrsCallback → List (String × String)
redact_srs_callback_payload action b =
    ("action", action)
    ∷ ("client_id", b.client_id)
    ∷ ("ip", b.ip)
    ∷ ("vhost", b.vhost)
    ∷ ("app", b.app)
    ∷ ("stream", b.stream)
    ∷ []

abbrev pub has_profile_id : String → Profile → Bool
has_profile_id i p = str_eq p.id i

unfoldable pub ensure_live_channel_with_chat :
    StreamEnv → String → String → String → LiveStore → LiveStore
ensure_live_channel_with_chat env creator session stream s =
    elim (first (has_profile_id creator) s.profiles) [
      | none ↦ s
      | some p ↦
          activate_live_channel env
            (record {
              creator_id = creator;
              channel_name = String.◌++◌ "Live: " p.display_name;
              stream_session_id = session;
              srs_stream_name = stream;
            })
            s
    ]

-- ORDER BY ended_at DESC: PostgreSQL puts a session without an end first.
abbrev pub ended_no_later : StreamSession → StreamSession → Bool
ended_no_later x y = elim x.ended_at [
  | none ↦ true
  | some a ↦ elim y.ended_at [ none ↦ false | some b ↦ leb b a ]
]

abbrev pub of_client : String → StreamSession → Bool
of_client client x = str_eq x.srs_client_id client

-- What is broadcast to the chat is left out.
unfoldable pub teardown_live_channel : String → LiveStore → LiveStore
teardown_live_channel client s =
    elim (order_by ended_no_later (select (of_client client) s.sessions)) [
      | [] ↦ s
      | x ∷ xs ↦ deactivate_live_channel x.id s
    ]

abbrev pub opening_of : StreamKey → SrsCallback → Opening
opening_of k b = record {
  creator_id = k.creator_id;
  stream_key_id = k.id;
  srs_client_id = b.client_id;
  srs_stream_name = b.stream;
  callback_payload = redact_srs_callback_payload "on_publish" b;
}

abbrev pub dispatch_go_live : String → LiveStore → LiveStore
dispatch_go_live creator s = record s { notified = s.notified ++ creator ∷ [] }

unfoldable pub go_live : StreamEnv → StreamKey → SrsCallback → LiveStore → LiveStore
go_live env k b s =
    let (opened, session) = open_session env (opening_of k b) s in
    dispatch_go_live k.creator_id
      (ensure_live_channel_with_chat env k.creator_id session.id b.stream opened)

-- `if (playoutKey && rawKey)`, and the two are equal
abbrev pub is_playout_key : StreamEnv → List ℕ → Bool
is_playout_key env raw =
    (not (is_blank env.playout_stream_key) && not (is_blank raw))
    && same_key env.playout_stream_key raw

abbrev pub publish_with : StreamEnv → SrsCallback → Option StreamKey → LiveStore → ℕ × LiveStore
publish_with env b none s = (403, s)
publish_with env b (some k) s = (200, go_live env k b s)

abbrev pub publish_key : StreamEnv → SrsCallback → List ℕ → LiveStore → ℕ × LiveStore
publish_key env b raw s =
    if is_playout_key env raw
    then (200, s)
    else if is_blank raw
    then (403, s)
    else publish_with env b (lookup_creator_by_key_hash (env.sha256 raw) s) s

abbrev pub publish_param : StreamEnv → SrsCallback → Option (List ℕ) → LiveStore → ℕ × LiveStore
publish_param env b none s = (403, s)
publish_param env b (some raw) s = publish_key env b raw s

unfoldable pub handle_srs_on_publish : StreamEnv → SrsCallback → LiveStore → ℕ × LiveStore
handle_srs_on_publish env b s = publish_param env b (extract_stream_key b.param) s

unfoldable pub handle_srs_on_unpublish : StreamEnv → SrsCallback → LiveStore → ℕ × LiveStore
handle_srs_on_unpublish env b s = (
  200,
  teardown_live_channel b.client_id
      (close_session env b.client_id (redact_srs_callback_payload "on_unpublish" b) s),
)
