-- ===== src/Tests/Streams.antt =====
-- A creator goes live, and off again.
use snc_platform.Prelude.{◌≡◌, refl, ◌⊎◌, true, false, none, [], ◌∷◌, ◌++◌}
use snc_platform.Prelude.Table.{any, first, update, select, order_by}
use snc_platform.Streams.{
  StreamEnv, LiveStore, open_session, close_session, activate_live_channel, deactivate_live_channel,
}
use snc_platform.Streams.Callbacks.{
  SrsCallback, extract_stream_key, past_prefix, key_prefix, handle_srs_on_publish,
  handle_srs_on_unpublish, go_live, ensure_live_channel_with_chat, teardown_live_channel,
}
use snc_platform.Streams.Publishing.{IsRefused, IsPlayout, IsPublished, handle_srs_on_publish-cases}
use snc_platform.Streams.Unpublishing.{Closes, HasDistinctSessions, handle_srs_on_unpublish-Closes}
use snc_platform.Tests.Data.{marks}

-- The hash of a key tells whether it is the creator's.
abbrev stream_env : StreamEnv
stream_env = record {
  uuid = marks;
  sha256 = λ k. elim k [ [] ↦ "nothing" | c ∷ cs ↦ "hash" ];
  playout_stream_key = [];
}

abbrev live_store : LiveStore
live_store = record {
  keys = record { id = "k1"; creator_id = "band"; key_hash = "hash"; revoked_at = none } ∷ [];
  sessions = [];
  stream_events = [];
  channels = [];
  profiles = record { id = "band"; display_name = "Band" } ∷ [];
  now = 5000;
  ids_used = 0;
  live_changes = [];
  notified = [];
}

-- "?key=sk"
abbrev callback : SrsCallback
callback = record {
  client_id = "c1";
  ip = "10.0.0.1";
  vhost = "v";
  app = "live";
  stream = "band";
  param = 63 ∷ key_prefix ++ 115 ∷ 107 ∷ [];
}

abbrev live : LiveStore
live = (handle_srs_on_publish stream_env callback live_store).1

went_live : live.live_changes ≡ (marks 2, true) ∷ []
unfolding handle_srs_on_publish extract_stream_key past_prefix go_live open_session
    ensure_live_channel_with_chat activate_live_channel first any
went_live = refl

went_off :
    (handle_srs_on_unpublish stream_env callback live).1.live_changes
    ≡ (marks 2, true) ∷ (marks 2, false) ∷ []
unfolding handle_srs_on_publish extract_stream_key past_prefix go_live open_session
    ensure_live_channel_with_chat activate_live_channel first any handle_srs_on_unpublish
    close_session teardown_live_channel deactivate_live_channel update select order_by marks
went_off = refl

handle_srs_on_publish-cases_example :
    ((handle_srs_on_publish stream_env callback live_store ≡ (403, live_store))
      × IsRefused stream_env live_store (extract_stream_key callback.param))
    ⊎ (((handle_srs_on_publish stream_env callback live_store ≡ (200, live_store))
          × IsPlayout stream_env (extract_stream_key callback.param))
        ⊎ (((handle_srs_on_publish stream_env callback live_store).0 ≡ 200)
            × IsPublished stream_env callback live_store live (extract_stream_key callback.param)))
handle_srs_on_publish-cases_example = handle_srs_on_publish-cases stream_env callback live_store

live_distinct : HasDistinctSessions live.sessions
unfolding handle_srs_on_publish extract_stream_key past_prefix go_live open_session
    ensure_live_channel_with_chat activate_live_channel first any
live_distinct = (refl, tt)

handle_srs_on_unpublish-Closes_example :
    ((handle_srs_on_unpublish stream_env callback live).0 ≡ 200)
    × Closes "c1" live.now live.sessions
        (handle_srs_on_unpublish stream_env callback live).1.sessions
handle_srs_on_unpublish-Closes_example =
    handle_srs_on_unpublish-Closes stream_env callback live live_distinct
