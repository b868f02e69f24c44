-- ===== src/Events.antt =====
-- packages/shared/src/events.ts: the platform events and the topics they are routed to.
use snc_platform.Prelude.{String, Bool}

pub data ChangeType : Type 0 where
  queue now_playing : ChangeType

pub data PlatformEvent : Type 0 where
  channel_live_state_changed : (channel_id : String) (live : Bool) → PlatformEvent
  playout_queue_changed : (channel_id : String) → PlatformEvent
  playout_now_playing_changed : (channel_id : String) → PlatformEvent
  playout_engine_restarted : PlatformEvent
  content_processing_status_changed : (content_id creator_id status : String) → PlatformEvent
  content_playout_changed :
      (channel_id creator_id : String) (change_type : ChangeType) → PlatformEvent

pub data SseTopic : Type 0 where
  live playout content : SseTopic
