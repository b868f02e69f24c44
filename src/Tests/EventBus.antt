-- ===== src/Tests/EventBus.antt =====
-- The event bus: a subscriber of the live and playout topics.
use snc_platform.Prelude.{
  ℕ, zero, ◌≡◌, refl, true, false, none, some, [], ◌∷◌, inr, arith, length, All, List,
  if◌then◌else◌, str_eq, suc, String,
}
use snc_platform.Events.{
  PlatformEvent, playout_queue_changed, channel_live_state_changed, live, playout,
}
use snc_platform.EventBus.{
  Subscription, SubscriberContext, EventBus, new_subscription, enqueue, map_key, disarm, publish,
  close_all, connection_count, coalesce_backstop, topic_of, coalesce_key, scope_filter,
}
use snc_platform.EventBus.Validity.{
  IsValid, AllVisible, new_subscription-IsValid, IsVisible, offered, pulled, timed_out, shut, run,
  run-IsValid,
}
use snc_platform.EventBus.Delivery.{pending, enqueue-settles, enqueue-coalesces, enqueue-backstop}
use snc_platform.EventBus.Bus.{IsShut, close_all-IsShut}
use snc_platform.Tests.Data.{marks}

abbrev visitor : SubscriberContext
visitor = record { user_id = none; roles = []; creator_ids = [] }

abbrev event : PlatformEvent
event = playout_queue_changed "tv"

abbrev fresh : Subscription
fresh = new_subscription (live ∷ playout ∷ []) visitor

fresh-IsValid : IsValid fresh
fresh-IsValid = new_subscription-IsValid (live ∷ playout ∷ []) visitor

seen : IsVisible (live ∷ playout ∷ []) visitor event
unfolding topic_of scope_filter
seen = (refl, refl)

run-IsValid_example : IsValid (
    run
      (pulled ∷ offered event ∷ offered event ∷ timed_out 0 ∷ pulled ∷ shut ∷ [])
      (new_subscription (live ∷ playout ∷ []) visitor))
run-IsValid_example =
    run-IsValid (live ∷ playout ∷ []) visitor
      (pulled ∷ offered event ∷ offered event ∷ timed_out 0 ∷ pulled ∷ shut ∷ [])

-- A subscription whose first `next()` waits.
abbrev waiting : Subscription
waiting = record fresh { resolver = some 0; timeout_handle = some 0; timers = 0 ∷ []; calls = 1 }

waiting-IsValid : IsValid waiting
waiting-IsValid = record {
  waiting_empty = λ n e. refl;
  timed = refl;
  bounded = λ e. omega arith;
  released = λ e. cc e;
  listed = refl;
  pending_visible = tt;
  settled_visible = tt;
}

enqueue-settles_example :
    ((enqueue event waiting).resolved ≡ (0, event ∷ []) ∷ [])
    × ((enqueue event waiting).coalesce_map ≡ [])
    × ((enqueue event waiting).resolver ≡ none)
    × ((enqueue event waiting).timers ≡ disarm (some 0) (0 ∷ []))
enqueue-settles_example = enqueue-settles event waiting waiting-IsValid refl seen 0 refl

enqueue-coalesces_example :
    (pending "other" (enqueue event fresh).coalesce_map
      ≡ (if str_eq (map_key event) "other" then some event else pending "other" []))
    × ((enqueue event fresh).closed ≡ false)
enqueue-coalesces_example =
    enqueue-coalesces event fresh fresh-IsValid refl seen "other" refl (inr (omega arith))

-- n pending events of as many channels.
unfoldable full_map : ℕ → List (String × PlatformEvent)
full_map zero = []
full_map (suc n) =
    (map_key (channel_live_state_changed (marks n) true), channel_live_state_changed (marks n) true)
    ∷ full_map n

full_map-AllVisible : (n : ℕ) → AllVisible (live ∷ playout ∷ []) visitor (full_map n)
unfolding full_map topic_of scope_filter
full_map-AllVisible zero = tt
full_map-AllVisible (suc n) = ((refl, refl), full_map-AllVisible n)

length-full_map : (n : ℕ) → length (full_map n) ≡ n
unfolding full_map
length-full_map zero = refl
length-full_map (suc n) = omega (arith, length-full_map n)

abbrev full : Subscription
full = record fresh { coalesce_map = full_map coalesce_backstop }

full-IsValid : IsValid full
full-IsValid = record {
  waiting_empty = λ n e. cc e;
  timed = refl;
  bounded = λ e. omega (arith, length-full_map coalesce_backstop);
  released = λ e. refl;
  listed = refl;
  pending_visible = full_map-AllVisible coalesce_backstop;
  settled_visible = tt;
}

full-misses : pending (map_key event) (full_map coalesce_backstop) ≡ none
unfolding pending full_map map_key coalesce_key marks
full-misses = refl

enqueue-backstop_example :
    ((enqueue event full).closed ≡ true)
    × ((enqueue event full).registered ≡ false)
    × ((enqueue event full).resolver ≡ none)
enqueue-backstop_example =
    enqueue-backstop event full full-IsValid refl seen (length-full_map coalesce_backstop)
      full-misses

abbrev bus : EventBus
bus = record { subscriptions = fresh ∷ waiting ∷ []; closed = false }

close_all-IsShut_example :
    All IsShut (close_all bus).subscriptions
    × (connection_count (close_all bus) ≡ 0)
    × (publish event (close_all bus) ≡ close_all bus)
close_all-IsShut_example = close_all-IsShut bus event (fresh-IsValid, (waiting-IsValid, tt))
