-- ===== src/EventBus/Bus.antt =====
-- The bus as a whole: who gets what is published, and the shutdown.
use snc_platform.Prelude.{
  ◌≡◌, refl, ap, ◌∙◌, Bool, true, false, none, List, [], ◌∷◌, not, arith, if◌then◌else◌, All,
  All-append,
}
use snc_platform.Prelude.Table.{update, count_where}
use snc_platform.Events.{PlatformEvent, SseTopic}
use snc_platform.EventBus.{
  Subscription, SubscriberContext, close, enqueue, EventBus, publish, subscribe, close_all,
  connection_count, is_registered,
}
use snc_platform.EventBus.Validity.{
  IsValid, enqueue-IsValid, close-IsValid, new_subscription-IsValid,
}
use snc_platform.EventBus.Delivery.{close-released}

abbrev pub IsValidBus : EventBus → Type 0
IsValidBus b = All IsValid b.subscriptions

update-IsValid :
    (f : Subscription → Subscription) (ss : List Subscription)
    → ((s : Subscription) → IsValid s → IsValid (f s))
    → All IsValid ss
    → All IsValid (update is_registered f ss)
unfolding update
update-IsValid f [] k h = tt
update-IsValid f (s ∷ ss) k h = (by_flag s.registered, update-IsValid f ss k h.1)
  where
    by_flag : (b : Bool) → IsValid (if b then f s else s)
    by_flag true = k s h.0
    by_flag false = h.0

-- Closed, out of the set, and with no call that waits.
abbrev pub IsShut : Subscription → Type 0
IsShut s = (s.closed ≡ true) × (s.registered ≡ false) × (s.resolver ≡ none)

IsShut-All : (ss : List Subscription) → All IsValid ss → All IsShut (update is_registered close ss)
unfolding update
IsShut-All [] h = tt
IsShut-All (s ∷ ss) h = (by_closed s.closed refl, IsShut-All ss h.1)
  where
    by_closed : (b : Bool) → s.closed ≡ b → IsShut (if s.registered then close s else s)
    by_closed true e =
        let off : s.registered ≡ false = h.0.listed ∙ ap not e in simp off (e, refl, h.0.released e)
    by_closed false e =
        let on : s.registered ≡ true = h.0.listed ∙ ap not e in simp on (close-released s e)

count_shut : (ss : List Subscription) → All IsShut ss → count_where is_registered ss ≡ 0
unfolding count_where
count_shut [] h = refl
count_shut (s ∷ ss) h = ground (arith, count_shut ss h.1)

-- After `closeAll` on a bus of valid subscriptions every subscription is closed with no waiting
-- call, none is connected, and publishing changes nothing more.
pub close_all-IsShut :
    (b : EventBus) (e : PlatformEvent)
    → IsValidBus b
    → All IsShut (close_all b).subscriptions
      × (connection_count (close_all b) ≡ 0)
      × (publish e (close_all b) ≡ close_all b)
unfolding close_all connection_count publish
close_all-IsShut b e h =
    let all_shut = IsShut-All b.subscriptions h in (all_shut, count_shut _ all_shut, refl)

-- What can happen to the bus.
pub data BusStep : Type 0 where
  published : (e : PlatformEvent) → BusStep
  subscribed : (topics : List SseTopic) (ctx : SubscriberContext) → BusStep
  closed_all : BusStep

unfoldable pub bus_step : BusStep → EventBus → EventBus
bus_step (published e) b = publish e b
bus_step (subscribed topics ctx) b = subscribe topics ctx b
bus_step closed_all b = close_all b

unfoldable pub bus_steps : List BusStep → EventBus → EventBus
bus_steps [] b = b
bus_steps (x ∷ xs) b = bus_steps xs (bus_step x b)

bus_step-IsValid : (x : BusStep) (b : EventBus) → IsValidBus b → IsValidBus (bus_step x b)
unfolding bus_step publish subscribe close_all
bus_step-IsValid (published e) b h = by_closed b.closed
  where
    by_closed :
        (c : Bool)
        → IsValidBus (
            if c
            then b
            else record b { subscriptions = update is_registered (enqueue e) b.subscriptions })
    by_closed true = h
    by_closed false = update-IsValid (enqueue e) b.subscriptions (enqueue-IsValid e) h
bus_step-IsValid (subscribed topics ctx) b h =
    All-append IsValid b.subscriptions _ h (new_subscription-IsValid topics ctx, tt)
bus_step-IsValid closed_all b h = update-IsValid close b.subscriptions close-IsValid h

-- Publishing, subscribing and shutting down keep every subscription of the bus valid.
pub bus_steps-IsValid :
    (xs : List BusStep) (b : EventBus) → IsValidBus b → IsValidBus (bus_steps xs b)
unfolding bus_steps
bus_steps-IsValid [] b h = h
bus_steps-IsValid (x ∷ xs) b h = bus_steps-IsValid xs (bus_step x b) (bus_step-IsValid x b h)
