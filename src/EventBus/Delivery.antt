-- ===== src/EventBus/Delivery.antt =====
-- What happens to an event that is offered to a subscription.
use snc_platform.Prelude.{
  ℕ, suc, ◌≤◌, ◌<◌, String, ◌≡◌, refl, sym, ◌∙◌, ◌⊎◌, inl, inr, Bool, true, false, Option, none,
  some, List, [], ◌∷◌, ◌||◌, not, str_eq, ltb, arith, str_eq_iff, if◌then◌else◌, length,
}
use snc_platform.Events.{PlatformEvent}
use snc_platform.EventBus.{
  Subscription, map_key, map_set, settle, wake, close, is_visible, stored, enqueue,
  coalesce_backstop, disarm,
}
use snc_platform.EventBus.Validity.{IsVisible, IsValid}

unfoldable pub pending : String → List (String × PlatformEvent) → Option PlatformEvent
pending k [] = none
pending k ((j, e) ∷ m) = if str_eq j k then some e else pending k m

pending-map_set :
    (k j : String) (e : PlatformEvent) (m : List (String × PlatformEvent))
    → pending j (map_set k e m) ≡ (if str_eq k j then some e else pending j m)
unfolding pending map_set
pending-map_set k j e [] = refl
pending-map_set k j e ((i, x) ∷ m) =
    ground (arith, str_eq_iff k j, str_eq_iff i k, str_eq_iff i j, pending-map_set k j e m)

-- How many entries a `set` leaves: one more for a key that is new.
abbrev pub is_pending : Option PlatformEvent → Bool
is_pending none = false
is_pending (some e) = true

length-map_set :
    (k : String) (e : PlatformEvent) (m : List (String × PlatformEvent))
    → length (map_set k e m) ≡ (if is_pending (pending k m) then length m else suc (length m))
unfolding pending map_set
length-map_set k e [] = refl
length-map_set k e ((i, x) ∷ m) = ground (arith, length-map_set k e m)

-- The map has room for the event: its key is there, or fewer than 256 keys are.
abbrev pub HasRoom : PlatformEvent → Subscription → Type 0
HasRoom e s =
    (is_pending (pending (map_key e) s.coalesce_map) ≡ true)
    ⊎ (length s.coalesce_map < coalesce_backstop)

room_test :
    (e : PlatformEvent) (s : Subscription)
    → length s.coalesce_map ≤ coalesce_backstop
    → HasRoom e s
    → ltb coalesce_backstop (length (map_set (map_key e) e s.coalesce_map)) ≡ false
room_test e s size room = ground (arith, length-map_set (map_key e) e s.coalesce_map)

full_test :
    (e : PlatformEvent) (s : Subscription)
    → length s.coalesce_map ≡ coalesce_backstop
    → pending (map_key e) s.coalesce_map ≡ none
    → ltb coalesce_backstop (length (map_set (map_key e) e s.coalesce_map)) ≡ true
full_test e s size new = ground (arith, length-map_set (map_key e) e s.coalesce_map)

-- An open subscription that is closed is out of the set, and no call of it waits.
pub close-released :
    (s : Subscription)
    → s.closed ≡ false
    → ((close s).closed ≡ true) × ((close s).registered ≡ false) × ((close s).resolver ≡ none)
unfolding close wake
close-released s e = simp e (settled s.resolver refl)
  where
    settled :
        (r : Option ℕ)
        → s.resolver ≡ r
        → ((settle r [] (record s { closed = true })).closed ≡ true)
          × (false ≡ false)
          × ((settle r [] (record s { closed = true })).resolver ≡ none)
    settled none g = (refl, refl, g)
    settled (some n) g = (refl, refl, refl)

module _ (e : PlatformEvent) (s : Subscription) (w : IsValid s) (open_still : s.closed ≡ false)
    (seen : IsVisible s.topics s.ctx e) where
  not_skipped : (s.closed || not (is_visible s e)) ≡ false
  not_skipped = ground (arith, open_still, seen.0, seen.1)

  -- A visible event reaches an open subscription whose call waits at once: that call is settled
  -- with this event alone, its timer is gone, and nothing stays pending.
  pub enqueue-settles :
      (n : ℕ)
      → s.resolver ≡ some n
      → ((enqueue e s).resolved ≡ (n, e ∷ []) ∷ s.resolved)
        × ((enqueue e s).coalesce_map ≡ [])
        × ((enqueue e s).resolver ≡ none)
        × ((enqueue e s).timers ≡ disarm (some n) s.timers)
  unfolding enqueue map_set
  enqueue-settles n waits =
      let empty = w.waiting_empty n waits in
      let armed : s.timeout_handle ≡ some n = sym w.timed ∙ waits in
      simp (not_skipped, empty, waits, armed) (refl, refl, refl, refl)

  -- With no waiting call the event is pending under its key, in place of an older one of that key,
  -- and the other keys keep theirs, if the map has room.
  pub enqueue-coalesces :
      (j : String)
      → s.resolver ≡ none
      → HasRoom e s
      → (pending j (enqueue e s).coalesce_map
          ≡ (if str_eq (map_key e) j then some e else pending j s.coalesce_map))
        × ((enqueue e s).closed ≡ false)
  unfolding enqueue
  enqueue-coalesces j idle room =
      simp (not_skipped, room_test e s (w.bounded open_still) room, idle)
        (pending-map_set (map_key e) j e s.coalesce_map, open_still)

  -- A 257th key closes the subscription and takes it out of the set.
  pub enqueue-backstop :
      length s.coalesce_map ≡ coalesce_backstop
      → pending (map_key e) s.coalesce_map ≡ none
      → ((enqueue e s).closed ≡ true)
        × ((enqueue e s).registered ≡ false)
        × ((enqueue e s).resolver ≡ none)
  unfolding enqueue
  enqueue-backstop full new =
      simp (not_skipped, full_test e s full new) (close-released (stored e s) open_still)

-- An event that is not for the subscriber changes nothing, nor does any event once it is closed.
pub enqueue-ignores :
    (e : PlatformEvent) (s : Subscription)
    → ((is_visible s e ≡ false) ⊎ (s.closed ≡ true))
    → enqueue e s ≡ s
unfolding enqueue
enqueue-ignores e s (inl unseen) = ground (arith, unseen)
enqueue-ignores e s (inr shut) = ground (arith, shut)
