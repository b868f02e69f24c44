-- ===== src/Chat/Messages/Rooms.antt =====
-- The rooms that channels and the platform have.
use snc_platform.Prelude.{
  ℕ, String, ◌≡◌, refl, Bool, true, none, some, List, [], ◌∷◌, ◌++◌, str_eq_refl, Bool-cases,
  Option-cases, inl, inr, arith,
}
use snc_platform.Prelude.Table.{update, first}
use snc_platform.Prelude.Table.Laws.{first-mem}
use snc_platform.Chat.Store.{Room, ChatStore, ChatEnv}
use snc_platform.Chat.Messages.{
  open_room_of, new_room, create_channel_room, ensure_channel_room, with_closed_at,
  close_channel_room,
}

first-append_new :
    (p : Room → Bool) (rs : List Room) (r : Room)
    → first p rs ≡ none
    → p r ≡ true
    → first p (rs ++ r ∷ []) ≡ some r
unfolding first
first-append_new p [] r e hit = rw hit refl
first-append_new p (x ∷ xs) r e hit = elim (Bool-cases (p x)) [
  | inl early ↦ cc (rw early at e)
  | inr miss ↦ rw miss (first-append_new p xs r (rw miss at e) hit)
]

ensure_channel_room-eq_found :
    (env : ChatEnv) (ch name : String) (s : ChatStore) {r : Room}
    → first (open_room_of ch) s.rooms ≡ some r
    → ensure_channel_room env ch name s ≡ (s, r)
unfolding ensure_channel_room
ensure_channel_room-eq_found env ch name s e = rw (e, ensure_channel_room) refl

ensure_channel_room-eq_created :
    (env : ChatEnv) (ch name : String) (s : ChatStore)
    → first (open_room_of ch) s.rooms ≡ none
    → ensure_channel_room env ch name s ≡ create_channel_room env ch name s
unfolding ensure_channel_room create_channel_room
ensure_channel_room-eq_created env ch name s e = rw (e, ensure_channel_room) refl

-- Ensuring a channel's room gives an open room of the channel; ensuring it again, under whatever
-- name, gives the same room and changes nothing.
pub ensure_channel_room-once :
    (env : ChatEnv) (ch name other : String) (s : ChatStore)
    → (open_room_of ch (ensure_channel_room env ch name s).1 ≡ true)
      × (ensure_channel_room env ch other (ensure_channel_room env ch name s).0
          ≡ ensure_channel_room env ch name s)
unfolding create_channel_room
ensure_channel_room-once env ch name other s =
    elim (Option-cases (first (open_room_of ch) s.rooms)) [
      | inr (r, found) ↦
          let (at, hit) = first-mem (open_room_of ch) s.rooms found in
          rw (ensure_channel_room-eq_found env ch name s found)
            (hit, ensure_channel_room-eq_found env ch other s found)
      | inl missing ↦
          let hit : open_room_of ch (new_room env "channel" (some ch) name s) ≡ true =
            rw (str_eq_refl ch) refl in
          rw (ensure_channel_room-eq_created env ch name s missing) (
            hit,
            ensure_channel_room-eq_found env ch other _ (
                first-append_new (open_room_of ch) s.rooms (new_room env "channel" (some ch) name s)
                  missing hit),
          )
    ]

first-closed :
    (ch : String) (now : ℕ) (rs : List Room)
    → first (open_room_of ch) (update (open_room_of ch) (with_closed_at now) rs) ≡ none
unfolding first update
first-closed ch now [] = refl
first-closed ch now (r ∷ rs) = elim (Bool-cases (open_room_of ch r)) [
  | inl hit ↦ rw hit (ground (arith, first-closed ch now rs))
  | inr miss ↦ rw miss (rw (miss, first-closed ch now rs))
]

-- Once a channel's room is closed the channel has no open room, and ensuring one creates the room
-- that a channel without one gets.
pub close_channel_room-reopens :
    (env : ChatEnv) (ch name : String) (s : ChatStore)
    → (first (open_room_of ch) (close_channel_room ch s).rooms ≡ none)
      × (ensure_channel_room env ch name (close_channel_room ch s)
          ≡ create_channel_room env ch name (close_channel_room ch s))
unfolding close_channel_room
close_channel_room-reopens env ch name s = (
  first-closed ch s.now s.rooms,
  ensure_channel_room-eq_created env ch name _ (first-closed ch s.now s.rooms),
)
