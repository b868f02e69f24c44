-- ===== src/Chat/Rooms/Contract.antt =====
-- The contract of the chat rooms: a relation between rooms and clients, that forgets the order of
-- the clients and which rooms have an entry, and what each operation does to it.
pub mod Membership
pub mod Refinement
use snc_platform.Prelude.{
  ℕ, String, Bool, true, false, not, ◌&&◌, ◌||◌, Option, none, some, List, [], ◌∷◌, str_eq, ◌==◌,
  if◌then◌else◌,
}
use snc_platform.Prelude.Table.{any}
use snc_platform.Chat.Rooms.{
  ChatClient, ServerEvent, Hub, Readiness, named, is_client, room_members, user_clients,
  get_room_presence, broadcast_to_room, join_room, leave_room, leave_all_rooms, register_client,
  unregister_client, send_to_user,
}

-- The calls of the service, and the room or the user that each is about.
pub data HubCall : Type 0 where
  join leave : (room_id : String) (client : ChatClient) → HubCall
  leave_all : (client : ChatClient) → HubCall
  broadcast : (room_id : String) (event : ServerEvent) → HubCall
  look : (room_id : String) → HubCall
  register unregister : (client : ChatClient) → HubCall
  send_to : (user_id : String) (event : ServerEvent) → HubCall

unfoldable pub perform : Readiness → HubCall → Hub → Hub
perform ready (join r c) s = join_room ready r c s
perform ready (leave r c) s = leave_room ready r c s
perform ready (leave_all c) s = leave_all_rooms ready c s
perform ready (broadcast r ev) s = broadcast_to_room ready r ev s
perform ready (look r) s = (get_room_presence ready r s).1
perform ready (register c) s = register_client c s
perform ready (unregister c) s = unregister_client c s
perform ready (send_to u ev) s = send_to_user ready u ev s

-- Calls in order, each with the sockets that are open at its time.
unfoldable pub run : List (Readiness × HubCall) → Hub → Hub
run [] s = s
run ((ready, c) ∷ cs) s = run cs (perform ready c s)

-- Which clients are in which room, and which are registered for which user.
pub record Relation : Type 0 where
  pub in_room : String → ℕ → Bool
  pub online : String → ℕ → Bool

abbrev pub membership : Hub → Relation
membership s = record {
  in_room = λ r x. any (is_client x) (room_members r s);
  online = λ u x. any (is_client x) (user_clients u s);
}

abbrev pub at : String → (ℕ → Bool → Bool) → (String → ℕ → Bool) → String → ℕ → Bool
at r f M j x = if str_eq r j then f x (M j x) else M j x

abbrev pub at_user : Option String → (ℕ → Bool → Bool) → (String → ℕ → Bool) → String → ℕ → Bool
at_user none f M = M
at_user (some u) f M = at u f M

-- What the call does to the membership: a socket that is closed leaves the room that the call is
-- about, whoever the call names.
abbrev pub promised : Readiness → HubCall → Relation → Relation
promised ready (join r c) m = record m {
  in_room = at r (λ x b. ready x && (b || x == c.ref)) m.in_room;
}
promised ready (leave r c) m = record m {
  in_room = at r (λ x b. ready x && (b && not (x == c.ref))) m.in_room;
}
promised ready (leave_all c) m = record m {
  in_room = λ j x.
      if m.in_room j c.ref then ready x && (m.in_room j x && not (x == c.ref)) else m.in_room j x;
}
promised ready (broadcast r ev) m = record m { in_room = at r (λ x b. ready x && b) m.in_room }
promised ready (look r) m = record m { in_room = at r (λ x b. ready x && b) m.in_room }
promised ready (register c) m = record m {
  online = at_user (named c.user_id) (λ x b. b || x == c.ref) m.online;
}
promised ready (unregister c) m = record m {
  online = at_user (named c.user_id) (λ x b. b && not (x == c.ref)) m.online;
}
promised ready (send_to u ev) m = m

abbrev pub promised_run : List (Readiness × HubCall) → Relation → Relation
promised_run [] m = m
promised_run ((ready, c) ∷ cs) m = promised_run cs (promised ready c m)
