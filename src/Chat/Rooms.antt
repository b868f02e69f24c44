-- ===== src/Chat/Rooms.antt =====
-- apps/api/src/services/chat-rooms.ts: the WebSocket clients of each chat room and of each user, and
-- what is sent to them. A client is known by a number, as the code compares objects by reference; a
-- `Set` of clients is a list in insertion order. Whether the socket of a client is open does not
-- change while an operation runs, and is its argument `ready`.
pub mod Members
pub mod Contract
pub mod Presence
use snc_platform.Prelude.{
  ℕ, zero, suc, String, Bool, true, false, not, ◌&&◌, ◌||◌, Option, none, some, List, [], ◌∷◌, ◌++◌,
  str_eq, ◌==◌, if◌then◌else◌, length, leb,
}
use snc_platform.Prelude.Table.{select, delete, any}
use snc_platform.Prelude.Maps.{lookup, put, drop_key}

pub record ChatClient : Type 0 where
  pub ref : ℕ
  pub user_id : Option String
  pub user_name : Option String
  pub avatar_url : Option String

pub record PresenceUser : Type 0 where
  pub user_id : String
  pub user_name : String
  pub avatar_url : Option String

pub record RoomPresence : Type 0 where
  pub viewer_count : ℕ
  pub users : List PresenceUser

-- What is sent; any other event is its text.
pub data ServerEvent : Type 0 where
  user_joined : (room_id : String) (user : PresenceUser) → ServerEvent
  user_left : (room_id user_id user_name : String) → ServerEvent
  presence : (room_id : String) (state : RoomPresence) → ServerEvent
  other_event : (text : String) → ServerEvent

abbrev pub Members : Type 0
Members = List ChatClient

-- `rooms`, `connectedUsers`, and the messages that were sent with the client each went to.
pub record Hub : Type 0 where
  pub rooms : List (String × Members)
  pub connected_users : List (String × Members)
  pub sent : List (ℕ × ServerEvent)

abbrev pub Readiness : Type 0
Readiness = ℕ → Bool

abbrev pub is_client : ℕ → ChatClient → Bool
is_client n d = n == d.ref

abbrev pub has : ChatClient → Members → Bool
has c ms = any (is_client c.ref) ms

-- `members.add(client)`
abbrev pub add : ChatClient → Members → Members
add c ms = if has c ms then ms else ms ++ c ∷ []

-- `members.delete(client)`
abbrev pub remove : ChatClient → Members → Members
remove c ms = delete (is_client c.ref) ms

-- `members.size === 0`
abbrev pub is_empty : Members → Bool
is_empty [] = true
is_empty _ = false

abbrev pub prune_stale_clients : Readiness → Members → Members
prune_stale_clients ready ms = select (λ c. ready c.ref) ms

-- A text that is there and not empty: `client.userId && …`
abbrev pub named : Option String → Option String
named none = none
named (some x) = if str_eq x "" then none else some x

-- The user of a client with a user id and a user name.
abbrev pub user_of : ChatClient → Option PresenceUser
user_of c = elim (named c.user_id) [
  | none ↦ none
  | some u ↦ elim (named c.user_name) [
    | none ↦ none
    | some name ↦ some (record { user_id = u; user_name = name; avatar_url = c.avatar_url })
  ]
]

abbrev pub seen_in : String → List PresenceUser → Bool
seen_in u users = any (λ x. str_eq x.user_id u) users

abbrev pub see : ChatClient → List PresenceUser → List PresenceUser
see c users = elim (user_of c) [
  | none ↦ users
  | some x ↦ if seen_in x.user_id users then users else users ++ x ∷ []
]

-- The loop over the members: each user once, at the first client.
unfoldable pub collect_users : Members → List PresenceUser → List PresenceUser
collect_users [] users = users
collect_users (c ∷ ms) users = collect_users ms (see c users)

abbrev pub presence_of : Members → RoomPresence
presence_of ms = record { viewer_count = length ms; users = collect_users ms [] }

unfoldable pub get_room_presence : Readiness → String → Hub → RoomPresence × Hub
get_room_presence ready r s = elim (lookup r s.rooms) [
  | none ↦ (record { viewer_count = 0; users = [] }, s)
  | some ms ↦
      let kept = prune_stale_clients ready ms in
      (presence_of kept, record s { rooms = put r kept s.rooms })
]

-- `client.userId === userId`
abbrev pub is_user : String → Option String → Bool
is_user u none = false
is_user u (some x) = str_eq x u

abbrev pub another : String → ChatClient → Members → Bool
another u c ms = any (λ d. not (is_client c.ref d) && is_user u d.user_id) ms

unfoldable pub has_other_connections : String → String → ChatClient → Hub → Bool
has_other_connections r u c s = elim (lookup r s.rooms) [ none ↦ false | some ms ↦ another u c ms ]

unfoldable pub client_rooms : ChatClient → List (String × Members) → List String
client_rooms c [] = []
client_rooms c ((r, ms) ∷ rooms) =
    let rest = client_rooms c rooms in if has c ms then r ∷ rest else rest

abbrev pub get_client_rooms : ChatClient → Hub → List String
get_client_rooms c s = client_rooms c s.rooms

-- `if (client.ws.readyState === 1) client.ws.send(json)` for each client
unfoldable pub send_all : Readiness → ServerEvent → Members → List (ℕ × ServerEvent)
send_all ready ev [] = []
send_all ready ev (c ∷ ms) =
    let rest = send_all ready ev ms in if ready c.ref then (c.ref, ev) ∷ rest else rest

unfoldable pub broadcast_to_room : Readiness → String → ServerEvent → Hub → Hub
broadcast_to_room ready r ev s = elim (lookup r s.rooms) [
  | none ↦ s
  | some ms ↦
      let kept = prune_stale_clients ready ms in
      record s { rooms = put r kept s.rooms; sent = s.sent ++ send_all ready ev kept }
]

-- `const isNewUser = client.userId != null && !hasOtherConnections(…)`, as `wasLastConnection`
abbrev pub is_only_connection : String → ChatClient → Hub → Bool
is_only_connection r c s = elim c.user_id [
  | none ↦ false
  | some u ↦ not (has_other_connections r u c s)
]

abbrev pub broadcast_presence : Readiness → String → Hub → Hub
broadcast_presence ready r s =
    let (state, s') = get_room_presence ready r s in broadcast_to_room ready r (presence r state) s'

-- `if (test && client.userId && client.userName) broadcastToRoom(…)`
abbrev pub announce :
    Readiness → String → Bool → (PresenceUser → ServerEvent) → ChatClient → Hub → Hub
announce ready r test event c s = elim (user_of c) [
  | none ↦ s
  | some x ↦ if test then broadcast_to_room ready r (event x) s else s
]

abbrev pub room_members : String → Hub → Members
room_members r s = elim (lookup r s.rooms) [ none ↦ [] | some ms ↦ ms ]

abbrev pub with_room : String → Members → Hub → Hub
with_room r ms s = record s { rooms = put r ms s.rooms }

unfoldable pub join_room : Readiness → String → ChatClient → Hub → Hub
join_room ready r c s =
    let kept = prune_stale_clients ready (room_members r s) in
    let s1 = with_room r kept s in
    let s2 = with_room r (add c kept) s1 in
    broadcast_presence ready r (announce ready r (is_only_connection r c s1) (user_joined r) c s2)

-- From where the client has been removed, with the clients that are left.
unfoldable pub after_leaving : Readiness → String → ChatClient → Members → Hub → Hub
after_leaving ready r c rest s =
    if is_empty rest
    then record s { rooms = drop_key r s.rooms }
    else broadcast_presence ready r
        (announce ready r (is_only_connection r c s) (λ x. user_left r x.user_id x.user_name) c s)

unfoldable pub leave_room : Readiness → String → ChatClient → Hub → Hub
leave_room ready r c s = elim (lookup r s.rooms) [
  | none ↦ s
  | some ms ↦
      let rest = remove c (prune_stale_clients ready ms) in
      after_leaving ready r c rest (with_room r rest s)
]

unfoldable pub leave_rooms : Readiness → List String → ChatClient → Hub → Hub
leave_rooms ready [] c s = s
leave_rooms ready (r ∷ rs) c s = leave_rooms ready rs c (leave_room ready r c s)

abbrev pub leave_all_rooms : Readiness → ChatClient → Hub → Hub
leave_all_rooms ready c s = leave_rooms ready (get_client_rooms c s) c s

abbrev pub get_room_client_count : String → Hub → ℕ
get_room_client_count r s = length (room_members r s)

abbrev pub user_clients : String → Hub → Members
user_clients u s = elim (lookup u s.connected_users) [ none ↦ [] | some ms ↦ ms ]

unfoldable pub register_client : ChatClient → Hub → Hub
register_client c s = elim (named c.user_id) [
  | none ↦ s
  | some u ↦ record s { connected_users = put u (add c (user_clients u s)) s.connected_users }
]

unfoldable pub unregister_client : ChatClient → Hub → Hub
unregister_client c s = elim (named c.user_id) [
  | none ↦ s
  | some u ↦ elim (lookup u s.connected_users) [
    | none ↦ s
    | some ms ↦
        if is_empty (remove c ms)
        then record s { connected_users = drop_key u s.connected_users }
        else record s { connected_users = put u (remove c ms) s.connected_users }
  ]
]

unfoldable pub send_to_user : Readiness → String → ServerEvent → Hub → Hub
send_to_user ready u ev s = elim (lookup u s.connected_users) [
  | none ↦ s
  | some ms ↦ record s { sent = s.sent ++ send_all ready ev ms }
]

abbrev pub is_user_connected : String → Hub → Bool
is_user_connected u s = leb 1 (length (user_clients u s))
