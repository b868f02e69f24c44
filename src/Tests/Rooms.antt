-- ===== src/Tests/Rooms.antt =====
-- Viewers of a stream come and go.
use snc_platform.Prelude.{ℕ, String, ◌≡◌, refl, true, not, none, some, List, [], ◌∷◌, ◌==◌}
use snc_platform.Prelude.Table.{select, delete, any}
use snc_platform.Prelude.Maps.{lookup, put, drop_key}
use snc_platform.Chat.Rooms.{
  ChatClient, Hub, Readiness, room_members, get_room_presence, get_room_client_count, collect_users,
  join_room, leave_room, after_leaving, broadcast_to_room, send_all, has_other_connections,
  register_client,
}
use snc_platform.Chat.Rooms.Contract.{
  HubCall, join, leave, look, register, perform, run, membership, promised_run,
}
use snc_platform.Chat.Rooms.Contract.Refinement.{run-promised}
use snc_platform.Chat.Rooms.Presence.{IsExact, get_room_presence-IsExact}

abbrev tab : ℕ → String → ChatClient
tab n u = record { ref = n; user_id = some u; user_name = some u; avatar_url = none }

abbrev guest : ℕ → ChatClient
guest n = record { ref = n; user_id = none; user_name = none; avatar_url = none }

abbrev all_open : Readiness
all_open n = true

-- The socket of the first tab has closed.
abbrev first_closed : Readiness
first_closed n = not (n == 1)

abbrev empty_hub : Hub
empty_hub = record { rooms = []; connected_users = []; sent = [] }

-- Two tabs of one user and a guest join, then the first tab goes away unnoticed.
abbrev evening : List (Readiness × HubCall)
evening =
    (all_open, register (tab 1 "ann"))
    ∷ (all_open, join "live" (tab 1 "ann"))
    ∷ (all_open, join "live" (tab 2 "ann"))
    ∷ (all_open, join "live" (guest 3))
    ∷ (first_closed, look "live")
    ∷ (all_open, leave "live" (guest 3))
    ∷ []

run-promised_example :
    membership (run evening empty_hub) ≡ promised_run evening (membership empty_hub)
run-promised_example = run-promised evening empty_hub tt

get_room_presence-IsExact_example :
    IsExact first_closed
      (room_members "live" (run evening empty_hub))
      (get_room_presence first_closed "live" (run evening empty_hub)).0
get_room_presence-IsExact_example =
    get_room_presence-IsExact first_closed "live" (run evening empty_hub)

-- Only the second tab is left.
one_left : get_room_client_count "live" (run evening empty_hub) ≡ 1
unfolding run perform register_client join_room leave_room after_leaving get_room_presence
    collect_users broadcast_to_room send_all has_other_connections lookup put drop_key any select
    delete
one_left = refl
