-- ===== src/Chat/Rooms/Contract/Refinement.antt =====
-- The operations on the maps of clients keep the contract.
use snc_platform.Prelude.{
  ℕ, String, ◌≡◌, refl, sym, ap, ◌∙◌, subst, inl, inr, Bool, not, ◌&&◌, ◌||◌, Option, none, some,
  List, [], ◌∷◌, str_eq, str_eq_iff, ◌==◌, if◌then◌else◌, Bool-cases, Option-cases, arith, fun_ext,
}
use snc_platform.Prelude.Table.{any}
use snc_platform.Prelude.Maps.{lookup, put, drop_key, HasDistinctKeys}
use snc_platform.Chat.Rooms.{
  ChatClient, ServerEvent, Members, Hub, Readiness, named, is_client, add, remove,
  prune_stale_clients, is_empty, user_clients, get_client_rooms, leave_room, leave_all_rooms,
  register_client, unregister_client, send_to_user,
}
use snc_platform.Chat.Rooms.Members.{
  none_left, entry, entry-put, entry-drop_key, Acts, get_room_presence-Acts, broadcast_to_room-Acts,
  join_room-Acts, leave_room-Acts,
}
use snc_platform.Chat.Rooms.Contract.{
  HubCall, join, leave, leave_all, broadcast, look, register, unregister, send_to, perform, run,
  Relation, membership, at, at_user, promised, promised_run,
}
use snc_platform.Chat.Rooms.Contract.Membership.{
  any-prune, any-add, any-remove, Acts-at, client_rooms_lem, leave_room-in_room,
  leave_rooms-in_room, leave_rooms-keeps,
}

-- What the two parts of the state say together.
both :
    (s : Hub) (m : Relation)
    → (membership s).in_room ≡ m.in_room
    → (membership s).online ≡ m.online
    → membership s ≡ m
both s m e f =
    ap (λ g. record { in_room = g; online = (membership s).online }) e
    ∙ ap (λ g. record { in_room = m.in_room; online = g }) f

online-eq :
    (s s' : Hub)
    → s'.connected_users ≡ s.connected_users
    → (membership s').online ≡ (membership s).online
online-eq s s' e = ap (λ m u x. any (is_client x) (entry u m)) e

put-online :
    (u : String) (ms : Members) (φ : ℕ → Bool → Bool) (m m' : List (String × Members))
    → ((j : String) → entry j m' ≡ (if str_eq u j then ms else entry j m))
    → ((x : ℕ) → any (is_client x) ms ≡ φ x (any (is_client x) (entry u m)))
    → (λ (j : String) (x : ℕ). any (is_client x) (entry j m'))
      ≡ at u φ (λ j x. any (is_client x) (entry j m))
put-online u ms φ m m' e meaning = fun_ext (λ j. fun_ext (λ x. point j x))
  where
    point :
        (j : String) (x : ℕ)
        → any (is_client x) (entry j m') ≡ at u φ (λ j x. any (is_client x) (entry j m)) j x
    point j x = ap (any (is_client x)) (e j) ∙ (elim (Bool-cases (str_eq u j)) [
      | inr other ↦ rw other refl
      | inl same ↦
          rw same
            (meaning x ∙ ap (λ z. φ x (any (is_client x) (entry z m))) ((str_eq_iff u j).0 same))
    ])

module _ (c : ChatClient) (s : Hub) where
  register_client-online :
      (membership (register_client c s)).online
      ≡ at_user (named c.user_id) (λ x b. b || x == c.ref) (membership s).online
  unfolding register_client
  register_client-online = by_name (named c.user_id)
    where
      by_name :
          (o : Option String)
          → (membership (elim o [
            | none ↦ s
            | some u ↦ record s {
              connected_users = put u (add c (user_clients u s)) s.connected_users;
            }
          ])).online
            ≡ at_user o (λ x b. b || x == c.ref) (membership s).online
      by_name none = refl
      by_name (some u) =
          put-online u (add c (user_clients u s)) (λ x b. b || x == c.ref) s.connected_users _
            (entry-put u (add c (user_clients u s)) s.connected_users)
            (λ x. any-add x c (user_clients u s))

  unregister_client-online :
      (membership (unregister_client c s)).online
      ≡ at_user (named c.user_id) (λ x b. b && not (x == c.ref)) (membership s).online
  unfolding unregister_client any
  unregister_client-online = elim (Option-cases (named c.user_id)) [
    | inl e ↦ rw (e, unregister_client) refl
    | inr (u, e) ↦
        rw (e, unregister_client)
          (elim (Option-cases (lookup u s.connected_users)) [
            | inl f ↦ rw f (absent u f)
            | inr (ms, f) ↦ rw f (present u ms (rw (f, entry) refl))
          ])
  ]
    where
      without : ℕ → Bool → Bool
      without x b = b && not (x == c.ref)

      absent :
          (u : String)
          → lookup u s.connected_users ≡ none
          → (membership s).online ≡ at u without (membership s).online
      absent u f =
          put-online u (entry u s.connected_users) without s.connected_users s.connected_users
            (λ j. elim (Bool-cases (str_eq u j)) [
              | inr other ↦ rw other refl
              | inl same ↦
                  rw same (ap (λ z. entry z s.connected_users) (sym ((str_eq_iff u j).0 same)))
            ])
            (λ x. rw (f, entry) refl)

      present :
          (u : String) (ms : Members)
          → entry u s.connected_users ≡ ms
          → (membership (
              if is_empty (remove c ms)
              then record s { connected_users = drop_key u s.connected_users }
              else record s { connected_users = put u (remove c ms) s.connected_users })).online
            ≡ at u without (membership s).online
      present u ms e = elim (Bool-cases (is_empty (remove c ms))) [
        | inl empty ↦ rw empty (
            put-online u [] without s.connected_users _ (entry-drop_key u s.connected_users)
              (λ x. ap (any (is_client x)) (sym (none_left (remove c ms) empty)) ∙ left x))
        | inr more ↦ rw more (
            put-online u (remove c ms) without s.connected_users _
              (entry-put u (remove c ms) s.connected_users) left)
      ]
        where
          left :
              (x : ℕ)
              → any (is_client x) (remove c ms)
                ≡ without x (any (is_client x) (entry u s.connected_users))
          left x = any-remove x c ms ∙ ap (λ z. without x (any (is_client x) z)) (sym e)

  register_client-rooms : (register_client c s).rooms ≡ s.rooms
  unfolding register_client
  register_client-rooms = elim (Option-cases (named c.user_id)) [
    | inl e ↦ rw (e, register_client) refl
    | inr (u, e) ↦ rw (e, register_client) refl
  ]

  unregister_client-rooms : (unregister_client c s).rooms ≡ s.rooms
  unfolding unregister_client
  unregister_client-rooms = elim (Option-cases (named c.user_id)) [
    | inl e ↦ rw (e, unregister_client) refl
    | inr (u, e) ↦
        rw (e, unregister_client)
          (elim (Option-cases (lookup u s.connected_users)) [
            | inl f ↦ rw f refl
            | inr (ms, f) ↦ rw f (elim (Bool-cases (is_empty (remove c ms))) [
              | inl empty ↦ rw empty refl
              | inr more ↦ rw more refl
            ])
          ])
  ]

send_to_user-keeps :
    (ready : Readiness) (u : String) (ev : ServerEvent) (s : Hub)
    → ((send_to_user ready u ev s).rooms ≡ s.rooms)
      × ((send_to_user ready u ev s).connected_users ≡ s.connected_users)
unfolding send_to_user
send_to_user-keeps ready u ev s = elim (Option-cases (lookup u s.connected_users)) [
  | inl e ↦ rw (e, send_to_user) (refl, refl)
  | inr (ms, e) ↦ rw (e, send_to_user) (refl, refl)
]

in_room-eq : (s s' : Hub) → s'.rooms ≡ s.rooms → (membership s').in_room ≡ (membership s).in_room
in_room-eq s s' e = ap (λ m r x. any (is_client x) (entry r m)) e

perform-keys :
    (ready : Readiness) (c : HubCall) (s : Hub)
    → HasDistinctKeys s.rooms
    → HasDistinctKeys (perform ready c s).rooms
unfolding perform
perform-keys ready (join r c) s d = (join_room-Acts ready r c s).keys d
perform-keys ready (leave r c) s d = (leave_room-Acts ready r c s).keys d
perform-keys ready (leave_all c) s d = (leave_rooms-keeps ready (get_client_rooms c s) c s).0 d
perform-keys ready (broadcast r ev) s d = (broadcast_to_room-Acts ready r ev s).keys d
perform-keys ready (look r) s d = (get_room_presence-Acts ready r s).keys d
perform-keys ready (register c) s d = subst HasDistinctKeys (sym (register_client-rooms c s)) d
perform-keys ready (unregister c) s d = subst HasDistinctKeys (sym (unregister_client-rooms c s)) d
perform-keys ready (send_to u ev) s d =
    subst HasDistinctKeys (sym (send_to_user-keeps ready u ev s).0) d

-- An operation on one room.
Acts-promised :
    (r : String) (f : Members → Members) (φ : ℕ → Bool → Bool) (s s' : Hub)
    → ((x : ℕ) (ms : Members) → any (is_client x) (f ms) ≡ φ x (any (is_client x) ms))
    → Acts r f s s'
    → membership s' ≡ record (membership s) { in_room = at r φ (membership s).in_room }
Acts-promised r f φ s s' meaning acts =
    both s' (record (membership s) { in_room = at r φ (membership s).in_room })
      (Acts-at r f φ s s' meaning acts) (online-eq s s' acts.users)

perform-promised :
    (ready : Readiness) (c : HubCall) (s : Hub)
    → HasDistinctKeys s.rooms
    → membership (perform ready c s) ≡ promised ready c (membership s)
unfolding perform
perform-promised ready (join r c) s d =
    Acts-promised r _ (λ x b. ready x && (b || x == c.ref)) s _
      (λ x ms.
        any-prune ready x (add c (prune_stale_clients ready ms))
        ∙ ap (λ b. ready x && b) (any-add x c (prune_stale_clients ready ms))
        ∙ ap (λ b. ready x && (b || x == c.ref)) (any-prune ready x ms)
        ∙ absorb (ready x) (any (is_client x) ms) (x == c.ref))
      (join_room-Acts ready r c s)
  where
    absorb : (a b e : Bool) → (a && ((a && b) || e)) ≡ (a && (b || e))
    absorb a b e = ground arith
perform-promised ready (leave r c) s d =
    both (leave_room ready r c s) (promised ready (leave r c) (membership s))
      (leave_room-in_room ready r c s)
      (online-eq s (leave_room ready r c s) (leave_room-Acts ready r c s).users)
perform-promised ready (leave_all c) s d =
    both (leave_all_rooms ready c s) (promised ready (leave_all c) (membership s))
      (fun_ext (λ j. fun_ext (λ x.
        leave_rooms-in_room ready (get_client_rooms c s) c s j x
        ∙ ap
            (λ b.
              if b
              then ready x && ((membership s).in_room j x && not (x == c.ref))
              else (membership s).in_room j x)
            (client_rooms_lem c s.rooms j d))))
      (online-eq s (leave_all_rooms ready c s)
        (leave_rooms-keeps ready (get_client_rooms c s) c s).1)
perform-promised ready (broadcast r ev) s d =
    Acts-promised r (prune_stale_clients ready) (λ x b. ready x && b) s _ (any-prune ready)
      (broadcast_to_room-Acts ready r ev s)
perform-promised ready (look r) s d =
    Acts-promised r (prune_stale_clients ready) (λ x b. ready x && b) s _ (any-prune ready)
      (get_room_presence-Acts ready r s)
perform-promised ready (register c) s d =
    both (register_client c s) (promised ready (register c) (membership s))
      (in_room-eq s (register_client c s) (register_client-rooms c s)) (register_client-online c s)
perform-promised ready (unregister c) s d =
    both (unregister_client c s) (promised ready (unregister c) (membership s))
      (in_room-eq s (unregister_client c s) (unregister_client-rooms c s))
      (unregister_client-online c s)
perform-promised ready (send_to u ev) s d =
    both (send_to_user ready u ev s) (membership s)
      (in_room-eq s (send_to_user ready u ev s) (send_to_user-keeps ready u ev s).0)
      (online-eq s (send_to_user ready u ev s) (send_to_user-keeps ready u ev s).1)

-- The chat rooms implement the relation of clients to rooms and to users: after any calls in any
-- order, each with any of the sockets open, from maps without a double key, who is in which room and
-- who is registered for which user is what the calls promise.
pub run-promised :
    (cs : List (Readiness × HubCall)) (s : Hub)
    → HasDistinctKeys s.rooms
    → membership (run cs s) ≡ promised_run cs (membership s)
unfolding run
run-promised [] s d = refl
run-promised ((ready, c) ∷ cs) s d =
    run-promised cs (perform ready c s) (perform-keys ready c s d)
    ∙ ap (promised_run cs) (perform-promised ready c s d)
