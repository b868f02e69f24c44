-- ===== src/Chat/Rooms/Members.antt =====
-- What each operation of the chat rooms does to the clients of a room, and that it leaves the other
-- rooms alone.
use snc_platform.Prelude.{
  String, ◌≡◌, refl, sym, ap, ◌∙◌, subst, inl, inr, Bool, true, false, Option, none, some, List, [],
  ◌∷◌, str_eq, str_eq_refl, if◌then◌else◌, Bool-cases, Option-cases,
}
use snc_platform.Prelude.Table.{select, delete}
use snc_platform.Prelude.Maps.{
  lookup, put, drop_key, lookup-put, lookup-drop_key, HasDistinctKeys, put-HasDistinctKeys,
  drop_key-HasDistinctKeys,
}
use snc_platform.Chat.Rooms.{
  ChatClient, PresenceUser, ServerEvent, user_joined, user_left, presence, Members, Hub, Readiness,
  is_empty, after_leaving, is_client, add, remove, prune_stale_clients, user_of, get_room_presence,
  broadcast_to_room, broadcast_presence, announce, room_members, with_room, join_room, leave_room,
}

-- The operation does f to the clients of the room r, and nothing to those of another.
pub record Acts (r : String) (f : Members → Members) (s s' : Hub) : Type 0 where
  pub same : room_members r s' ≡ f (room_members r s)
  pub others : (j : String) → str_eq r j ≡ false → room_members j s' ≡ room_members j s
  pub keys : HasDistinctKeys s.rooms → HasDistinctKeys s'.rooms
  pub users : s'.connected_users ≡ s.connected_users

pub Acts-trans :
    (r : String) (f h : Members → Members) (a b c : Hub)
    → Acts r f a b
    → Acts r h b c
    → Acts r (λ ms. h (f ms)) a c
Acts-trans r f h a b c k l = record {
  same = l.same ∙ ap h k.same;
  others = λ j e. l.others j e ∙ k.others j e;
  keys = λ d. l.keys (k.keys d);
  users = l.users ∙ k.users;
}

prune-prune :
    (ready : Readiness) (ms : Members)
    → prune_stale_clients ready (prune_stale_clients ready ms) ≡ prune_stale_clients ready ms
unfolding select
prune-prune ready [] = refl
prune-prune ready (c ∷ ms) = elim (Bool-cases (ready c.ref)) [
  | inl up ↦ rw (up, up, prune-prune ready ms) refl
  | inr down ↦ rw down (prune-prune ready ms)
]

prune-remove-prune :
    (ready : Readiness) (c : ChatClient) (ms : Members)
    → prune_stale_clients ready (remove c (prune_stale_clients ready ms))
      ≡ remove c (prune_stale_clients ready ms)
unfolding select delete
prune-remove-prune ready c [] = refl
prune-remove-prune ready c (d ∷ ms) = elim (Bool-cases (ready d.ref)) [
  | inr down ↦ rw down (prune-remove-prune ready c ms)
  | inl up ↦ elim (Bool-cases (is_client c.ref d)) [
    | inl same ↦ rw (up, same) (prune-remove-prune ready c ms)
    | inr other ↦ rw (up, other, up, prune-remove-prune ready c ms) refl
  ]
]

-- The clients at a key, none where it has no entry.
abbrev pub entry : String → List (String × Members) → Members
entry k m = elim (lookup k m) [ none ↦ [] | some ms ↦ ms ]

pub entry-put :
    (k : String) (ms : Members) (m : List (String × Members)) (j : String)
    → entry j (put k ms m) ≡ (if str_eq k j then ms else entry j m)
entry-put k ms m j =
    ap (λ o. elim o [ none ↦ [] | some xs ↦ xs ]) (lookup-put k ms m j) ∙ by_test (str_eq k j)
  where
    by_test :
        (b : Bool)
        → (elim (if b then some ms else lookup j m) [ none ↦ [] | some xs ↦ xs ])
          ≡ (if b then ms else entry j m)
    by_test true = refl
    by_test false = refl

pub entry-drop_key :
    (k : String) (m : List (String × Members)) (j : String)
    → entry j (drop_key k m) ≡ (if str_eq k j then [] else entry j m)
entry-drop_key k m j =
    ap (λ o. elim o [ none ↦ [] | some xs ↦ xs ]) (lookup-drop_key k m j) ∙ by_test (str_eq k j)
  where
    by_test :
        (b : Bool)
        → (elim (if b then none else lookup j m) [ none ↦ [] | some xs ↦ xs ])
          ≡ (if b then [] else entry j m)
    by_test true = refl
    by_test false = refl

put-Acts :
    (r : String) (f : Members → Members) (s s' : Hub)
    → s'.rooms ≡ put r (f (room_members r s)) s.rooms
    → s'.connected_users ≡ s.connected_users
    → Acts r f s s'
put-Acts r f s s' e u = record {
  users = u;
  same = at r ∙ rw (str_eq_refl r) refl;
  others = λ j other. at j ∙ rw other refl;
  keys =
      λ d. subst HasDistinctKeys (sym e) (put-HasDistinctKeys r (f (room_members r s)) s.rooms d);
}
  where
    at :
        (j : String)
        → room_members j s' ≡ (if str_eq r j then f (room_members r s) else room_members j s)
    at j =
        ap (λ m. elim (lookup j m) [ none ↦ [] | some xs ↦ xs ]) e
        ∙ entry-put r (f (room_members r s)) s.rooms j

absent-Acts :
    (r : String) (f : Members → Members) (s : Hub)
    → f [] ≡ []
    → lookup r s.rooms ≡ none
    → Acts r f s s
absent-Acts r f s empty e = record {
  same = none_there ∙ sym empty ∙ ap f (sym none_there);
  others = λ j d. refl;
  users = refl;
  keys = λ d. d;
}
  where
    none_there : room_members r s ≡ []
    none_there = rw (e, room_members) refl

pub get_room_presence-Acts :
    (ready : Readiness) (r : String) (s : Hub)
    → Acts r (prune_stale_clients ready) s (get_room_presence ready r s).1
unfolding get_room_presence select
get_room_presence-Acts ready r s = elim (Option-cases (lookup r s.rooms)) [
  | inl e ↦ rw (e, get_room_presence) (absent-Acts r (prune_stale_clients ready) s refl e)
  | inr (ms, e) ↦
      rw (e, get_room_presence)
        (put-Acts r (prune_stale_clients ready) s _ (rw (e, room_members) refl) refl)
]

pub broadcast_to_room-Acts :
    (ready : Readiness) (r : String) (ev : ServerEvent) (s : Hub)
    → Acts r (prune_stale_clients ready) s (broadcast_to_room ready r ev s)
unfolding broadcast_to_room select
broadcast_to_room-Acts ready r ev s = elim (Option-cases (lookup r s.rooms)) [
  | inl e ↦ rw (e, broadcast_to_room) (absent-Acts r (prune_stale_clients ready) s refl e)
  | inr (ms, e) ↦
      rw (e, broadcast_to_room)
        (put-Acts r (prune_stale_clients ready) s _ (rw (e, room_members) refl) refl)
]

-- Two operations where the second undoes nothing of the first.
pub Acts-eq :
    (r : String) (f h : Members → Members) (s s' : Hub)
    → f (room_members r s) ≡ h (room_members r s)
    → Acts r f s s'
    → Acts r h s s'
Acts-eq r f h s s' e k = record {
  same = k.same ∙ e;
  others = k.others;
  keys = k.keys;
  users = k.users;
}

broadcast_presence-Acts :
    (ready : Readiness) (r : String) (s : Hub)
    → Acts r (prune_stale_clients ready) s (broadcast_presence ready r s)
broadcast_presence-Acts ready r s =
    Acts-eq r _ (prune_stale_clients ready) s _ (prune-prune ready (room_members r s)) (
      Acts-trans r (prune_stale_clients ready) (prune_stale_clients ready) s _ _
        (get_room_presence-Acts ready r s)
        (broadcast_to_room-Acts ready r (presence r (get_room_presence ready r s).0) _))

announced-Acts :
    (ready : Readiness) (r : String) (test : Bool) (event : PresenceUser → ServerEvent)
    (c : ChatClient) (s : Hub)
    → Acts r
        (prune_stale_clients ready)
        s
        (broadcast_presence ready r (announce ready r test event c s))
announced-Acts ready r test event c s = by_user (user_of c) test
  where
    by_user :
        (o : Option PresenceUser) (b : Bool)
        → Acts r (prune_stale_clients ready) s (
            broadcast_presence ready r (elim o [
              | none ↦ s
              | some x ↦ if b then broadcast_to_room ready r (event x) s else s
            ]))
    by_user none b = broadcast_presence-Acts ready r s
    by_user (some x) false = broadcast_presence-Acts ready r s
    by_user (some x) true =
        Acts-eq r _ (prune_stale_clients ready) s _ (prune-prune ready (room_members r s)) (
          Acts-trans r (prune_stale_clients ready) (prune_stale_clients ready) s _ _
            (broadcast_to_room-Acts ready r (event x) s) (broadcast_presence-Acts ready r _))

with_room-Acts :
    (r : String) (f : Members → Members) (s : Hub)
    → Acts r f s (with_room r (f (room_members r s)) s)
with_room-Acts r f s = put-Acts r f s _ refl refl

pub join_room-Acts :
    (ready : Readiness) (r : String) (c : ChatClient) (s : Hub)
    → Acts r
        (λ ms. prune_stale_clients ready (add c (prune_stale_clients ready ms)))
        s
        (join_room ready r c s)
unfolding join_room
join_room-Acts ready r c s =
    Acts-trans r (λ ms. add c (prune_stale_clients ready ms)) (prune_stale_clients ready) s _ _
      (Acts-eq r (λ ms. add c (prune_stale_clients ready (room_members r s)))
        (λ ms. add c (prune_stale_clients ready ms)) s _ refl
        (Acts-trans r (prune_stale_clients ready)
          (λ ms. add c (prune_stale_clients ready (room_members r s))) s _ _
          (with_room-Acts r (prune_stale_clients ready) s)
          (with_room-Acts r (λ ms. add c (prune_stale_clients ready (room_members r s))) _)))
      (announced-Acts ready r _ (user_joined r) c _)

-- A room whose last client has left is dropped.
drop-Acts :
    (r : String) (f : Members → Members) (s : Hub)
    → f (room_members r s) ≡ []
    → Acts r f s (record s { rooms = drop_key r (put r (f (room_members r s)) s.rooms) })
drop-Acts r f s empty = record {
  same = entry-drop_key r (put r (f (room_members r s)) s.rooms) r ∙ rw (str_eq_refl r) (sym empty);
  others = λ j other.
      entry-drop_key r (put r (f (room_members r s)) s.rooms) j
      ∙ rw other (entry-put r (f (room_members r s)) s.rooms j ∙ rw other refl);
  keys = λ d.
      drop_key-HasDistinctKeys r (put r (f (room_members r s)) s.rooms)
        (put-HasDistinctKeys r (f (room_members r s)) s.rooms d);
  users = refl;
}

pub none_left : (ms : Members) → is_empty ms ≡ true → ms ≡ []
none_left [] e = refl
none_left (c ∷ ms) e = cc e

after_leaving-Acts :
    (ready : Readiness) (r : String) (c : ChatClient) (f : Members → Members) (s : Hub)
    → prune_stale_clients ready (f (room_members r s)) ≡ f (room_members r s)
    → Acts r f s
        (after_leaving ready r c (f (room_members r s)) (with_room r (f (room_members r s)) s))
unfolding after_leaving
after_leaving-Acts ready r c f s kept = elim (Bool-cases (is_empty (f (room_members r s)))) [
  | inl none_there ↦ rw none_there (drop-Acts r f s (none_left (f (room_members r s)) none_there))
  | inr some_there ↦ rw some_there (
      Acts-eq r (λ ms. prune_stale_clients ready (f ms)) f s _ kept
        (Acts-trans r f (prune_stale_clients ready) s _ _ (with_room-Acts r f s)
          (announced-Acts ready r _ (λ x. user_left r x.user_id x.user_name) c _)))
]

pub leave_room-Acts :
    (ready : Readiness) (r : String) (c : ChatClient) (s : Hub)
    → Acts r (λ ms. remove c (prune_stale_clients ready ms)) s (leave_room ready r c s)
unfolding leave_room select delete
leave_room-Acts ready r c s = elim (Option-cases (lookup r s.rooms)) [
  | inl e ↦
      rw (e, leave_room) (absent-Acts r (λ ms. remove c (prune_stale_clients ready ms)) s refl e)
  | inr (ms, e) ↦ rw (e, leave_room) (there ms (rw (e, room_members) refl))
]
  where
    rest : Members → Members
    rest ms = remove c (prune_stale_clients ready ms)

    there :
        (ms : Members)
        → room_members r s ≡ ms
        → Acts r rest s (after_leaving ready r c (rest ms) (with_room r (rest ms) s))
    there ms e =
        subst (λ z. Acts r rest s (after_leaving ready r c (rest z) (with_room r (rest z) s))) e
          (after_leaving-Acts ready r c rest s (prune-remove-prune ready c (room_members r s)))
