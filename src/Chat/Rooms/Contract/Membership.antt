-- ===== src/Chat/Rooms/Contract/Membership.antt =====
-- What the operations on a room's clients do to the relation between rooms and clients.
use snc_platform.Prelude.{
  ℕ, String, ◌≡◌, refl, sym, ap, ◌∙◌, subst, inl, inr, Bool, true, false, not, ◌&&◌, ◌||◌, List, [],
  ◌∷◌, str_eq, str_eq_iff, ◌==◌, if◌then◌else◌, Bool-cases, arith, fun_ext,
}
use snc_platform.Prelude.Table.{select, delete, any}
use snc_platform.Prelude.Table.Laws.{any-append}
use snc_platform.Prelude.Maps.{lookup, has_key, lookup-none, HasDistinctKeys}
use snc_platform.Chat.Rooms.{
  ChatClient, Members, Hub, Readiness, is_client, has, add, remove, prune_stale_clients,
  room_members, client_rooms, leave_room, leave_rooms,
}
use snc_platform.Chat.Rooms.Members.{entry, Acts, leave_room-Acts}
use snc_platform.Chat.Rooms.Contract.{membership, at}

same_ref : (x y : ℕ) → x == y ≡ true → x ≡ y
same_ref x y e = ground arith

pub any-prune :
    (ready : Readiness) (x : ℕ) (ms : Members)
    → any (is_client x) (prune_stale_clients ready ms) ≡ (ready x && any (is_client x) ms)
unfolding any select
any-prune ready x [] = ground arith
any-prune ready x (c ∷ ms) = elim (Bool-cases (x == c.ref)) [
  | inl same ↦
      let e : ready x ≡ ready c.ref = ap ready (same_ref x c.ref same) in
      elim (Bool-cases (ready c.ref)) [
        | inl up ↦ rw (up, same, e ∙ up) refl
        | inr down ↦ rw (down, any-prune ready x ms, e ∙ down) refl
      ]
  | inr other ↦ elim (Bool-cases (ready c.ref)) [
    | inl up ↦ rw (up, other) (any-prune ready x ms)
    | inr down ↦ rw (down, other) (any-prune ready x ms)
  ]
]

pub any-add :
    (x : ℕ) (c : ChatClient) (ms : Members)
    → any (is_client x) (add c ms) ≡ (any (is_client x) ms || x == c.ref)
unfolding any
any-add x c ms = elim (Bool-cases (has c ms)) [
  | inr new ↦
      rw new (any-append (is_client x) ms (c ∷ []) ∙ last (any (is_client x) ms) (x == c.ref))
  | inl old ↦ rw old (elim (Bool-cases (x == c.ref)) [
    | inl same ↦
        rw (same, subst (λ z. any (is_client z) ms ≡ true) (sym (same_ref x c.ref same)) old) refl
    | inr other ↦ rw other (right_false (any (is_client x) ms))
  ])
]
  where
    last : (a b : Bool) → (a || (b || false)) ≡ (a || b)
    last a b = ground arith

    right_false : (a : Bool) → a ≡ (a || false)
    right_false a = ground arith

pub any-remove :
    (x : ℕ) (c : ChatClient) (ms : Members)
    → any (is_client x) (remove c ms) ≡ (any (is_client x) ms && not (x == c.ref))
unfolding any delete
any-remove x c [] = refl
any-remove x c (d ∷ ms) = ground (arith, any-remove x c ms)

pub Acts-at :
    (r : String) (f : Members → Members) (φ : ℕ → Bool → Bool) (s s' : Hub)
    → ((x : ℕ) (ms : Members) → any (is_client x) (f ms) ≡ φ x (any (is_client x) ms))
    → Acts r f s s'
    → (membership s').in_room ≡ at r φ (membership s).in_room
Acts-at r f φ s s' meaning acts = fun_ext (λ j. fun_ext (λ x. point j x))
  where
    point :
        (j : String) (x : ℕ)
        → any (is_client x) (room_members j s') ≡ at r φ (membership s).in_room j x
    point j x = elim (Bool-cases (str_eq r j)) [
      | inr other ↦ rw other (ap (any (is_client x)) (acts.others j other))
      | inl same ↦ rw same (
          subst
            (λ z.
              any (is_client x) (room_members z s') ≡ φ x (any (is_client x) (room_members z s)))
            ((str_eq_iff r j).0 same)
            (ap (any (is_client x)) acts.same ∙ meaning x (room_members r s)))
    ]

-- The rooms that a client is in.
pub client_rooms_lem :
    (c : ChatClient) (m : List (String × Members)) (j : String)
    → HasDistinctKeys m
    → any (λ r. str_eq r j) (client_rooms c m) ≡ has c (entry j m)
unfolding any client_rooms lookup
client_rooms_lem c [] j d = refl
client_rooms_lem c ((r, ms) ∷ m) j (out, d) = elim (Bool-cases (str_eq r j)) [
  | inl same ↦
      let here : entry j ((r, ms) ∷ m) ≡ ms = rw (same, entry) refl in
      elim (Bool-cases (has c ms)) [
        | inl inside ↦ rw (inside, same) (sym (ap (has c) here ∙ inside))
        | inr outside ↦ rw outside (
            client_rooms_lem c m j d
            ∙ ap (has c) (gone (subst (λ z. has_key z m ≡ false) ((str_eq_iff r j).0 same) out))
            ∙ sym (ap (has c) here ∙ outside))
      ]
  | inr other ↦
      let later : entry j ((r, ms) ∷ m) ≡ entry j m = rw (other, entry) refl in
      elim (Bool-cases (has c ms)) [
        | inl inside ↦ rw (inside, other) (client_rooms_lem c m j d ∙ sym (ap (has c) later))
        | inr outside ↦ rw outside (client_rooms_lem c m j d ∙ sym (ap (has c) later))
      ]
]
  where
    gone : has_key j m ≡ false → entry j m ≡ []
    gone h = rw (lookup-none j m h, entry) refl

pub leave_room-in_room :
    (ready : Readiness) (r : String) (c : ChatClient) (s : Hub)
    → (membership (leave_room ready r c s)).in_room
      ≡ at r (λ x b. ready x && (b && not (x == c.ref))) (membership s).in_room
leave_room-in_room ready r c s =
    Acts-at r (λ ms. remove c (prune_stale_clients ready ms))
      (λ x b. ready x && (b && not (x == c.ref))) s _
      (λ x ms.
        any-remove x c (prune_stale_clients ready ms)
        ∙ ap (λ b. b && not (x == c.ref)) (any-prune ready x ms)
        ∙ assoc (ready x) (any (is_client x) ms) (not (x == c.ref)))
      (leave_room-Acts ready r c s)
  where
    assoc : (a b d : Bool) → ((a && b) && d) ≡ (a && (b && d))
    assoc a b d = ground arith

pub leave_rooms-in_room :
    (ready : Readiness) (rs : List String) (c : ChatClient) (s : Hub) (j : String) (x : ℕ)
    → (membership (leave_rooms ready rs c s)).in_room j x ≡ (
        if any (λ r. str_eq r j) rs
        then ready x && ((membership s).in_room j x && not (x == c.ref))
        else (membership s).in_room j x)
unfolding any leave_rooms
leave_rooms-in_room ready [] c s j x = refl
leave_rooms-in_room ready (r ∷ rs) c s j x =
    leave_rooms-in_room ready rs c (leave_room ready r c s) j x
    ∙ ap (twice (any (λ r. str_eq r j) rs)) (ap (λ M. M j x) (leave_room-in_room ready r c s))
    ∙ merge (str_eq r j) (any (λ r. str_eq r j) rs) (ready x) ((membership s).in_room j x)
        (not (x == c.ref))
  where
    twice : Bool → Bool → Bool
    twice m b = if m then ready x && (b && not (x == c.ref)) else b

    merge :
        (e m a b n : Bool)
        → (if m
            then a && ((if e then a && (b && n) else b) && n)
            else (if e then a && (b && n) else b))
          ≡ (if e || m then a && (b && n) else b)
    merge e m a b n = ground arith

pub leave_rooms-keeps :
    (ready : Readiness) (rs : List String) (c : ChatClient) (s : Hub)
    → (HasDistinctKeys s.rooms → HasDistinctKeys (leave_rooms ready rs c s).rooms)
      × ((leave_rooms ready rs c s).connected_users ≡ s.connected_users)
unfolding leave_rooms
leave_rooms-keeps ready [] c s = (λ d. d, refl)
leave_rooms-keeps ready (r ∷ rs) c s =
    let (keys, users) = leave_rooms-keeps ready rs c (leave_room ready r c s) in
    (λ d. keys ((leave_room-Acts ready r c s).keys d), users ∙ (leave_room-Acts ready r c s).users)
