-- ===== src/Chat/Messages/Sending.antt =====
-- When a message is stored: the whole path of `createMessage`, its refusals included.
use mathlib.Core.List.{Memᴰ}
use snc_platform.Prelude.{
  ℕ, suc, ◌++◌, ◌+◌, ◌*◌, ◌≤◌, String, ◌≡◌, refl, ◌⊎◌, inl, inr, Bool, true, false, Option, none,
  some, List, [], ◌∷◌, str_eq_iff, ltb, leb, if◌then◌else◌, Bool-cases, arith, length, All,
}
use snc_platform.Prelude.Table.{select, first}
use snc_platform.Prelude.Table.Laws.{first-mem}
use snc_platform.Prelude.Table.Order.{All-mono}
use snc_platform.Shared.{AppError, Result, ok, err, forbidden_error}
use snc_platform.Chat.Store.{Room, Message, ChatStore, ChatEnv, room_has_id, newest_message}
use snc_platform.Chat.Authority.{can_moderate_room, is_user_banned, is_user_timed_out}
use snc_platform.Prelude.Table.Order.{IsSorted, IsOrder, order_by-IsSorted, All-of_order_by}
use snc_platform.Chat.Messages.Tags.{has_tag, strip_tags-has_tag}
use snc_platform.Chat.Filters.{is_message_filtered}
use snc_platform.Chat.Messages.{
  Draft, create_message, create_in, create_open, create_unless_timed_out, create_by,
  create_unfiltered, insert_message, new_message, strip_tags, resolve_user_badges, check_slow_mode,
  last_message, message_by, must_wait, max_message_length, message_too_long, message_filtered,
  slow_mode_error,
}

newest_message-IsOrder : IsOrder newest_message
newest_message-IsOrder = record { total = λ a b e. ground arith; trans = λ a b c e g. ground arith }

sorted-IsOld :
    (now seconds : ℕ) (ms : List Message)
    → IsSorted newest_message ms
    → must_wait now seconds (first (λ _. true) ms) ≡ false
    → All (λ m. m.created_at + seconds * 1000 ≤ now) ms
unfolding first must_wait
sorted-IsOld now seconds [] h e = tt
sorted-IsOld now seconds (x ∷ xs) h e =
    let old : x.created_at + seconds * 1000 ≤ now = ground arith in
    (old, All-mono _ _ xs (λ y g. ground arith) h.0)

-- Slow mode is off, or every message of the user in the room is old enough.
abbrev pub HasWaited : String → String → ℕ → ChatStore → Type 0
HasWaited room_id u seconds s =
    (seconds ≡ 0)
    ⊎ All (λ m. m.created_at + seconds * 1000 ≤ s.now) (select (message_by room_id u) s.messages)

check_slow_mode-HasWaited :
    (room_id u : String) (seconds : ℕ) (s : ChatStore)
    → check_slow_mode room_id u seconds s ≡ ok tt
    → HasWaited room_id u seconds s
unfolding check_slow_mode
check_slow_mode-HasWaited room_id u seconds s e = elim (Bool-cases (leb seconds 0)) [
  | inl off ↦ inl (ground arith)
  | inr on ↦ inr (
      All-of_order_by _ newest_message _ (
        sorted-IsOld s.now seconds _ (order_by-IsSorted newest_message _ newest_message-IsOrder)
          (passed (must_wait s.now seconds (last_message room_id u s)) (rw on at e))))
]
  where
    passed : (b : Bool) → (if b then err slow_mode_error else ok tt) ≡ ok (tt {0}) → b ≡ false
    passed true g = cc g
    passed false g = refl

-- The author moderates the room, or has waited and sends nothing that a filter blocks.
abbrev pub IsUnhindered : ChatEnv → Draft → Room → ChatStore → Type 0
IsUnhindered env d room s =
    (can_moderate_room d.user_id d.room_id s ≡ ok tt)
    ⊎ (HasWaited d.room_id d.user_id room.slow_mode_seconds s
        × (is_message_filtered env d.room_id d.content s ≡ false))

-- The room is there and open, and its author is neither banned nor timed out nor hindered.
abbrev pub MaySend : ChatEnv → Draft → Room → ChatStore → Type 0
MaySend env d room s =
    (length d.content ≤ max_message_length)
    × Memᴰ room s.rooms
    × (room.id ≡ d.room_id)
    × (room.closed_at ≡ none)
    × (is_user_banned d.user_id d.room_id s ≡ false)
    × (is_user_timed_out d.user_id d.room_id s ≡ none)
    × IsUnhindered env d room s

-- One message is added behind the others and is the answer: that of the draft, dated now, under the
-- next id, its text less the tags.
abbrev pub Stores : ChatEnv → Draft → Room → ChatStore → ChatStore × Result Message → Type 0
Stores env d room s out =
    (m : Message) × (out.0
      ≡ record s { messages = s.messages ++ m ∷ []; ids_used = suc s.ids_used })
    × (out.1 ≡ ok m)
    × (m.id ≡ env.uuid s.ids_used)
    × (m.room_id ≡ d.room_id)
    × (m.user_id ≡ d.user_id)
    × (m.user_name ≡ d.user_name)
    × (m.avatar_url ≡ d.avatar_url)
    × (m.badges ≡ resolve_user_badges d.user_id room s)
    × (m.content ≡ strip_tags d.content)
    × (has_tag m.content ≡ false)
    × (m.created_at ≡ s.now)

insert_message-Stores :
    (env : ChatEnv) (d : Draft) (room : Room) (s : ChatStore)
    → Stores env d room s (insert_message env d room s)
unfolding has_tag
insert_message-Stores env d room s = (
  new_message env d room s,
  refl,
  refl,
  refl,
  refl,
  refl,
  refl,
  refl,
  refl,
  refl,
  (strip_tags-has_tag d.content [] refl).0,
  refl,
)

-- Nothing is stored and an error answers; or the author may send, and one message is stored and
-- answered.
abbrev pub Sends : ChatEnv → Draft → ChatStore → ChatStore × Result Message → Type 0
Sends env d s out =
    ((out.0 ≡ s) × ((e : AppError) × (out.1 ≡ err e)))
    ⊎ ((room : Room) × MaySend env d room s × Stores env d room s out)

module _ (env : ChatEnv) (d : Draft) (s : ChatStore) where
  create_unfiltered-Sends :
      (room : Room) (r : Result (Unit {0}))
      → check_slow_mode d.room_id d.user_id room.slow_mode_seconds s ≡ r
      → (IsUnhindered env d room s → MaySend env d room s)
      → Sends env d s (create_unfiltered env d room r s)
  unfolding create_unfiltered
  create_unfiltered-Sends room (err x) e may = inl (refl, (x, refl))
  create_unfiltered-Sends room (ok _) e may =
      by_filter (is_message_filtered env d.room_id d.content s) refl
    where
      by_filter :
          (b : Bool)
          → is_message_filtered env d.room_id d.content s ≡ b
          → Sends env d s (if b then (s, err message_filtered) else insert_message env d room s)
      by_filter true blocked = inl (refl, (_, refl))
      by_filter false clean =
          let waited = check_slow_mode-HasWaited d.room_id d.user_id room.slow_mode_seconds s e in
          inr (room, may (inr (waited, clean)), insert_message-Stores env d room s)

  create_by-Sends :
      (room : Room) (r : Result (Unit {0}))
      → can_moderate_room d.user_id d.room_id s ≡ r
      → (IsUnhindered env d room s → MaySend env d room s)
      → Sends env d s (create_by env d room r s)
  unfolding create_by
  create_by-Sends room (ok _) e may = inr (room, may (inl e), insert_message-Stores env d room s)
  create_by-Sends room (err x) e may =
      create_unfiltered-Sends room (check_slow_mode d.room_id d.user_id room.slow_mode_seconds s)
        refl may

  create_unless_timed_out-Sends :
      (room : Room) (o : Option ℕ)
      → is_user_timed_out d.user_id d.room_id s ≡ o
      → (is_user_timed_out d.user_id d.room_id s ≡ none
          → IsUnhindered env d room s
          → MaySend env d room s)
      → Sends env d s (create_unless_timed_out env d room o s)
  unfolding create_unless_timed_out
  create_unless_timed_out-Sends room (some until) e may = inl (refl, (_, refl))
  create_unless_timed_out-Sends room none e may =
      create_by-Sends room (can_moderate_room d.user_id d.room_id s) refl (may e)

  create_open-Sends :
      (room : Room) (o : Option ℕ)
      → length d.content ≤ max_message_length
      → Memᴰ room s.rooms
      → room.id ≡ d.room_id
      → room.closed_at ≡ o
      → Sends env d s (create_open env d room o s)
  unfolding create_open
  create_open-Sends room (some closed) short at same e = inl (refl, (_, refl))
  create_open-Sends room none short at same e = by_ban (is_user_banned d.user_id d.room_id s) refl
    where
      by_ban :
          (b : Bool)
          → is_user_banned d.user_id d.room_id s ≡ b
          → Sends env d s (
              if b
              then (s, err (forbidden_error "You are banned from this room"))
              else create_unless_timed_out env d room (is_user_timed_out d.user_id d.room_id s) s)
      by_ban true banned = inl (refl, (_, refl))
      by_ban false free =
          create_unless_timed_out-Sends room (is_user_timed_out d.user_id d.room_id s) refl
            (λ idle clear. (short, at, same, e, free, idle, clear))

  create_in-Sends :
      (o : Option Room)
      → length d.content ≤ max_message_length
      → first (room_has_id d.room_id) s.rooms ≡ o
      → Sends env d s (create_in env d o s)
  unfolding create_in
  create_in-Sends none short e = inl (refl, (_, refl))
  create_in-Sends (some room) short e =
      let (at, hit) = first-mem (room_has_id d.room_id) s.rooms e in
      create_open-Sends room room.closed_at short at ((str_eq_iff room.id d.room_id).0 hit) refl

  -- A message is refused and nothing is stored, or its room is there and open, it has at most 500
  -- units, its author is neither banned nor timed out, the author moderates the room or has waited
  -- out the slow mode since each earlier message and is blocked by no filter. Then one message is
  -- stored behind the others and answered: it has the next id, the present time, the room, author,
  -- name and avatar of the draft, the author's badges as they are looked up, and its text is what
  -- `strip_tags` leaves of the draft's, with no tag in it.
  pub create_message-Sends : Sends env d s (create_message env d s)
  unfolding create_message
  create_message-Sends = elim (Bool-cases (ltb max_message_length (length d.content))) [
    | inl long ↦ rw long (inl (refl, (message_too_long, refl)))
    | inr short ↦
        rw short (create_in-Sends (first (room_has_id d.room_id) s.rooms) (ground arith) refl)
  ]
