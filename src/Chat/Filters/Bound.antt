-- ===== src/Chat/Filters/Bound.antt =====
-- How many word filters a room gets, and that none of them is there twice.
use snc_platform.Prelude.{
  ℕ, ◌+◌, ◌≤◌, ◌<◌, String, ◌≡◌, subst, ◌⊎◌, inl, inr, Bool, true, false, Option, none, some, List,
  [], ◌∷◌, ◌++◌, ◌&&◌, not, str_eq, str_eq_iff, leb, Bool-cases, arith, All, All-append,
}
use snc_platform.Prelude.Table.{delete, first, any, count_where}
use snc_platform.Prelude.Table.Laws.{All-delete, count_where-append}
use snc_platform.Shared.{Result, ok, err}
use snc_platform.Chat.Store.{WordFilter, ChatStore, ChatEnv}
use snc_platform.Chat.Authority.{can_moderate_room}
use snc_platform.Chat.Filters.{
  add_word_filter, add_allowed, has_pattern, filter_in_room, new_filter, word_filter_max_per_room,
  remove_word_filter, remove_found, remove_allowed, filter_has_id,
}

-- No room has more than 100 filters.
abbrev pub IsBounded : List WordFilter → Type 0
IsBounded fs = (room : String) → count_where (filter_in_room room) fs ≤ word_filter_max_per_room

-- No filter has the room and the pattern of a later one.
abbrev pub HasDistinctPatterns : List WordFilter → Type 0
HasDistinctPatterns [] = Unit
HasDistinctPatterns (f ∷ fs) =
    All (λ y. has_pattern y.room_id y.pattern f ≡ false) fs × HasDistinctPatterns fs

append-HasDistinctPatterns :
    (fs : List WordFilter) (f : WordFilter)
    → any (has_pattern f.room_id f.pattern) fs ≡ false
    → HasDistinctPatterns fs
    → HasDistinctPatterns (fs ++ f ∷ [])
unfolding any
append-HasDistinctPatterns [] f e h = (tt, tt)
append-HasDistinctPatterns (x ∷ xs) f e h = (
  All-append _ xs (f ∷ []) h.0 (ground arith, tt),
  append-HasDistinctPatterns xs f (ground arith) h.1,
)

append-IsBounded :
    (fs : List WordFilter) (f : WordFilter)
    → count_where (filter_in_room f.room_id) fs < word_filter_max_per_room
    → IsBounded fs
    → IsBounded (fs ++ f ∷ [])
unfolding count_where
append-IsBounded fs f e h room =
    rw (count_where-append (filter_in_room room) fs (f ∷ []))
      (by_room (Bool-cases (str_eq f.room_id room)))
  where
    by_room :
        (str_eq f.room_id room ≡ true) ⊎ (str_eq f.room_id room ≡ false)
        → count_where (filter_in_room room) fs + count_where (filter_in_room room) (f ∷ [])
          ≤ word_filter_max_per_room
    by_room (inl here) =
        let below =
          subst (λ r. count_where (filter_in_room r) fs < word_filter_max_per_room)
            ((str_eq_iff f.room_id room).0 here) e in
        rw here (omega arith)
    by_room (inr elsewhere) = rw elsewhere (omega (arith, h room))

count_where-delete_le :
    (p d : WordFilter → Bool) (fs : List WordFilter)
    → count_where p (delete d fs) ≤ count_where p fs
unfolding count_where delete
count_where-delete_le p d [] = omega arith
count_where-delete_le p d (f ∷ fs) = ground (arith, count_where-delete_le p d fs)

delete-HasDistinctPatterns :
    (d : WordFilter → Bool) (fs : List WordFilter)
    → HasDistinctPatterns fs
    → HasDistinctPatterns (delete d fs)
unfolding delete
delete-HasDistinctPatterns d [] h = tt
delete-HasDistinctPatterns d (f ∷ fs) h = elim (Bool-cases (d f)) [
  | inl hit ↦ rw hit (delete-HasDistinctPatterns d fs h.1)
  | inr miss ↦ rw miss (All-delete _ d fs h.0, delete-HasDistinctPatterns d fs h.1)
]

abbrev pub IsTidy : List WordFilter → Type 0
IsTidy fs = IsBounded fs × HasDistinctPatterns fs

add_allowed-IsTidy :
    (env : ChatEnv) (room_id : String) (pattern : List ℕ) (is_regex : Bool) (r : Result (Unit {0}))
    (s : ChatStore)
    → IsTidy s.filters
    → IsTidy (add_allowed env room_id pattern is_regex r s).0.filters
unfolding add_allowed
add_allowed-IsTidy env room_id pattern is_regex (err e) s h = h
add_allowed-IsTidy env room_id pattern is_regex (ok _) s h =
    elim (Bool-cases (is_regex && not (env.is_valid_regex pattern))) [
      | inl bad ↦ rw bad h
      | inr good ↦ elim (Bool-cases (any (has_pattern room_id pattern) s.filters)) [
        | inl taken ↦ rw (good, taken) h
        | inr free ↦
            elim (Bool-cases
              (leb word_filter_max_per_room (count_where (filter_in_room room_id) s.filters))) [
                | inl full ↦ rw (good, free, full) h
                | inr room ↦
                    rw (good, free, room)
                      (
                        append-IsBounded s.filters (new_filter env room_id pattern is_regex s)
                            (ground arith) h.0,
                        append-HasDistinctPatterns s.filters
                            (new_filter env room_id pattern is_regex s) free h.1,
                      )
              ]
      ]
    ]

remove_allowed-IsTidy :
    (x : String) (r : Result (Unit {0})) (s : ChatStore)
    → IsTidy s.filters
    → IsTidy (remove_allowed x r s).0.filters
unfolding remove_allowed
remove_allowed-IsTidy x (err e) s h = h
remove_allowed-IsTidy x (ok _) s h = (
  λ room.
      omega
        (arith, h.0 room, count_where-delete_le (filter_in_room room) (filter_has_id x) s.filters),
  delete-HasDistinctPatterns (filter_has_id x) s.filters h.1,
)

remove_found-IsTidy :
    (x moderator : String) (o : Option WordFilter) (s : ChatStore)
    → IsTidy s.filters
    → IsTidy (remove_found x moderator o s).0.filters
unfolding remove_found
remove_found-IsTidy x moderator none s h = h
remove_found-IsTidy x moderator (some f) s h =
    remove_allowed-IsTidy x (can_moderate_room moderator f.room_id s) s h

-- If no room has more than 100 filters or two of one pattern, none has after a filter is added or
-- removed, whoever asks for it.
pub word_filters-IsTidy :
    (env : ChatEnv) (room_id moderator x : String) (pattern : List ℕ) (is_regex : Bool)
    (s : ChatStore)
    → IsTidy s.filters
    → IsTidy (add_word_filter env room_id moderator pattern is_regex s).0.filters
      × IsTidy (remove_word_filter x moderator s).0.filters
unfolding add_word_filter remove_word_filter
word_filters-IsTidy env room_id moderator x pattern is_regex s h = (
  add_allowed-IsTidy env room_id pattern is_regex (can_moderate_room moderator room_id s) s h,
  remove_found-IsTidy x moderator (first (filter_has_id x) s.filters) s h,
)
