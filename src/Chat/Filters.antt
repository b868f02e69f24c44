-- ===== src/Chat/Filters.antt =====
-- apps/api/src/services/chat-word-filters.ts: the word filters of a room.
pub mod Bound
use snc_platform.Prelude.{
  ℕ, suc, String, Bool, true, false, Option, none, some, List, [], ◌∷◌, ◌++◌, ◌&&◌, ◌||◌, not,
  str_eq, leb, ◌==◌, if◌then◌else◌,
}
use snc_platform.Prelude.Table.{select, delete, first, any, count_where}
use snc_platform.Shared.{
  AppError, Result, ok, err, not_found_error, conflict_error, validation_error,
}
use snc_platform.Chat.Store.{WordFilter, ChatStore, ChatEnv}
use snc_platform.Chat.Authority.{can_moderate_room}

abbrev pub word_filter_max_per_room : ℕ
word_filter_max_per_room = 100

abbrev pub units_eq : List ℕ → List ℕ → Bool
units_eq [] [] = true
units_eq [] (y ∷ ys) = false
units_eq (x ∷ xs) [] = false
units_eq (x ∷ xs) (y ∷ ys) = x == y && units_eq xs ys

abbrev pub has_pattern : String → List ℕ → WordFilter → Bool
has_pattern room_id pattern f = str_eq f.room_id room_id && units_eq f.pattern pattern

abbrev pub filter_in_room : String → WordFilter → Bool
filter_in_room room_id f = str_eq f.room_id room_id

abbrev pub new_filter : ChatEnv → String → List ℕ → Bool → ChatStore → WordFilter
new_filter env room_id pattern is_regex s = record {
  id = env.uuid s.ids_used;
  room_id = room_id;
  pattern = pattern;
  is_regex = is_regex;
  created_at = s.now;
}

abbrev pub too_many_filters : AppError
too_many_filters = validation_error "Cannot exceed 100 filters per room"

-- After the check of authority.
unfoldable pub add_allowed :
    ChatEnv → String → List ℕ → Bool → Result (Unit {0}) → ChatStore → ChatStore × Result WordFilter
add_allowed env room_id pattern is_regex (err e) s = (s, err e)
add_allowed env room_id pattern is_regex (ok _) s =
    if is_regex && not (env.is_valid_regex pattern)
    then (s, err (validation_error "Invalid regex pattern"))
    else if any (has_pattern room_id pattern) s.filters
    then (s, err (conflict_error "This filter pattern already exists for this room"))
    else if leb word_filter_max_per_room (count_where (filter_in_room room_id) s.filters)
    then (s, err too_many_filters)
    else (
      record s {
        filters = s.filters ++ new_filter env room_id pattern is_regex s ∷ [];
        ids_used = suc s.ids_used;
      },
      ok (new_filter env room_id pattern is_regex s),
    )

unfoldable pub add_word_filter :
    ChatEnv → String → String → List ℕ → Bool → ChatStore → ChatStore × Result WordFilter
add_word_filter env room_id moderator pattern is_regex s =
    add_allowed env room_id pattern is_regex (can_moderate_room moderator room_id s) s

abbrev pub filter_has_id : String → WordFilter → Bool
filter_has_id x f = str_eq f.id x

unfoldable pub remove_allowed :
    String → Result (Unit {0}) → ChatStore → ChatStore × Result (Unit {0})
remove_allowed x (err e) s = (s, err e)
remove_allowed x (ok _) s = (record s { filters = delete (filter_has_id x) s.filters }, ok tt)

unfoldable pub remove_found :
    String → String → Option WordFilter → ChatStore → ChatStore × Result (Unit {0})
remove_found x moderator none s = (s, err (not_found_error "Word filter not found"))
remove_found x moderator (some f) s = remove_allowed x (can_moderate_room moderator f.room_id s) s

unfoldable pub remove_word_filter : String → String → ChatStore → ChatStore × Result (Unit {0})
remove_word_filter x moderator s = remove_found x moderator (first (filter_has_id x) s.filters) s

unfoldable pub get_word_filters : String → ChatStore → List WordFilter
get_word_filters room_id s = select (filter_in_room room_id) s.filters

abbrev pub is_prefix : List ℕ → List ℕ → Bool
is_prefix [] ys = true
is_prefix (x ∷ xs) [] = false
is_prefix (x ∷ xs) (y ∷ ys) = x == y && is_prefix xs ys

-- `text.includes(part)`
abbrev pub text_includes : List ℕ → List ℕ → Bool
text_includes [] part = is_prefix part []
text_includes (y ∷ ys) part = is_prefix part (y ∷ ys) || text_includes ys part

-- An invalid expression is skipped.
unfoldable pub filter_blocks : ChatEnv → List ℕ → WordFilter → Bool
filter_blocks env content f =
    if f.is_regex
    then env.is_valid_regex f.pattern && env.regex_matches f.pattern content
    else text_includes (env.to_lower_case content) (env.to_lower_case f.pattern)

unfoldable pub is_message_filtered : ChatEnv → String → List ℕ → ChatStore → Bool
is_message_filtered env room_id content s =
    any (filter_blocks env content) (get_word_filters room_id s)
