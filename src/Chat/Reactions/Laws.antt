-- ===== src/Chat/Reactions/Laws.antt =====
-- What a reaction does to the table, and who may react.
use mathlib.Core.List.{Memᴰ}
use snc_platform.Prelude.{
  ◌≡◌, refl, ◌⊎◌, inl, inr, Bool, true, false, Option, none, some, List, [], ◌∷◌, Bool-cases, All,
}
use snc_platform.Prelude.Table.{delete, first, any}
use snc_platform.Prelude.Table.Laws.{All-delete, any-delete_self}
use snc_platform.Shared.{AppError, Result, ok, err}
use snc_platform.Chat.Store.{Room, Message, Reaction, ChatStore, ChatEnv, room_has_id}
use snc_platform.Chat.Authority.{is_user_banned}
use snc_platform.Chat.Reactions.{
  ReactionRequest, same_reaction, reaction_state, ReactionState, message_in, unreact, unreact_in,
  remove_reaction,
}

-- No two rows of a message, a user and an emoji: a row's request is not that of an earlier row.
abbrev pub request_of : Reaction → ReactionRequest
request_of r = record {
  message_id = r.message_id;
  room_id = r.room_id;
  user_id = r.user_id;
  emoji = r.emoji;
}

abbrev pub HasDistinctReactions : List Reaction → Type 0
HasDistinctReactions [] = Unit
HasDistinctReactions (r ∷ rs) =
    All (λ y. same_reaction (request_of y) r ≡ false) rs × HasDistinctReactions rs

delete-HasDistinctReactions :
    (d : Reaction → Bool) (rs : List Reaction)
    → HasDistinctReactions rs
    → HasDistinctReactions (delete d rs)
unfolding delete
delete-HasDistinctReactions d [] h = tt
delete-HasDistinctReactions d (r ∷ rs) h = elim (Bool-cases (d r)) [
  | inl hit ↦ rw hit (delete-HasDistinctReactions d rs h.1)
  | inr miss ↦ rw miss (All-delete _ d rs h.0, delete-HasDistinctReactions d rs h.1)
]

-- The room is there and open, the message is in it, and the user is not banned from it.
abbrev pub MayReact : ReactionRequest → ChatStore → Type 0
MayReact q s =
    (room : Room) × Memᴰ room s.rooms
    × (room.id ≡ q.room_id)
    × (room.closed_at ≡ none)
    × ((m : Message) × Memᴰ m s.messages × (message_in q m ≡ true))
    × (is_user_banned q.user_id q.room_id s ≡ false)

-- A request fails and changes nothing, or the user may react, the answer is the message's state for
-- the emoji afterwards, the user's reaction is there, and no row is there twice.
abbrev pub Reacts : ReactionRequest → ChatStore → ChatStore × Result ReactionState → Type 0
Reacts q s out =
    ((out.0 ≡ s) × ((e : AppError) × (out.1 ≡ err e)))
    ⊎ (MayReact q s
        × (out.1 ≡ ok (reaction_state q out.0))
        × (any (same_reaction q) out.0.reactions ≡ true)
        × HasDistinctReactions out.0.reactions)

module _ (env : ChatEnv) (q : ReactionRequest) (s : ChatStore)
    (distinct : HasDistinctReactions s.reactions) where
  unreact_in-removes :
      (o : Option Room)
      → (((unreact_in q o s).0 ≡ s) × ((e : AppError) × ((unreact_in q o s).1 ≡ err e)))
        ⊎ ((any (same_reaction q) (unreact_in q o s).0.reactions ≡ false)
            × HasDistinctReactions (unreact_in q o s).0.reactions)
  unfolding unreact_in unreact
  unreact_in-removes none = inl (refl, (_, refl))
  unreact_in-removes (some room) = inr (
    any-delete_self (same_reaction q) s.reactions,
    delete-HasDistinctReactions (same_reaction q) s.reactions distinct,
  )

  -- On a table without doubles, taking a reaction back fails and changes nothing, or the reaction
  -- is not there any more and no row is there twice.
  pub remove_reaction-removes :
      (((remove_reaction q s).0 ≡ s) × ((e : AppError) × ((remove_reaction q s).1 ≡ err e)))
      ⊎ ((any (same_reaction q) (remove_reaction q s).0.reactions ≡ false)
          × HasDistinctReactions (remove_reaction q s).0.reactions)
  unfolding remove_reaction
  remove_reaction-removes = unreact_in-removes (first (room_has_id q.room_id) s.rooms)
