-- ===== src/Playout/Status/Multi/Agreement.antt =====
-- The status of a channel among many against its status alone.
use snc_platform.Prelude.{
  String, ◌≡◌, refl, sym, ap, ◌∙◌, subst, ◌⊎◌, inl, inr, true, false, Option, none, some, List, [],
  ◌∷◌, str_eq, str_eq_iff, if◌then◌else◌, Bool-cases, All, arith,
}
use snc_platform.Prelude.Table.{select, first}
use snc_platform.Shared.{ok}
use snc_platform.Playout.Store.{Channel, Store, truthy, channel_has_id}
use snc_platform.Playout.Pool.{mem_text}
use snc_platform.Playout.Status.{ChannelQueueStatus, channel_status, get_channel_queue_status}
use snc_platform.Playout.Status.Multi.Gathering.{
  same_channel-asked, count_where-pooled_in, rows_of-queue_by_channel,
}
use snc_platform.Playout.Status.Multi.{
  channel_in, name_in, named_status, status_in, set_status, put, found_name, collect,
  get_multi_channel_queue_status, status_of,
}

-- The primary key: no two channels have one id.
abbrev pub HasDistinctChannels : List Channel → Type 0
HasDistinctChannels [] = Unit
HasDistinctChannels (c ∷ cs) = All (λ y. str_eq y.id c.id ≡ false) cs × HasDistinctChannels cs

some_eq : {a b : Channel} → some a ≡ some b → a ≡ b
some_eq e = cc e

module _ (ids : List String) (ch : String) (asked : mem_text ids ch ≡ true) where
  name_in-missing :
      (cs : List Channel)
      → All (λ y. str_eq y.id ch ≡ false) cs
      → name_in ch (select (channel_in ids) cs) ≡ none
  unfolding name_in select
  name_in-missing [] h = refl
  name_in-missing (c ∷ cs) h = elim (Bool-cases (channel_in ids c)) [
    | inl asked_too ↦ rw asked_too (rw (name_in-missing cs h.1) (rw h.0 refl))
    | inr other ↦ rw other (name_in-missing cs h.1)
  ]

  name_in-first :
      (cs : List Channel) (c : Channel)
      → HasDistinctChannels cs
      → first (channel_has_id ch) cs ≡ some c
      → name_in ch (select (channel_in ids) cs) ≡ some c.name
  unfolding name_in select first
  name_in-first [] c h e = cc e
  name_in-first (x ∷ xs) c h e = elim (Bool-cases (str_eq x.id ch)) [
    | inl here ↦
        let same : x ≡ c = some_eq (rw here at e) in
        let others =
          subst (λ i. All (λ y. str_eq y.id i ≡ false) xs) ((str_eq_iff x.id ch).0 here) h.0 in
        rw (same_channel-asked ids ch asked x.id here)
          (rw (name_in-missing xs others) (rw here (ap (λ (y : Channel). some y.name) same)))
    | inr elsewhere ↦
        let later = name_in-first xs c h.1 (rw elsewhere at e) in
        elim (Bool-cases (channel_in ids x)) [
          | inl asked_too ↦ rw asked_too (rw later refl)
          | inr other ↦ rw other later
        ]
  ]

  named_status-eq : (c : Channel) (s : Store) → named_status ids ch c.name s ≡ channel_status c ch s
  unfolding named_status channel_status
  named_status-eq c s =
      rw (rows_of-queue_by_channel ids ch asked s, count_where-pooled_in ids ch asked s.pool) refl

status_of-set_status :
    (k j : String) (v : ChannelQueueStatus) (m : List (String × ChannelQueueStatus))
    → status_of j (set_status k v m) ≡ (if str_eq k j then some v else status_of j m)
unfolding status_of set_status
status_of-set_status k j v [] = refl
status_of-set_status k j v ((i, w) ∷ m) =
    ground (arith, str_eq_iff k j, str_eq_iff i k, str_eq_iff i j, status_of-set_status k j v m)

module _ (ids : List String) (s : Store) (ch : String) (v : ChannelQueueStatus)
    (good : status_in ids ch (found_name ids ch s) s ≡ some v) where
  put-keeps :
      (x : String) (m : List (String × ChannelQueueStatus))
      → status_of ch m ≡ some v
      → status_of ch (put x (status_in ids x (found_name ids x s) s) m) ≡ some v
  put-keeps x m h = by_status (status_in ids x (found_name ids x s) s) refl
    where
      by_status :
          (o : Option ChannelQueueStatus)
          → status_in ids x (found_name ids x s) s ≡ o
          → status_of ch (put x o m) ≡ some v
      by_status none e = h
      by_status (some w) e = status_of-set_status x ch w m ∙ by_id (Bool-cases (str_eq x ch))
        where
          by_id :
              (str_eq x ch ≡ true) ⊎ (str_eq x ch ≡ false)
              → (if str_eq x ch then some w else status_of ch m) ≡ some v
          by_id (inl same) = rw same (
              sym (
                sym good
                ∙ subst (λ z. status_in ids z (found_name ids z s) s ≡ some w)
                    ((str_eq_iff x ch).0 same) e))
          by_id (inr other) = rw other h

  collect-keeps :
      (xs : List String) (m : List (String × ChannelQueueStatus))
      → status_of ch m ≡ some v
      → status_of ch (collect ids xs s m) ≡ some v
  unfolding collect
  collect-keeps [] m h = h
  collect-keeps (x ∷ xs) m h = collect-keeps xs _ (put-keeps x m h)

  put-here :
      (x : String) (m : List (String × ChannelQueueStatus))
      → str_eq x ch ≡ true
      → status_of ch (put x (status_in ids x (found_name ids x s) s) m) ≡ some v
  put-here x m same =
      let here =
        subst (λ z. status_in ids z (found_name ids z s) s ≡ some v)
          (sym ((str_eq_iff x ch).0 same)) good in
      rw here (status_of-set_status x ch v m ∙ rw same refl)

  collect-reaches :
      (xs : List String) (m : List (String × ChannelQueueStatus))
      → mem_text xs ch ≡ true
      → status_of ch (collect ids xs s m) ≡ some v
  unfolding collect
  collect-reaches [] m h = cc h
  collect-reaches (x ∷ xs) m h = elim (Bool-cases (str_eq x ch)) [
    | inl same ↦ collect-keeps xs _ (put-here x m same)
    | inr other ↦ collect-reaches xs _ (rw other at h)
  ]

truthy-named : (x : String) → str_eq x "" ≡ false → truthy (some x) ≡ some x
truthy-named x e = rw e refl

status_found :
    (ids : List String) (ch : String) (c : Channel) (s : Store)
    → found_name ids ch s ≡ some c.name
    → status_in ids ch (found_name ids ch s) s ≡ some (named_status ids ch c.name s)
unfolding status_in
status_found ids ch c s e = rw e refl

alone :
    (ch : String) (c : Channel) (s : Store)
    → first (channel_has_id ch) s.channels ≡ some c
    → get_channel_queue_status ch s ≡ ok (channel_status c ch s)
unfolding get_channel_queue_status
alone ch c s e = rw (e, get_channel_queue_status) refl

-- A channel that is asked for, is there and has a name gets the same status among many as alone.
-- The channel ids are taken to be distinct.
pub get_multi_channel_queue_status_lem :
    (ids : List String) (s : Store) (ch : String) (c : Channel)
    → HasDistinctChannels s.channels
    → mem_text ids ch ≡ true
    → first (channel_has_id ch) s.channels ≡ some c
    → str_eq c.name "" ≡ false
    → (status_of ch (get_multi_channel_queue_status ids s) ≡ some (channel_status c ch s))
      × (get_channel_queue_status ch s ≡ ok (channel_status c ch s))
unfolding get_multi_channel_queue_status
get_multi_channel_queue_status_lem ids s ch c distinct asked found named =
    let name : found_name ids ch s ≡ some c.name =
      ap truthy (name_in-first ids ch asked s.channels c distinct found)
      ∙ truthy-named c.name named in
    let good =
      status_found ids ch c s name
      ∙ ap (λ (x : ChannelQueueStatus). some x) (named_status-eq ids ch asked c s) in
    (collect-reaches ids s ch (channel_status c ch s) good ids [] asked, alone ch c s found)
