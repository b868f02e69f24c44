-- ===== src/Playout/Status/Multi/Gathering.antt =====
-- The rows of a channel that are gathered among the rows of many.
use snc_platform.Prelude.{
  suc, String, ◌≡◌, refl, sym, ap, ◌∙◌, subst, inl, inr, Bool, true, false, List, [], ◌∷◌, ◌++◌,
  str_eq, str_eq_iff, if◌then◌else◌, Bool-cases, arith, append_assoc, append-nil,
}
use snc_platform.Prelude.Table.{select, count_where, order_by}
use snc_platform.Prelude.Table.Stable.{select-order_by}
use snc_platform.Playout.Store.{QueueRow, PoolRow, Store, is_live, live_on, on_channel, by_position}
use snc_platform.Playout.Pool.{mem_text}
use snc_platform.Playout.Transitions.Playing.{by_position-IsOrder}
use snc_platform.Playout.Status.{in_pool_of, live_rows}
use snc_platform.Playout.Status.Multi.{
  live_in, pooled_in, add_row, gather, rows_of, queue_by_channel,
}

rows_of-add_row :
    (ch : String) (r : QueueRow) (m : List (String × List QueueRow))
    → rows_of ch (add_row r m)
      ≡ (if str_eq r.channel_id ch then rows_of ch m ++ r ∷ [] else rows_of ch m)
unfolding rows_of add_row
rows_of-add_row ch r [] = refl
rows_of-add_row ch r ((k, rs) ∷ m) = ground (
  arith,
  str_eq_iff k r.channel_id,
  str_eq_iff k ch,
  str_eq_iff r.channel_id ch,
  rows_of-add_row ch r m,
)

rows_of-gather :
    (ch : String) (rs : List QueueRow) (m : List (String × List QueueRow))
    → rows_of ch (gather rs m) ≡ rows_of ch m ++ select (on_channel ch) rs
unfolding gather select
rows_of-gather ch [] m = sym (append-nil _)
rows_of-gather ch (r ∷ rs) m =
    rows_of-gather ch rs (add_row r m)
    ∙ ap (λ t. t ++ select (on_channel ch) rs) (rows_of-add_row ch r m)
    ∙ by_channel (str_eq r.channel_id ch)
  where
    by_channel :
        (b : Bool)
        → (if b then rows_of ch m ++ r ∷ [] else rows_of ch m) ++ select (on_channel ch) rs
          ≡ rows_of ch m ++ (if b then r ∷ select (on_channel ch) rs else select (on_channel ch) rs)
    by_channel true = append_assoc (rows_of ch m) (r ∷ []) (select (on_channel ch) rs)
    by_channel false = refl

module _ (ids : List String) (ch : String) (asked : mem_text ids ch ≡ true) where
  pub same_channel-asked : (x : String) → str_eq x ch ≡ true → mem_text ids x ≡ true
  same_channel-asked x e = subst (λ y. mem_text ids y ≡ true) (sym ((str_eq_iff x ch).0 e)) asked

  select-live_in :
      (q : List QueueRow) → select (on_channel ch) (select (live_in ids) q) ≡ select (live_on ch) q
  unfolding select
  select-live_in [] = refl
  select-live_in (r ∷ rs) = elim (Bool-cases (str_eq r.channel_id ch)) [
    | inl here ↦ elim (Bool-cases (is_live r.status)) [
      | inl live ↦
          rw (same_channel-asked r.channel_id here, live)
            (rw here (ap (λ (t : List QueueRow). r ∷ t) (select-live_in rs)))
      | inr dead ↦ rw (same_channel-asked r.channel_id here, dead) (rw here (select-live_in rs))
    ]
    | inr elsewhere ↦ elim (Bool-cases (live_in ids r)) [
      | inl live ↦ rw live (rw elsewhere (select-live_in rs))
      | inr dead ↦ rw dead (rw elsewhere (select-live_in rs))
    ]
  ]

  pub count_where-pooled_in :
      (ps : List PoolRow) → count_where (pooled_in ids ch) ps ≡ count_where (in_pool_of ch) ps
  unfolding count_where
  count_where-pooled_in [] = refl
  count_where-pooled_in (r ∷ rs) = elim (Bool-cases (str_eq r.channel_id ch)) [
    | inl here ↦ rw (same_channel-asked r.channel_id here, here) (ap suc (count_where-pooled_in rs))
    | inr elsewhere ↦ ground (arith, elsewhere, count_where-pooled_in rs)
  ]

  pub rows_of-queue_by_channel : (s : Store) → rows_of ch (queue_by_channel ids s) ≡ live_rows ch s
  unfolding queue_by_channel rows_of
  rows_of-queue_by_channel s =
      rows_of-gather ch (order_by by_position (select (live_in ids) s.queue)) []
      ∙ select-order_by _ by_position-IsOrder (on_channel ch) (select (live_in ids) s.queue)
      ∙ ap (order_by by_position) (select-live_in s.queue)
