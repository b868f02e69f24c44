-- ===== src/Playout/Control/Removal.antt =====
-- Removing a row from a channel's queue.
use mathlib.Core.List.{Memᴰ}
use snc_platform.Prelude.{
  String, ◌≡◌, refl, ap, ◌∙◌, subst, ◌⊎◌, inl, inr, Bool, true, false, List, [], ◌∷◌, arith,
  str_eq_iff, Bool-cases, Option-cases, All, ◌≢◌, sym, str_eq_refl,
}
use snc_platform.Prelude.Table.{delete, count_where, first, any}
use snc_platform.Prelude.Table.Laws.{any-delete_self, first-mem, any-of_mem}
use snc_platform.Prelude.Table.Order.{All-mono}
use snc_platform.Shared.{AppError, Result, ok, err}
use snc_platform.Playout.Store.{playing, QueueRow, Store, has_id, playing_on, is_playing}
use snc_platform.Events.{ChangeType}
use snc_platform.Playout.Rows.{HasDistinctIds, same_id_same_row}
use snc_platform.Playout.Transitions.{remove_queued, cannot_remove_playing}
use snc_platform.Playout.Transitions.Playing.{publish_creator_editorial_change-eq}
use snc_platform.Playout.Control.{remove_from_queue, entry_on}

-- Deleting rows that do not pass a test keeps the count of those that do.
count_where-delete_eq {ℓ} :
    {R : Type ℓ} (p d : R → Bool) (rs : List R)
    → All (λ r. d r ≡ true → p r ≡ false) rs
    → count_where p (delete d rs) ≡ count_where p rs
unfolding count_where delete
count_where-delete_eq p d [] h = refl
count_where-delete_eq p d (r ∷ rs) h = elim (Bool-cases (d r)) [
  | inl hit ↦ rw hit (rw (h.0 hit) (count_where-delete_eq p d rs h.1))
  | inr miss ↦ rw miss (rw (count_where-delete_eq p d rs h.1))
]

-- The second list is the first one less its row of that id, which was on the channel and not playing.
abbrev pub LosesRow : String → String → List QueueRow → List QueueRow → Type 0
LosesRow ch x [] ys = ⊥
LosesRow ch x (r ∷ rs) ys =
    ((r.id ≡ x) × (r.channel_id ≡ ch) × (r.status ≢ playing) × (ys ≡ rs))
    ⊎ ((r.id ≢ x) × ((rest : List QueueRow) × (ys ≡ r ∷ rest) × LosesRow ch x rs rest))

delete-none :
    (x : String) (rs : List QueueRow) → any (has_id x) rs ≡ false → delete (has_id x) rs ≡ rs
unfolding any delete
delete-none x [] h = refl
delete-none x (r ∷ rs) h = elim (Bool-cases (has_id x r)) [
  | inl hit ↦ cc (h, hit)
  | inr miss ↦ rw miss (ap (λ z. r ∷ z) (delete-none x rs (rw miss at h)))
]

delete-LosesRow :
    (ch x : String) (rs : List QueueRow)
    → HasDistinctIds rs
    → any (has_id x) rs ≡ true
    → All (λ r. has_id x r ≡ true → (r.channel_id ≡ ch) × (r.status ≢ playing)) rs
    → LosesRow ch x rs (delete (has_id x) rs)
unfolding any delete
delete-LosesRow ch x [] d there own = cc there
delete-LosesRow ch x (r ∷ rs) d there own = elim (Bool-cases (has_id x r)) [
  | inl hit ↦
      let same : r.id ≡ x = (str_eq_iff r.id x).0 hit in
      let alone : any (has_id x) rs ≡ false = subst (λ z. any (has_id z) rs ≡ false) same d.0 in
      rw hit (inl (same, (own.0 hit).0, (own.0 hit).1, delete-none x rs alone))
  | inr miss ↦ rw miss (
      inr (
        λ same. cc (miss, (str_eq_iff r.id x).1 same),
        (_, refl, delete-LosesRow ch x rs d.1 (rw miss at there) own.1),
      ))
]

-- What a removal does: it refuses and changes nothing, or it deletes a row that is not playing.
abbrev pub Removes : String → String → Store → Store × Result (Unit {0}) → Type 0
Removes ch x s out =
    (out.0 ≡ s) × ((e : AppError) × (out.1 ≡ err e))
    ⊎ ((out.1 ≡ ok tt)
        × LosesRow ch x s.queue out.0.queue
        × (any (has_id x) out.0.queue ≡ false)
        × ((c : String)
            → count_where (playing_on c) out.0.queue ≡ count_where (playing_on c) s.queue)
        × (out.0.pool ≡ s.pool))

remove_queued-Removes :
    (r : QueueRow) (s : Store)
    → HasDistinctIds s.queue
    → Memᴰ r s.queue
    → Removes r.channel_id r.id s (remove_queued r s)
unfolding remove_queued
remove_queued-Removes r s h m = elim (Bool-cases (is_playing r.status)) [
  | inl busy ↦ rw busy (inl (refl, (cannot_remove_playing, refl)))
  | inr free ↦ rw free (
      inr (
        rw (publish_creator_editorial_change-eq r.channel_id ChangeType.queue _) (
          refl,
          delete-LosesRow r.channel_id r.id s.queue h
              (any-of_mem (has_id r.id) s.queue {r = r} m (str_eq_refl r.id))
              (All-mono _ _ s.queue (λ y same hit. idle free y (same hit))
                (same_id_same_row s.queue h m)),
          any-delete_self (has_id r.id) s.queue,
          λ c. count_where-delete_eq (playing_on c) (has_id r.id) s.queue (
              All-mono _ _ s.queue (λ y same hit. quiet free c y (same hit))
                (same_id_same_row s.queue h m)),
          refl,
        )))
]
  where
    idle :
        is_playing r.status ≡ false
        → (y : QueueRow) → y ≡ r
        → (y.channel_id ≡ r.channel_id) × (y.status ≢ playing)
    idle free y e = (
      ap (λ (z : QueueRow). z.channel_id) e,
      λ (h : y.status ≡ playing).
          cc (sym free ∙ ap (λ (z : QueueRow). is_playing z.status) (sym e) ∙ ap is_playing h),
    )

    quiet :
        is_playing r.status ≡ false → (c : String) (y : QueueRow) → y ≡ r → playing_on c y ≡ false
    quiet free c y e =
        let off : is_playing y.status ≡ false =
          ap (λ (z : QueueRow). is_playing z.status) e ∙ free in
        rw off (ground arith)

-- A removal either fails and changes nothing, or the queue is as it was less one row: that of the id,
-- which was on the channel and not playing. Then no row has the id any more, each channel has as
-- many playing rows as before, and the pool is as it was. The row ids are taken to be distinct.
pub remove_from_queue-Removes :
    (ch x : String) (s : Store) → HasDistinctIds s.queue → Removes ch x s (remove_from_queue ch x s)
unfolding remove_from_queue
remove_from_queue-Removes ch x s h = elim (Option-cases (first (entry_on ch x) s.queue)) [
  | inl gone ↦ rw (gone, remove_from_queue) (inl (refl, (_, refl)))
  | inr (r, found) ↦
      let (m, hit) = first-mem (entry_on ch x) s.queue found in
      let same : r.id ≡ x = (str_eq_iff r.id x).0 (ground (arith, hit)) in
      let own : r.channel_id ≡ ch = (str_eq_iff r.channel_id ch).0 (ground (arith, hit)) in
      rw (found, remove_from_queue)
        (subst (λ z. Removes ch z s (remove_queued r s)) same
          (subst (λ c. Removes c r.id s (remove_queued r s)) own (remove_queued-Removes r s h m)))
]
