-- ===== src/Playout/Transitions/Playing.antt =====
-- How the transitions move the queue, and how many rows of a channel are playing after them.
use mathlib.Core.List.{Memᴰ}
use snc_platform.Prelude.{
  ◌+◌, ◌≤◌, String, ◌≡◌, refl, sym, ap, ◌∙◌, subst, ◌≢◌, inl, inr, Bool, true, false, none, some,
  List, [], ◌∷◌, arith, str_eq, str_eq_iff, Bool-cases, Option-cases, leb→le, le_refl, All,
}
use snc_platform.Prelude.Table.{select, update, count_where, first, any, order_by}
use snc_platform.Prelude.Table.Laws.{count_where-update}
use snc_platform.Prelude.Table.Order.{
  All-mono, All-select, All-of_select, All-order_by, All-of_order_by, IsOrder, order_by-IsSorted,
  All-self,
}
use snc_platform.Events.{ChangeType}
use snc_platform.Playout.Store.{
  playing, played, QueueRow, Store, has_id, playing_on, queued_on, by_position,
}
use snc_platform.Playout.Rows.{HasDistinctIds, same_id_same_row}
use snc_platform.Playout.Transitions.{
  publish_creator_editorial_change, with_status, mark_played, next_queued, promote_next,
}

-- Publishing changes nothing but the list of events.
pub publish_creator_editorial_change-eq :
    (ch : String) (change : ChangeType) (s : Store)
    → publish_creator_editorial_change ch change s
      ≡ record s { events = (publish_creator_editorial_change ch change s).events }
unfolding publish_creator_editorial_change
publish_creator_editorial_change-eq ch change s = ground arith

pub mark_played-eq :
    (x ch : String) (s : Store)
    → mark_played x ch s ≡ record s {
      queue = update (has_id x) (with_status played) s.queue;
      events = (mark_played x ch s).events;
    }
unfolding mark_played
mark_played-eq x ch s = publish_creator_editorial_change-eq ch ChangeType.now_playing _

pub promote_next-eq_none :
    (ch : String) (s : Store) → next_queued ch s.queue ≡ none → promote_next ch s ≡ (s, none)
unfolding promote_next
promote_next-eq_none ch s e = rw (e, promote_next)

pub promote_next-eq_some :
    (ch : String) (s : Store) {r : QueueRow}
    → next_queued ch s.queue ≡ some r
    → ((promote_next ch s).0 ≡ record s {
      queue = update (has_id r.id) (with_status playing) s.queue;
      events = (promote_next ch s).0.events;
    })
      × ((promote_next ch s).1 ≡ some r)
unfolding promote_next
promote_next-eq_some ch s e =
    rw (e, promote_next) (publish_creator_editorial_change-eq ch ChangeType.now_playing _, refl)

abbrev pub OnePlaying : List QueueRow → Type 0
OnePlaying q = (c : String) → count_where (playing_on c) q ≤ 1

-- Marking rows as played makes no row play.
pub count_playing-played :
    (c x : String) (q : List QueueRow)
    → count_where (playing_on c) (update (has_id x) (with_status played) q)
      ≤ count_where (playing_on c) q
unfolding count_where update
count_playing-played c x [] = omega arith
count_playing-played c x (r ∷ rs) = ground (arith, count_playing-played c x rs)

-- Marking the row that plays on a channel as played takes one away.
pub count_playing-finished :
    (c : String) (q : List QueueRow) {r : QueueRow}
    → first (playing_on c) q ≡ some r
    → count_where (playing_on c) (update (has_id r.id) (with_status played) q) + 1
      ≤ count_where (playing_on c) q
unfolding count_where update first
count_playing-finished c [] e = cc
count_playing-finished c (y ∷ ys) {r} e = elim (Bool-cases (playing_on c y)) [
  | inl hit ↦
      let same : y ≡ r = ground arith in
      let found : has_id r.id y ≡ true =
        (str_eq_iff y.id r.id).1 (ap (λ (z : QueueRow). z.id) same) in
      ground (arith, count_playing-played c r.id ys)
  | inr miss ↦ ground (arith, count_playing-finished c ys {r = r} (ground arith))
]

update_none :
    (x : String) (f : QueueRow → QueueRow) (q : List QueueRow)
    → any (has_id x) q ≡ false
    → update (has_id x) f q ≡ q
unfolding update any
update_none x f [] e = refl
update_none x f (r ∷ rs) e = ground (arith, update_none x f rs)

-- At most one row has the id, so at most one more row plays.
pub count_playing-playing :
    (c x : String) (q : List QueueRow)
    → HasDistinctIds q
    → count_where (playing_on c) (update (has_id x) (with_status playing) q)
      ≤ count_where (playing_on c) q + 1
unfolding count_where update
count_playing-playing c x [] h = omega arith
count_playing-playing c x (r ∷ rs) h = elim (Bool-cases (str_eq r.id x)) [
  | inl hit ↦
      let same : r.id ≡ x = (str_eq_iff r.id x).0 hit in
      let tail : update (has_id x) (with_status playing) rs ≡ rs =
        update_none x (with_status playing) rs (subst (λ z. any (has_id z) rs ≡ false) same h.0) in
      rw hit (rw tail (ground arith))
  | inr miss ↦ rw miss (ground (arith, count_playing-playing c x rs h.1))
]

-- A row of one channel that starts to play changes no other channel's count.
pub count_playing-elsewhere :
    (c ch : String) (q : List QueueRow) {r : QueueRow}
    → HasDistinctIds q
    → Memᴰ r q
    → str_eq r.channel_id ch ≡ true
    → ch ≢ c
    → count_where (playing_on c) (update (has_id r.id) (with_status playing) q)
      ≡ count_where (playing_on c) q
count_playing-elsewhere c ch q {r} h m on other =
    count_where-update (playing_on c) (has_id r.id) (with_status playing) q
      (All-mono (λ y. has_id r.id y ≡ true → y ≡ r) _ q step (same_id_same_row q h m))
  where
    off : str_eq r.channel_id c ≡ false
    off = elim (Bool-cases (str_eq r.channel_id c)) [
      | inl hit ↦
          absurd
            (other (sym ((str_eq_iff r.channel_id ch).0 on) ∙ (str_eq_iff r.channel_id c).0 hit))
      | inr miss ↦ miss
    ]

    step :
        (y : QueueRow)
        → (has_id r.id y ≡ true → y ≡ r)
        → has_id r.id y ≡ true
        → playing_on c (with_status playing y) ≡ playing_on c y
    step y same hit =
        let e : str_eq y.channel_id c ≡ false =
          ap (λ (z : QueueRow). str_eq z.channel_id c) (same hit) ∙ off in
        rw e

pub by_position-IsOrder : IsOrder by_position
by_position-IsOrder = record { total = λ a b e. ground arith; trans = λ a b c e g. ground arith }

head_of :
    (q : List QueueRow) {r : QueueRow}
    → first (λ _. true) q ≡ some r
    → (t : List QueueRow) × (q ≡ r ∷ t)
unfolding first
head_of [] e = cc
head_of (x ∷ xs) e = (xs, ground arith)

-- The next row of a channel: queued there, in the table, with no queued row at a lower position.
abbrev pub IsNext : String → List QueueRow → QueueRow → Type 0
IsNext ch q r =
    (queued_on ch r ≡ true)
    × Memᴰ r q
    × All (λ y. queued_on ch y ≡ true → r.position ≤ y.position) q

IsNext-of_sorted :
    (ch : String) (q t : List QueueRow) {r : QueueRow}
    → order_by by_position (select (queued_on ch) q) ≡ r ∷ t
    → IsNext ch q r
IsNext-of_sorted ch q t {r} e =
    let good =
      All-order_by (λ y. (queued_on ch y ≡ true) × Memᴰ y q) by_position _
        (All-select _ (queued_on ch) q (All-mono _ _ q (λ y m hit. (hit, m)) (All-self q))) in
    let here = (rw e at good).0 in
    let sorted = order_by-IsSorted by_position (select (queued_on ch) q) by_position-IsOrder in
    let least = (rw e at sorted).0 in
    let low : All (λ y. r.position ≤ y.position) (order_by by_position (select (queued_on ch) q)) =
      rw e (le_refl r.position, All-mono _ _ t (λ y f. leb→le r.position y.position f) least) in
    (here.0, here.1, All-of_select _ (queued_on ch) q (All-of_order_by _ by_position _ low))

pub next_queued-IsNext :
    (ch : String) (q : List QueueRow) {r : QueueRow} → next_queued ch q ≡ some r → IsNext ch q r
unfolding next_queued
next_queued-IsNext ch q e = let (t, split) = head_of _ e in IsNext-of_sorted ch q t split

pub next_queued-eq_none :
    (ch : String) (q : List QueueRow)
    → next_queued ch q ≡ none
    → All (λ y. queued_on ch y ≡ false) q
unfolding next_queued first
next_queued-eq_none ch q e =
    All-mono _ _ q (λ y f. not_true (queued_on ch y) f)
      (All-of_select (λ y. ⊥) (queued_on ch) q
        (All-of_order_by (λ y. ⊥) by_position _ (none_first _ e)))
  where
    not_true : (b : Bool) → (b ≡ true → ⊥) → b ≡ false
    not_true true f = absurd (f refl)
    not_true false f = refl

    none_first : (xs : List QueueRow) → first (λ _. true) xs ≡ none → All (λ y. ⊥) xs
    none_first [] g = tt
    none_first (x ∷ xs) g = cc g

-- What `promote_next` returns is the next row of the channel, and that row alone, by its id, is
-- now playing.
pub promote_next-IsNext :
    (ch : String) (s : Store) {r : QueueRow}
    → (promote_next ch s).1 ≡ some r
    → IsNext ch s.queue r
      × ((promote_next ch s).0.queue ≡ update (has_id r.id) (with_status playing) s.queue)
promote_next-IsNext ch s {r} e = elim (Option-cases (next_queued ch s.queue)) [
  | inl empty ↦
      let stays = promote_next-eq_none ch s empty in
      let f : none ≡ some r = sym (ap (λ p. p.1) stays) ∙ e in cc f
  | inr (x, found) ↦
      let (moved, told) = promote_next-eq_some ch s found in
      let same : some x ≡ some r = sym told ∙ e in
      let found' : next_queued ch s.queue ≡ some r = found ∙ same in
      let (moved', _) = promote_next-eq_some ch s found' in
      (next_queued-IsNext ch s.queue found', ap (λ (z : Store). z.queue) moved')
]
