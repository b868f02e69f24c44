-- ===== src/Playout/Invariant/Progress.antt =====
-- A queued entry comes to play: what each track start does to the entries before it.
pub mod Rounds
use mathlib.Core.List.{Memᴰ}
use snc_platform.Prelude.{
  ℕ, zero, suc, ◌+◌, ◌≤◌, ◌<◌, String, ◌≡◌, refl, sym, ap, ◌∙◌, subst, ◌⊎◌, inl, inr, Bool, true,
  false, Option, none, some, List, [], ◌∷◌, ◌++◌, ◌&&◌, not, arith, str_eq, str_eq_refl, leb,
  if◌then◌else◌, Bool-cases, Option-cases, All, le_refl, le_trans,
}
use snc_platform.Prelude.Table.{update, first, count_where}
use snc_platform.Prelude.Table.Laws.{All-mem, count_where-append, count_where-All-false}
use snc_platform.Prelude.Table.Order.{All-mono}
use snc_platform.Playout.Store.{
  QueueStatus, queued, playing, played, QueueSource, QueueRow, Store, Env, has_id, playing_on,
  queued_on, live_on, is_queued,
}
use snc_platform.Playout.Transitions.{
  mark_played, promote_next, next_queued, with_status, batch_rows, next_position,
}
use snc_platform.Playout.Transitions.Playing.{
  mark_played-eq, promote_next-eq_none, promote_next-eq_some, next_queued-IsNext,
  next_queued-eq_none, IsNext,
}
use snc_platform.Playout.Transitions.Positions.{live-lt-next_position}
use snc_platform.Playout.AutoFill.{auto_fill, queue_depth_below_auto_fill_threshold}
use snc_platform.Playout.AutoFill.Laws.{auto_fill-queue, filled}
use snc_platform.Playout.Prefetch.{push_prefetch_buffer, push_track, with_pushed}
use snc_platform.Playout.Prefetch.Laws.{push_prefetch_buffer-keeps}
use snc_platform.Playout.Control.{finish_playing, advance, on_track_started}
use snc_platform.Playout.Invariant.Lifecycle.{rank}

-- A queued row of the channel at the position or before it.
abbrev pub queued_before : String → ℕ → QueueRow → Bool
queued_before ch p r = queued_on ch r && leb r.position p

abbrev pub ahead : String → ℕ → List QueueRow → ℕ
ahead ch p q = count_where (queued_before ch p) q

abbrev pub HasStarted : QueueRow → Type 0
HasStarted y = 1 ≤ rank y.status

-- The entry has started, or waits behind fewer than so many queued rows of its channel.
abbrev pub Waits : String → String → ℕ → List QueueRow → Type 0
Waits ch x k q =
    (y : QueueRow) × Memᴰ y q
    × (y.id ≡ x)
    × (HasStarted y ⊎ ((queued_on ch y ≡ true) × (ahead ch y.position q ≤ k)))

-- What an update does to rows that it leaves in line.
pub record IsOrderly (ch : String) (f : QueueRow → QueueRow) : Type 0 where
  id : (y : QueueRow) → (f y).id ≡ y.id
  started : (y : QueueRow) → HasStarted y → HasStarted (f y)
  moves :
      (y : QueueRow)
      → queued_on ch y ≡ true
      → HasStarted (f y) ⊎ ((queued_on ch (f y) ≡ true) × ((f y).position ≡ y.position))
  fewer : (p : ℕ) (y : QueueRow) → queued_before ch p (f y) ≡ true → queued_before ch p y ≡ true

pub mem-update :
    (p : QueueRow → Bool) (f : QueueRow → QueueRow) (q : List QueueRow) {y : QueueRow}
    → Memᴰ y q
    → Memᴰ (if p y then f y else y) (update p f q)
unfolding update
mem-update p f [] m = elim m [ ]
mem-update p f (r ∷ rs) (Memᴰ.head e) = Memᴰ.head (ap (λ z. if p z then f z else z) e)
mem-update p f (r ∷ rs) (Memᴰ.tail m) = Memᴰ.tail (mem-update p f rs m)

count_where-update_le :
    (c p : QueueRow → Bool) (f : QueueRow → QueueRow) (q : List QueueRow)
    → ((y : QueueRow) → c (f y) ≡ true → c y ≡ true)
    → count_where c (update p f q) ≤ count_where c q
unfolding count_where update
count_where-update_le c p f [] h = omega arith
count_where-update_le c p f (r ∷ rs) h = ground (arith, h r, count_where-update_le c p f rs h)

pub count_where-update_lt :
    (c p : QueueRow → Bool) (f : QueueRow → QueueRow) (q : List QueueRow) {r : QueueRow}
    → ((y : QueueRow) → c (f y) ≡ true → c y ≡ true)
    → Memᴰ r q
    → p r ≡ true
    → c r ≡ true
    → c (f r) ≡ false
    → count_where c (update p f q) < count_where c q
unfolding count_where update
count_where-update_lt c p f [] h m a b d = elim m [ ]
count_where-update_lt c p f (x ∷ xs) {r} h (Memᴰ.head e) a b d =
    let a' = subst (λ z. p z ≡ true) e a in
    let b' = subst (λ z. c z ≡ true) e b in
    let d' = subst (λ z. c (f z) ≡ false) e d in ground (arith, count_where-update_le c p f xs h)
count_where-update_lt c p f (x ∷ xs) {r} h (Memᴰ.tail m) a b d =
    ground (arith, h x, count_where-update_lt c p f xs {r = r} h m a b d)

pub update-Waits :
    (ch x : String) (k : ℕ) (p : QueueRow → Bool) (f : QueueRow → QueueRow) (q : List QueueRow)
    → IsOrderly ch f
    → Waits ch x k q
    → Waits ch x k (update p f q)
update-Waits ch x k p f q o (y, m, same, state) = elim (Bool-cases (p y)) [
  | inl hit ↦ (
    f y,
    subst (λ z. Memᴰ z (update p f q)) (rw hit refl) (mem-update p f q m),
    o.id y ∙ same,
    hit_state state,
  )
  | inr miss ↦ (
    y,
    subst (λ z. Memᴰ z (update p f q)) (rw miss refl) (mem-update p f q m),
    same,
    miss_state state,
  )
]
  where
    shrinks : (n : ℕ) → ahead ch n (update p f q) ≤ ahead ch n q
    shrinks n = count_where-update_le (queued_before ch n) p f q (o.fewer n)

    miss_state :
        HasStarted y ⊎ ((queued_on ch y ≡ true) × (ahead ch y.position q ≤ k))
        → HasStarted y ⊎ ((queued_on ch y ≡ true) × (ahead ch y.position (update p f q) ≤ k))
    miss_state (inl s) = inl s
    miss_state (inr (on, few)) = inr (on, le_trans (shrinks y.position) few)

    hit_state :
        HasStarted y ⊎ ((queued_on ch y ≡ true) × (ahead ch y.position q ≤ k))
        → HasStarted (f y)
          ⊎ ((queued_on ch (f y) ≡ true) × (ahead ch (f y).position (update p f q) ≤ k))
    hit_state (inl s) = inl (o.started y s)
    hit_state (inr (on, few)) = elim (o.moves y on) [
      | inl s ↦ inl s
      | inr (still, at) ↦ inr (still, rw at (le_trans (shrinks y.position) few))
    ]

pub with_pushed-IsOrderly : (ch : String) (b : Bool) → IsOrderly ch (with_pushed b)
with_pushed-IsOrderly ch b = record {
  id = λ y. refl;
  started = λ y s. s;
  moves = λ y on. inr (on, refl);
  fewer = λ p y h. h;
}

pub with_status-IsOrderly :
    (ch : String) (st : QueueStatus) → 1 ≤ rank st → IsOrderly ch (with_status st)
with_status-IsOrderly ch queued h = absurd (omega arith)
with_status-IsOrderly ch playing h = record {
  id = λ y. refl;
  started = λ y s. h;
  moves = λ y on. inl h;
  fewer = λ p y e. ground arith;
}
with_status-IsOrderly ch played h = record {
  id = λ y. refl;
  started = λ y s. h;
  moves = λ y on. inl h;
  fewer = λ p y e. ground arith;
}
