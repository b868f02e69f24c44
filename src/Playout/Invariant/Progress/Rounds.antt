-- ===== src/Playout/Invariant/Progress/Rounds.antt =====
-- Track starts and skips, one after the other, bring a queued entry to play.
use mathlib.Core.List.{Memᴰ}
use mathlib.Core.List.Memᴰ
use snc_platform.Prelude.{
  ℕ, suc, ◌+◌, ◌≤◌, ◌<◌, String, ◌≡◌, refl, sym, ◌∙◌, subst, ◌⊎◌, inl, inr, Bool, true, false, none,
  List, [], ◌∷◌, ◌++◌, arith, str_eq_refl, if◌then◌else◌, Bool-cases, Option-cases, All, le_refl,
  length,
}
use snc_platform.Prelude.Table.{update, first, count_where}
use snc_platform.Prelude.Table.Laws.{All-mem, count_where-append, count_where-All-false}
use snc_platform.Prelude.Table.Order.{All-mono, All-of_select}
use snc_platform.Playout.Store.{
  QueueStatus, queued, playing, played, QueueSource, QueueRow, Store, Env, has_id, playing_on,
  queued_on, live_on, is_queued, is_live,
}
use snc_platform.Playout.Transitions.{
  mark_played, promote_next, next_queued, with_status, batch_rows, next_position,
}
use snc_platform.Playout.Transitions.Playing.{
  mark_played-eq, promote_next-eq_none, promote_next-eq_some, next_queued-IsNext,
  next_queued-eq_none, IsNext,
}
use snc_platform.Playout.Transitions.Positions.{live-lt-next_position}
use snc_platform.Playout.AutoFill.{auto_fill, queue_depth_below_auto_fill_threshold}
use snc_platform.Playout.AutoFill.Laws.{auto_fill-queue, filled}
use snc_platform.Playout.Prefetch.{push_track, with_pushed}
use snc_platform.Playout.Prefetch.Laws.{push_prefetch_buffer-keeps}
use snc_platform.Playout.Control.{finish_playing, stop_playing, advance, on_track_started, skip}
use snc_platform.Playout.Handlers.{Call, track_started, skip_track, call, run}
use snc_platform.Playout.Invariant.Lifecycle.{rank}
use snc_platform.Playout.Invariant.Progress.{
  queued_before, ahead, HasStarted, Waits, update-Waits, with_pushed-IsOrderly,
  with_status-IsOrderly, mem-update, count_where-update_lt,
}

batch_rows-positions :
    (env : Env) (ch : String) (now n p : ℕ) (xs : List QueueSource)
    → All (λ r. p ≤ r.position) (batch_rows env ch now n p xs)
unfolding batch_rows
batch_rows-positions env ch now n p [] = tt
batch_rows-positions env ch now n p (x ∷ xs) = (
  le_refl p,
  All-mono _ _ _ (λ r h. omega arith) (batch_rows-positions env ch now (suc n) (p + 1) xs),
)

queued-is_live : (st : QueueStatus) → is_queued st ≡ true → is_live st ≡ true
queued-is_live queued e = refl
queued-is_live playing e = cc
queued-is_live played e = cc

queued_on-live_on : (ch : String) (y : QueueRow) → queued_on ch y ≡ true → live_on ch y ≡ true
queued_on-live_on ch y e = ground (arith, queued-is_live y.status)

-- Rows behind every live row of the channel keep nobody waiting longer.
append-Waits :
    (ch x : String) (k : ℕ) (q rows : List QueueRow)
    → All (λ r. next_position ch q ≤ r.position) rows
    → Waits ch x k q
    → Waits ch x k (q ++ rows)
append-Waits ch x k q rows behind (y, m, same, state) =
    (y, Memᴰ.append_left rows m, same, state_after state)
  where
    state_after :
        HasStarted y ⊎ ((queued_on ch y ≡ true) × (ahead ch y.position q ≤ k))
        → HasStarted y ⊎ ((queued_on ch y ≡ true) × (ahead ch y.position (q ++ rows) ≤ k))
    state_after (inl s) = inl s
    state_after (inr (on, few)) =
        let live = queued_on-live_on ch y on in
        let low : y.position < next_position ch q =
          All-mem _ q (All-of_select _ (live_on ch) q (live-lt-next_position ch q)) m live in
        let none_new =
          count_where-All-false (queued_before ch y.position) rows
            (All-mono _ _ rows (λ r h. late r h low) behind) in
        inr (on, omega (arith, count_where-append (queued_before ch y.position) q rows))
      where
        late :
            (r : QueueRow)
            → next_position ch q ≤ r.position
            → y.position < next_position ch q
            → queued_before ch y.position r ≡ false
        late r h low = ground arith

status_update-Waits :
    (ch x z : String) (k : ℕ) (st : QueueStatus) (q : List QueueRow)
    → 1 ≤ rank st
    → Waits ch x k q
    → Waits ch x k (update (has_id z) (with_status st) q)
status_update-Waits ch x z k st q h =
    update-Waits ch x k (has_id z) (with_status st) q (with_status-IsOrderly ch st h)

mark_played-Waits :
    (ch x z c : String) (k : ℕ) (s : Store)
    → Waits ch x k s.queue
    → Waits ch x k (mark_played z c s).queue
mark_played-Waits ch x z c k s w =
    rw (mark_played-eq z c s) (status_update-Waits ch x z k played s.queue (omega arith) w)

finish_playing-Waits :
    (ch x : String) (k : ℕ) (s : Store)
    → Waits ch x k s.queue
    → Waits ch x k (finish_playing ch s).queue
unfolding finish_playing
finish_playing-Waits ch x k s w = elim (Option-cases (first (playing_on ch) s.queue)) [
  | inl idle ↦ rw (idle, finish_playing) w
  | inr (r, busy) ↦ rw (busy, finish_playing) (mark_played-Waits ch x r.id r.channel_id k s w)
]

stop_playing-Waits :
    (ch x : String) (k : ℕ) (s : Store)
    → Waits ch x k s.queue
    → Waits ch x k (stop_playing ch s).queue
unfolding stop_playing
stop_playing-Waits ch x k s w = elim (Option-cases (first (playing_on ch) s.queue)) [
  | inl idle ↦ rw (idle, stop_playing) w
  | inr (r, busy) ↦ rw (busy, stop_playing) (mark_played-Waits ch x r.id r.channel_id k s w)
]

-- The promotion takes one entry away from before any that waits.
promoted-Waits :
    (ch x : String) (k : ℕ) (q : List QueueRow) (r : QueueRow)
    → IsNext ch q r
    → Waits ch x (suc k) q
    → Waits ch x k (update (has_id r.id) (with_status playing) q)
promoted-Waits ch x k q r next (y, m, same, inl s) =
    status_update-Waits ch x r.id k playing q (omega arith) (y, m, same, inl s)
promoted-Waits ch x k q r next (y, m, same, inr (on, few)) = elim (Bool-cases (has_id r.id y)) [
  | inl hit ↦ (
    with_status playing y,
    subst (λ z. Memᴰ z (update (has_id r.id) (with_status playing) q)) (rw hit refl)
        (mem-update (has_id r.id) (with_status playing) q m),
    same,
    inl (omega arith),
  )
  | inr miss ↦ (
    y,
    subst (λ z. Memᴰ z (update (has_id r.id) (with_status playing) q)) (rw miss refl)
        (mem-update (has_id r.id) (with_status playing) q m),
    same,
    inr (on, omega (arith, fewer, few)),
  )
]
  where
    low : r.position ≤ y.position
    low = All-mem _ q next.2 m on

    fewer :
        ahead ch y.position (update (has_id r.id) (with_status playing) q) < ahead ch y.position q
    fewer =
        count_where-update_lt (queued_before ch y.position) (has_id r.id) (with_status playing) q
          {r = r} (λ z e. ground arith) next.1 (str_eq_refl r.id) (ground (arith, next.0, low))
          (ground arith)

promote_next-Waits :
    (ch x : String) (k : ℕ) (s : Store)
    → Waits ch x (suc k) s.queue
    → Waits ch x k (promote_next ch s).0.queue
promote_next-Waits ch x k s w = elim (Option-cases (next_queued ch s.queue)) [
  | inl empty ↦ rw (promote_next-eq_none ch s empty) (none_waits empty w)
  | inr (r, found) ↦
      rw (promote_next-eq_some ch s found).0
        (promoted-Waits ch x k s.queue r (next_queued-IsNext ch s.queue found) w)
]
  where
    none_waits : next_queued ch s.queue ≡ none → Waits ch x (suc k) s.queue → Waits ch x k s.queue
    none_waits empty (y, m, same, inl st) = (y, m, same, inl st)
    none_waits empty (y, m, same, inr (on, few)) =
        cc (sym on ∙ All-mem _ s.queue (next_queued-eq_none ch s.queue empty) m)

auto_fill-Waits :
    (env : Env) (ch x : String) (k : ℕ) (s : Store)
    → Waits ch x k s.queue
    → Waits ch x k (auto_fill env ch s).queue
auto_fill-Waits env ch x k s w = rw (auto_fill-queue env ch s).0 (
    append-Waits ch x k s.queue _
      (batch_rows-positions env ch s.now s.ids_used (next_position ch s.queue) (filled env ch s)) w)

push_track-Waits :
    (env : Env) (ch c x z uri : String) (k : ℕ) (s : Store)
    → Waits ch x k s.queue
    → Waits ch x k (push_track env c z uri s).queue
unfolding push_track
push_track-Waits env ch c x z uri k s w = elim (Bool-cases (env.push_ok s.calls_used c uri)) [
  | inl good ↦
      rw good (
        update-Waits ch x k (has_id z) (with_pushed true) s.queue (with_pushed-IsOrderly ch true) w)
  | inr bad ↦ rw bad w
]

advance-Waits :
    (env : Env) (ch x : String) (k : ℕ) (s : Store)
    → Waits ch x (suc k) s.queue
    → Waits ch x k (advance env ch s).queue
unfolding advance
advance-Waits env ch x k s w =
    push_prefetch_buffer-keeps (λ t. Waits ch x k t.queue) env ch _
      (λ z uri t h. push_track-Waits env ch ch x z uri k t h)
      (either (queue_depth_below_auto_fill_threshold ch (promote_next ch s).0))
  where
    either :
        (b : Bool)
        → Waits ch x k
            (if b then auto_fill env ch (promote_next ch s).0 else (promote_next ch s).0).queue
    either true = auto_fill-Waits env ch x k _ (promote_next-Waits ch x k s w)
    either false = promote_next-Waits ch x k s w

-- What the engine and the operators do on a channel: a track starts, or one is skipped.
abbrev pub rounds : String → List Bool → List Call
rounds ch [] = []
rounds ch (started ∷ bs) = (if started then track_started ch else skip_track ch) ∷ rounds ch bs

run-Waits :
    (env : Env) (ch x : String) (bs : List Bool) (s : Store)
    → Waits ch x (length bs) s.queue
    → Waits ch x 0 (run env (rounds ch bs) s).queue
unfolding run call on_track_started skip
run-Waits env ch x [] s w = w
run-Waits env ch x (true ∷ bs) s w = run-Waits env ch x bs (on_track_started env ch s).0 (
    advance-Waits env ch x (length bs) (finish_playing ch s)
      (finish_playing-Waits ch x (suc (length bs)) s w))
run-Waits env ch x (false ∷ bs) s w = run-Waits env ch x bs (skip env ch s).0 (
    advance-Waits env ch x (length bs) (stop_playing ch s)
      (stop_playing-Waits ch x (suc (length bs)) s w))

count_where-pos :
    (p : QueueRow → Bool) (q : List QueueRow) {y : QueueRow}
    → Memᴰ y q
    → p y ≡ true
    → 0 < count_where p q
unfolding count_where
count_where-pos p [] m e = elim m [ ]
count_where-pos p (r ∷ rs) (Memᴰ.head h) e = let here = subst (λ z. p z ≡ true) h e in ground arith
count_where-pos p (r ∷ rs) {y} (Memᴰ.tail m) e = ground (arith, count_where-pos p rs {y = y} m e)

-- A queued entry comes to play: after as many track starts and skips on its channel, in any order,
-- as there are queued rows at its position or before it, itself counted, it is still in the table
-- and is playing or has been played, whatever auto-fill added in the meantime.
pub rounds-HasStarted :
    (env : Env) (ch : String) (bs : List Bool) (s : Store) (r : QueueRow)
    → Memᴰ r s.queue
    → queued_on ch r ≡ true
    → ahead ch r.position s.queue ≤ length bs
    → (y : QueueRow) × Memᴰ y (run env (rounds ch bs) s).queue × (y.id ≡ r.id) × HasStarted y
rounds-HasStarted env ch bs s r m on few =
    started (run-Waits env ch r.id bs s (r, m, refl, inr (on, few)))
  where
    started :
        Waits ch r.id 0 (run env (rounds ch bs) s).queue
        → (y : QueueRow) × Memᴰ y (run env (rounds ch bs) s).queue × (y.id ≡ r.id) × HasStarted y
    started (y, at, same, inl st) = (y, at, same, st)
    started (y, at, same, inr (waits, none_left)) = absurd (
        omega (
          arith,
          count_where-pos (queued_before ch y.position) (run env (rounds ch bs) s).queue {y = y} at
              (ground (arith, waits, le_refl y.position)),
        ))
