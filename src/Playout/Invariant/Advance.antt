-- ===== src/Playout/Invariant/Advance.antt =====
-- What advancing a channel keeps of the queue: its ids, its sources, and one playing row.
use snc_platform.Prelude.{
  ℕ, suc, ◌≤◌, String, ◌≡◌, refl, sym, ap, ◌∙◌, subst, inl, inr, Bool, true, false, Option, none,
  some, List, [], ◌∷◌, ◌++◌, arith, str_eq, str_eq_iff, if◌then◌else◌, Bool-cases, Option-cases,
}
use snc_platform.Prelude.Table.{update, count_where, first}
use snc_platform.Prelude.Table.Laws.{first-eq-none}
use snc_platform.Playout.Store.{playing, QueueSource, QueueRow, Store, Env, has_id, playing_on}
use snc_platform.Playout.Transitions.{
  mark_played, promote_next, enqueue, next_queued, make_room, next_position, at_or_after, shift,
  new_row, batch_rows, with_status,
}
use snc_platform.Playout.Transitions.Births.{UuidsDiffer, enqueue-eq}
use snc_platform.Playout.Transitions.Playing.{
  mark_played-eq, promote_next-eq_none, promote_next-eq_some, count_playing-finished,
  count_playing-playing, count_playing-elsewhere, next_queued-IsNext, IsNext,
}
use snc_platform.Playout.AutoFill.Laws.{filled, auto_fill-queue}
use native.Mathlib.Numerals.{add-one}
use mathlib.Core.Path.{subst₂}
use snc_platform.Playout.AutoFill.{auto_fill, queue_depth_below_auto_fill_threshold}
use snc_platform.Playout.Prefetch.{push_prefetch_buffer, push_track, with_pushed}
use snc_platform.Playout.Prefetch.Laws.{push_prefetch_buffer-keeps}
use snc_platform.Playout.Control.{finish_playing, advance, on_track_started, skip, stop_playing}
use snc_platform.Playout.Invariant.Steps.{
  IsWellFormed, KeepsIdentity, update-IsWellFormed, update_quiet-IsWellFormed, played-IsWellFormed,
  batch-IsWellFormed,
}

-- The invariant of a store.
abbrev pub IsSound : Env → Store → Type 0
IsSound env s = IsWellFormed env s.ids_used s.queue

-- No row of the channel is playing.
abbrev pub IsIdle : String → Store → Type 0
IsIdle ch s = count_where (playing_on ch) s.queue ≡ 0

pub with_pushed-KeepsIdentity : (b : Bool) → KeepsIdentity (with_pushed b)
with_pushed-KeepsIdentity b = record { id = λ r. refl; source = λ r h. h }

push_track-IsSound :
    (env : Env) (ch x uri : String) (s : Store)
    → IsSound env s
    → IsSound env (push_track env ch x uri s)
unfolding push_track
push_track-IsSound env ch x uri s w = elim (Bool-cases (env.push_ok s.calls_used ch uri)) [
  | inl good ↦ rw good (
      update_quiet-IsWellFormed env s.ids_used s.queue w (has_id x) (with_pushed true)
        (with_pushed-KeepsIdentity true) (λ c r. refl))
  | inr bad ↦ rw bad w
]

pub push_prefetch_buffer-IsSound :
    (env : Env) (ch : String) (s : Store)
    → IsSound env s
    → IsSound env (push_prefetch_buffer env ch s)
push_prefetch_buffer-IsSound env ch s w =
    push_prefetch_buffer-keeps (IsSound env) env ch s
      (λ x uri t h. push_track-IsSound env ch x uri t h) w

module _ (env : Env) (differ : UuidsDiffer env) where
  pub auto_fill-IsSound :
      (ch : String) (s : Store) → IsSound env s → IsSound env (auto_fill env ch s)
  auto_fill-IsSound ch s w =
      let (rows, ids) = auto_fill-queue env ch s in
      subst₂ (IsWellFormed env) (sym ids) (sym rows) (
        batch-IsWellFormed env s.ids_used s.queue w ch s.now (next_position ch s.queue)
          (filled env ch s) differ)

  one_more :
      (ch : String) (x : QueueSource) (n created p : ℕ) (q : List QueueRow)
      → IsWellFormed env n q
      → IsWellFormed env (suc n) (q ++ new_row env n created ch x p ∷ [])
  unfolding batch_rows
  one_more ch x n created p q w =
      subst (λ k. IsWellFormed env k (q ++ new_row env n created ch x p ∷ [])) (add-one n)
        (batch-IsWellFormed env n q w ch created p (x ∷ []) differ)

  pub enqueue-IsSound :
      (ch : String) (x : QueueSource) (position : Option ℕ) (s : Store)
      → IsSound env s
      → IsSound env (enqueue env ch x position s).0
  unfolding make_room enqueue
  enqueue-IsSound ch x none s w =
      let e = enqueue-eq env ch x none s in
      subst₂ (IsWellFormed env) (sym (ap (λ (z : Store). z.ids_used) e))
        (sym (ap (λ (z : Store). z.queue) e))
        (one_more ch x s.ids_used s.now (next_position ch s.queue) s.queue w)
  enqueue-IsSound ch x (some p) s w =
      let e = enqueue-eq env ch x (some p) s in
      subst₂ (IsWellFormed env) (sym (ap (λ (z : Store). z.ids_used) e))
        (sym (ap (λ (z : Store). z.queue) e))
        (one_more ch x s.ids_used s.now p (update (at_or_after ch p) shift s.queue) (
          update_quiet-IsWellFormed env s.ids_used s.queue w (at_or_after ch p) shift
            (record { id = λ r. refl; source = λ r h. h }) (λ c r. refl)))

  mark_played-IsSound :
      (x ch : String) (s : Store) → IsSound env s → IsSound env (mark_played x ch s)
  mark_played-IsSound x ch s w =
      rw (mark_played-eq x ch s) (played-IsWellFormed env s.ids_used s.queue w x)

  mark_played-IsIdle :
      (ch ch' : String) (s : Store) {r : QueueRow}
      → IsSound env s
      → first (playing_on ch) s.queue ≡ some r
      → IsIdle ch (mark_played r.id ch' s)
  mark_played-IsIdle ch ch' s {r} w e =
      rw (mark_played-eq r.id ch' s)
        (omega (arith, count_playing-finished ch s.queue e, w.one_playing ch))

  pub finish_playing-IsSound :
      (ch : String) (s : Store)
      → IsSound env s
      → IsSound env (finish_playing ch s) × IsIdle ch (finish_playing ch s)
  unfolding finish_playing
  finish_playing-IsSound ch s w = elim (Option-cases (first (playing_on ch) s.queue)) [
    | inl idle ↦ rw (idle, finish_playing) (w, first-eq-none (playing_on ch) s.queue idle)
    | inr (r, busy) ↦
        rw (busy, finish_playing)
          (mark_played-IsSound r.id r.channel_id s w, mark_played-IsIdle ch r.channel_id s w busy)
  ]

  -- Promoting on an idle channel leaves one playing row at most.
  promote_next-IsSound :
      (ch : String) (s : Store) → IsSound env s → IsIdle ch s → IsSound env (promote_next ch s).0
  promote_next-IsSound ch s w idle = elim (Option-cases (next_queued ch s.queue)) [
    | inl empty ↦ rw (promote_next-eq_none ch s empty) w
    | inr (r, found) ↦ rw (promote_next-eq_some ch s found).0 (
        update-IsWellFormed env s.ids_used s.queue w (has_id r.id) (with_status playing)
          (record { id = λ x. refl; source = λ x h. h })
          (λ c. at_most_one c r (next_queued-IsNext ch s.queue found)))
  ]
    where
      at_most_one :
          (c : String) (r : QueueRow)
          → IsNext ch s.queue r
          → count_where (playing_on c) (update (has_id r.id) (with_status playing) s.queue) ≤ 1
      at_most_one c r next = elim (Bool-cases (str_eq ch c)) [
        | inl here ↦ omega (
          arith,
          count_playing-playing c r.id s.queue w.distinct,
          subst (λ (z : String). count_where (playing_on z) s.queue ≡ 0) ((str_eq_iff ch c).0 here)
              idle,
        )
        | inr there ↦ omega (
          arith,
          count_playing-elsewhere c ch s.queue w.distinct next.1 (ground (arith, next.0))
              (λ same. cc (sym there ∙ (str_eq_iff ch c).1 same)),
          w.one_playing c,
        )
      ]

  advance-IsSound :
      (ch : String) (s : Store) → IsSound env s → IsIdle ch s → IsSound env (advance env ch s)
  unfolding advance
  advance-IsSound ch s w idle = push_prefetch_buffer-IsSound env ch _ (
      either (queue_depth_below_auto_fill_threshold ch (promote_next ch s).0)
        (promote_next-IsSound ch s w idle))
    where
      either :
          (b : Bool)
          → IsSound env (promote_next ch s).0
          → IsSound env
              (if b then auto_fill env ch (promote_next ch s).0 else (promote_next ch s).0)
      either true h = auto_fill-IsSound ch (promote_next ch s).0 h
      either false h = h

  -- A track start keeps the ids distinct, one source to a row and one playing row to a channel.
  pub on_track_started-IsSound :
      (ch : String) (s : Store) → IsSound env s → IsSound env (on_track_started env ch s).0
  unfolding on_track_started
  on_track_started-IsSound ch s w =
      let (sound, idle) = finish_playing-IsSound ch s w in
      advance-IsSound ch (finish_playing ch s) sound idle

  pub stop_playing-IsSound :
      (ch : String) (s : Store)
      → IsSound env s
      → IsSound env (stop_playing ch s) × IsIdle ch (stop_playing ch s)
  unfolding stop_playing
  stop_playing-IsSound ch s w = elim (Option-cases (first (playing_on ch) s.queue)) [
    | inl quiet ↦ rw (quiet, stop_playing) (w, first-eq-none (playing_on ch) s.queue quiet)
    | inr (r, busy) ↦
        rw (busy, stop_playing)
          (mark_played-IsSound r.id r.channel_id s w, mark_played-IsIdle ch r.channel_id s w busy)
  ]

  -- So does a skip.
  pub skip-IsSound : (ch : String) (s : Store) → IsSound env s → IsSound env (skip env ch s).0
  unfolding skip
  skip-IsSound ch s w =
      let (sound, idle) = stop_playing-IsSound ch s w in
      advance-IsSound ch (stop_playing ch s) sound idle
