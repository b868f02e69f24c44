-- ===== src/Playout/Invariant/Calls.antt =====
-- Every handler keeps the invariant, and so does any sequence of calls.
use snc_platform.Prelude.{
  ℕ, ◌+◌, String, ◌≡◌, refl, sym, inl, inr, false, Option, List, [], ◌∷◌, map, arith, Bool-cases,
  Option-cases, length,
}
use snc_platform.Prelude.Table.{select, update, first}
use snc_platform.Shared.{Result, ok, err}
use snc_platform.Playout.Store.{QueueSource, QueueRow, Store, Env, has_id, is_playing}
use snc_platform.Playout.Transitions.{remove_queued}
use snc_platform.Playout.Transitions.Births.{UuidsDiffer}
use snc_platform.Playout.Transitions.Playing.{publish_creator_editorial_change-eq}
use mathlib.Core.Path.{subst₂}
use snc_platform.Playout.Prefetch.{with_pushed}
use snc_platform.Playout.Pool.{
  PoolScope, resolve_pool_scope, assign_content, remove_content, assign_scoped, assign_checked,
  check_assignment, assign_values,
}
use snc_platform.Playout.Handlers.{
  Call, start, track_started, skip_track, insert, remove, assign, unassign, elapse, auto, call, run,
}
use snc_platform.Events.{ChangeType}
use snc_platform.Playout.Control.{
  insert_into_queue, insert_source, insert_scoped, insert_found, remove_from_queue, initialize,
  start_channels, insert_allowed, find_source, SourceInfo, channel_id_of, is_startup_channel,
  stale_push, entry_on,
}
use snc_platform.Playout.Invariant.Steps.{
  IsWellFormed, update_quiet-IsWellFormed, delete-IsWellFormed,
}
use snc_platform.Playout.Invariant.Advance.{
  IsSound, with_pushed-KeepsIdentity, push_prefetch_buffer-IsSound, auto_fill-IsSound,
  enqueue-IsSound, on_track_started-IsSound, skip-IsSound,
}

module _ (env : Env) (differ : UuidsDiffer env) where
  insert_source-IsSound :
      (ch : String) (x : QueueSource) (position : Option ℕ) (found : Result SourceInfo) (s : Store)
      → IsSound env s
      → IsSound env (insert_source env ch x position found s).0
  unfolding insert_source insert_found
  insert_source-IsSound ch x position (err e) s w = w
  insert_source-IsSound ch x position (ok info) s w =
      push_prefetch_buffer-IsSound env ch _ (enqueue-IsSound env differ ch x position s w)

  insert_scoped-IsSound :
      (ch : String) (x : QueueSource) (position : Option ℕ) (found : Result PoolScope) (s : Store)
      → IsSound env s
      → IsSound env (insert_scoped env ch x position found s).0
  unfolding insert_scoped
  insert_scoped-IsSound ch x position (err e) s w = w
  insert_scoped-IsSound ch x position (ok scope) s w =
      elim (Bool-cases (insert_allowed ch x scope s)) [
        | inl good ↦ rw good (insert_source-IsSound ch x position (find_source x s) s w)
        | inr bad ↦ rw bad w
      ]

  -- An insertion keeps the invariant, whether it is refused or not.
  pub insert_into_queue-IsSound :
      (ch : String) (x : QueueSource) (position : Option ℕ) (s : Store)
      → IsSound env s
      → IsSound env (insert_into_queue env ch x position s).0
  unfolding insert_into_queue
  insert_into_queue-IsSound ch x position s w =
      insert_scoped-IsSound ch x position (resolve_pool_scope ch s) s w

  start_channels-IsSound :
      (chs : List String) (s : Store) → IsSound env s → IsSound env (start_channels env chs s)
  unfolding start_channels
  start_channels-IsSound [] s w = w
  start_channels-IsSound (ch ∷ chs) s w =
      start_channels-IsSound chs _
        (push_prefetch_buffer-IsSound env ch _ (auto_fill-IsSound env differ ch s w))

  -- The start of the server keeps the invariant.
  pub initialize-IsSound : (s : Store) → IsSound env s → IsSound env (initialize env s)
  unfolding initialize
  initialize-IsSound s w =
      by_channels (map channel_id_of (select (is_startup_channel env) s.channels))
    where
      by_channels :
          (chs : List String)
          → let out : Store = elim chs [
            | [] ↦ s
            | c ∷ cs ↦
                start_channels env
                  (c ∷ cs)
                  (record s { queue = update (stale_push (c ∷ cs)) (with_pushed false) s.queue })
          ] in
            IsSound env out
      by_channels [] = w
      by_channels (c ∷ cs) = start_channels-IsSound (c ∷ cs) _ (
          update_quiet-IsWellFormed env s.ids_used s.queue w (stale_push (c ∷ cs))
            (with_pushed false) (with_pushed-KeepsIdentity false) (λ ch r. refl))

  remove_queued-IsSound :
      (entry : QueueRow) (s : Store) → IsSound env s → IsSound env (remove_queued entry s).0
  unfolding remove_queued
  remove_queued-IsSound entry s w = elim (Bool-cases (is_playing entry.status)) [
    | inl busy ↦ rw busy w
    | inr free ↦ rw free (
        rw (publish_creator_editorial_change-eq entry.channel_id ChangeType.queue _)
          (delete-IsWellFormed env s.ids_used s.queue w (has_id entry.id)))
  ]

  remove_from_queue-IsSound :
      (ch entry : String) (s : Store) → IsSound env s → IsSound env (remove_from_queue ch entry s).0
  unfolding remove_from_queue
  remove_from_queue-IsSound ch entry s w = elim (Option-cases (first (entry_on ch entry) s.queue)) [
    | inl gone ↦ rw (gone, remove_from_queue) w
    | inr (r, found) ↦ rw (found, remove_from_queue) (remove_queued-IsSound r s w)
  ]

  -- Ids that are used up leave fewer to be fresh.
  more_used-IsSound :
      (n : ℕ) (s t : Store)
      → t.queue ≡ s.queue
      → t.ids_used ≡ s.ids_used + n
      → IsSound env s
      → IsSound env t
  more_used-IsSound n s t same used w = subst₂ (IsWellFormed env) (sym used) (sym same) (record {
    distinct = w.distinct;
    fresh = λ k h. w.fresh k (omega arith);
    one_source = w.one_source;
    one_playing = w.one_playing;
  })

  assign_checked-IsSound :
      (ch : String) (ps cs : List String) (checked : Result (Unit {0})) (s : Store)
      → IsSound env s
      → IsSound env (assign_checked env ch ps cs checked s).0
  unfolding assign_checked
  assign_checked-IsSound ch ps cs (err e) s w = w
  assign_checked-IsSound ch ps cs (ok _) s w =
      more_used-IsSound (length ps + length cs) s (assign_values env ch ps cs s) refl (omega arith)
        w

  assign_scoped-IsSound :
      (ch : String) (ps cs : List String) (found : Result PoolScope) (s : Store)
      → IsSound env s
      → IsSound env (assign_scoped env ch ps cs found s).0
  unfolding assign_scoped
  assign_scoped-IsSound ch ps cs (err e) s w = w
  assign_scoped-IsSound ch ps cs (ok scope) s w =
      assign_checked-IsSound ch ps cs (check_assignment scope s.contents ps cs) s w

  call-IsSound : (c : Call) (s : Store) → IsSound env s → IsSound env (call env c s)
  unfolding call assign_content remove_content
  call-IsSound start s w = initialize-IsSound s w
  call-IsSound (auto ch) s w = auto_fill-IsSound env differ ch s w
  call-IsSound (track_started ch) s w = on_track_started-IsSound env differ ch s w
  call-IsSound (skip_track ch) s w = skip-IsSound env differ ch s w
  call-IsSound (insert ch x p) s w = insert_into_queue-IsSound ch x p s w
  call-IsSound (remove ch entry) s w = remove_from_queue-IsSound ch entry s w
  call-IsSound (assign ch ps cs) s w = assign_scoped-IsSound ch ps cs (resolve_pool_scope ch s) s w
  call-IsSound (unassign ch ps cs) s w = w
  call-IsSound (elapse millis) s w = w

  -- Whatever calls a server answers, one after the other, from a store that is sound, it stays
  -- sound: the row ids stay distinct, each row has exactly one source, and no channel has more
  -- than one playing row. The generated ids are taken not to repeat.
  pub run-IsSound : (cs : List Call) (s : Store) → IsSound env s → IsSound env (run env cs s)
  unfolding run
  run-IsSound [] s w = w
  run-IsSound (c ∷ cs) s w = run-IsSound cs (call env c s) (call-IsSound c s w)
