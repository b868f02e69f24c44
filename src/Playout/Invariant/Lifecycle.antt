-- ===== src/Playout/Invariant/Lifecycle.antt =====
-- The life of a queue row: what the handlers may change of it, and in which direction.
use snc_platform.Prelude.{
  ℕ, ◌≤◌, String, ◌≡◌, refl, ap, ◌∙◌, inl, inr, Bool, true, false, List, [], ◌∷◌, ◌++◌, arith,
  if◌then◌else◌, Bool-cases, Option-cases, All, le_refl, le_trans,
}
use snc_platform.Prelude.Table.{update, first}
use snc_platform.Prelude.Table.Order.{All-mono}
use snc_platform.Playout.Store.{
  QueueStatus, queued, playing, played, QueueRow, Store, Env, has_id, playing_on, is_queued,
}
use snc_platform.Playout.Rows.{HasDistinctIds, same_id_same_row}
use snc_platform.Playout.Transitions.{mark_played, promote_next, next_queued, with_status}
use snc_platform.Playout.Transitions.Playing.{
  mark_played-eq, promote_next-eq_none, promote_next-eq_some, next_queued-IsNext, IsNext,
}
use snc_platform.Playout.Transitions.Births.{UuidsDiffer}
use snc_platform.Playout.AutoFill.{auto_fill, queue_depth_below_auto_fill_threshold}
use snc_platform.Playout.AutoFill.Laws.{auto_fill-queue}
use snc_platform.Playout.Prefetch.{push_prefetch_buffer, push_track, with_pushed}
use snc_platform.Playout.Prefetch.Laws.{push_prefetch_buffer-keeps}
use snc_platform.Playout.Control.{finish_playing, stop_playing, advance, on_track_started, skip}
use snc_platform.Playout.Invariant.Advance.{IsSound, finish_playing-IsSound, stop_playing-IsSound}

-- queued, then playing, then played.
abbrev pub rank : QueueStatus → ℕ
rank queued = 0
rank playing = 1
rank played = 2

-- The same entry, no earlier in its life.
pub record IsLater (r y : QueueRow) : Type 0 where
  pub id : y.id ≡ r.id
  pub channel : y.channel_id ≡ r.channel_id
  pub item : y.playout_item_id ≡ r.playout_item_id
  pub content : y.content_id ≡ r.content_id
  pub position : y.position ≡ r.position
  pub status : rank r.status ≤ rank y.status

-- Every row of the first list is in the second one, in place and later in its life; the second
-- may have more rows behind them.
abbrev pub Evolves : List QueueRow → List QueueRow → Type 0
Evolves [] ys = Unit
Evolves (r ∷ rs) [] = ⊥
Evolves (r ∷ rs) (y ∷ ys) = IsLater r y × Evolves rs ys

IsLater-refl : (r : QueueRow) → IsLater r r
IsLater-refl r = record {
  id = refl;
  channel = refl;
  item = refl;
  content = refl;
  position = refl;
  status = le_refl (rank r.status);
}

IsLater-trans : {a b c : QueueRow} → IsLater a b → IsLater b c → IsLater a c
IsLater-trans h k = record {
  id = k.id ∙ h.id;
  channel = k.channel ∙ h.channel;
  item = k.item ∙ h.item;
  content = k.content ∙ h.content;
  position = k.position ∙ h.position;
  status = le_trans h.status k.status;
}

Evolves-refl : (q : List QueueRow) → Evolves q q
Evolves-refl [] = tt
Evolves-refl (r ∷ rs) = (IsLater-refl r, Evolves-refl rs)

Evolves-append : (q rows : List QueueRow) → Evolves q (q ++ rows)
Evolves-append [] rows = tt
Evolves-append (r ∷ rs) rows = (IsLater-refl r, Evolves-append rs rows)

Evolves-trans : (a b c : List QueueRow) → Evolves a b → Evolves b c → Evolves a c
Evolves-trans [] b c h k = tt
Evolves-trans (x ∷ xs) [] c h k = absurd h
Evolves-trans (x ∷ xs) (y ∷ ys) [] h k = absurd k
Evolves-trans (x ∷ xs) (y ∷ ys) (z ∷ zs) h k =
    (IsLater-trans h.0 k.0, Evolves-trans xs ys zs h.1 k.1)

update-Evolves :
    (p : QueueRow → Bool) (f : QueueRow → QueueRow) (q : List QueueRow)
    → All (λ r. p r ≡ true → IsLater r (f r)) q
    → Evolves q (update p f q)
unfolding update
update-Evolves p f [] h = tt
update-Evolves p f (r ∷ rs) h = elim (Bool-cases (p r)) [
  | inl hit ↦ rw hit (h.0 hit, update-Evolves p f rs h.1)
  | inr miss ↦ rw miss (IsLater-refl r, update-Evolves p f rs h.1)
]

All-always : (P : QueueRow → Type 0) (q : List QueueRow) → ((r : QueueRow) → P r) → All P q
All-always P [] f = tt
All-always P (r ∷ rs) f = (f r, All-always P rs f)

played-IsLater : (r : QueueRow) → IsLater r (with_status played r)
played-IsLater r = record {
  id = refl;
  channel = refl;
  item = refl;
  content = refl;
  position = refl;
  status = to_played r.status;
}
  where
    to_played : (st : QueueStatus) → rank st ≤ 2
    to_played queued = omega arith
    to_played playing = omega arith
    to_played played = omega arith

abbrev pub StoreEvolves : Store → Store → Type 0
StoreEvolves s t = Evolves s.queue t.queue

mark_played-Evolves : (x ch : String) (s : Store) → StoreEvolves s (mark_played x ch s)
mark_played-Evolves x ch s = rw (mark_played-eq x ch s) (
    update-Evolves (has_id x) (with_status played) s.queue
      (All-always _ s.queue (λ r _. played-IsLater r)))

-- Only the next row starts to play, and it was queued.
promote_next-Evolves :
    (ch : String) (s : Store) → HasDistinctIds s.queue → StoreEvolves s (promote_next ch s).0
promote_next-Evolves ch s distinct = elim (Option-cases (next_queued ch s.queue)) [
  | inl empty ↦ rw (promote_next-eq_none ch s empty) (Evolves-refl s.queue)
  | inr (r, found) ↦ rw (promote_next-eq_some ch s found).0 (
      update-Evolves (has_id r.id) (with_status playing) s.queue
        (starts r (next_queued-IsNext ch s.queue found)))
]
  where
    to_playing : (st : QueueStatus) → is_queued st ≡ true → rank st ≤ 1
    to_playing queued e = omega arith
    to_playing playing e = omega arith
    to_playing played e = cc

    starts :
        (r : QueueRow)
        → IsNext ch s.queue r
        → All (λ y. has_id r.id y ≡ true → IsLater y (with_status playing y)) s.queue
    starts r next =
        All-mono _ _ s.queue
          (λ y same hit. record {
            id = refl;
            channel = refl;
            item = refl;
            content = refl;
            position = refl;
            status =
                to_playing y.status
                  (ap (λ (z : QueueRow). is_queued z.status) (same hit) ∙ ground (arith, next.0));
          })
          (same_id_same_row s.queue distinct next.1)

auto_fill-Evolves : (env : Env) (ch : String) (s : Store) → StoreEvolves s (auto_fill env ch s)
auto_fill-Evolves env ch s = rw (auto_fill-queue env ch s).0 (Evolves-append s.queue _)

push_track-Evolves :
    (env : Env) (ch x uri : String) (s : Store) → StoreEvolves s (push_track env ch x uri s)
unfolding push_track
push_track-Evolves env ch x uri s = elim (Bool-cases (env.push_ok s.calls_used ch uri)) [
  | inl good ↦ rw good (
      update-Evolves (has_id x) (with_pushed true) s.queue (
        All-always _ s.queue (λ r _. record {
          id = refl;
          channel = refl;
          item = refl;
          content = refl;
          position = refl;
          status = le_refl (rank r.status);
        })))
  | inr bad ↦ rw bad (Evolves-refl s.queue)
]

push_prefetch_buffer-Evolves :
    (env : Env) (ch : String) (s : Store) → StoreEvolves s (push_prefetch_buffer env ch s)
push_prefetch_buffer-Evolves env ch s =
    push_prefetch_buffer-keeps (StoreEvolves s) env ch s
      (λ x uri t h. Evolves-trans s.queue t.queue _ h (push_track-Evolves env ch x uri t))
      (Evolves-refl s.queue)

advance-Evolves :
    (env : Env) (ch : String) (s : Store)
    → HasDistinctIds s.queue
    → StoreEvolves s (advance env ch s)
unfolding advance
advance-Evolves env ch s distinct =
    Evolves-trans s.queue _ _
      (Evolves-trans s.queue _ _ (promote_next-Evolves ch s distinct)
        (either (queue_depth_below_auto_fill_threshold ch (promote_next ch s).0)))
      (push_prefetch_buffer-Evolves env ch _)
  where
    either :
        (b : Bool)
        → StoreEvolves
            (promote_next ch s).0
            (if b then auto_fill env ch (promote_next ch s).0 else (promote_next ch s).0)
    either true = auto_fill-Evolves env ch (promote_next ch s).0
    either false = Evolves-refl (promote_next ch s).0.queue

finish_playing-Evolves : (ch : String) (s : Store) → StoreEvolves s (finish_playing ch s)
finish_playing-Evolves ch s = elim (Option-cases (first (playing_on ch) s.queue)) [
  | inl idle ↦ unfold finish_playing in rw (idle, finish_playing) (Evolves-refl s.queue)
  | inr (r, busy) ↦
      unfold finish_playing in rw (busy, finish_playing) (mark_played-Evolves r.id r.channel_id s)
]

stop_playing-Evolves : (ch : String) (s : Store) → StoreEvolves s (stop_playing ch s)
stop_playing-Evolves ch s = elim (Option-cases (first (playing_on ch) s.queue)) [
  | inl idle ↦ unfold stop_playing in rw (idle, stop_playing) (Evolves-refl s.queue)
  | inr (r, busy) ↦
      unfold stop_playing in rw (busy, stop_playing) (mark_played-Evolves r.id r.channel_id s)
]

-- From a sound store, and where new ids do not repeat, neither a track start nor a skip drops or
-- reorders a row, gives it another id, channel, source or position, or moves its status back:
-- queued, then playing, then played.
pub advancing-Evolves :
    (env : Env) (ch : String) (s : Store)
    → UuidsDiffer env
    → IsSound env s
    → StoreEvolves s (on_track_started env ch s).0 × StoreEvolves s (skip env ch s).0
unfolding on_track_started skip
advancing-Evolves env ch s differ w = (
  Evolves-trans s.queue _ _ (finish_playing-Evolves ch s) (
      advance-Evolves env ch (finish_playing ch s)
        (finish_playing-IsSound env differ ch s w).0.distinct),
  Evolves-trans s.queue _ _ (stop_playing-Evolves ch s) (
      advance-Evolves env ch (stop_playing ch s)
        (stop_playing-IsSound env differ ch s w).0.distinct),
)
