-- ===== src/Playout/Transitions/Positions.antt =====
-- Where a new row stands in its channel's order.
use snc_platform.Prelude.{
  ℕ, ◌≤◌, ◌<◌, String, ◌≡◌, refl, ap, ◌∙◌, ◌≢◌, ◌↔◌, true, none, some, List, [], ◌∷◌, ◌++◌, map,
  arith, leb, str_eq, Bool, false, ◌&&◌, ◌+◌, sym, if◌then◌else◌, All,
}
use snc_platform.Prelude.Table.{select, update}
use snc_platform.Prelude.Table.Order.{All-mono}
use snc_platform.Playout.Store.{
  queued, playing, played, QueueStatus, QueueSource, QueueRow, Store, Env, queued_on, live_on,
  is_queued,
}
use snc_platform.Playout.Transitions.{
  enqueue, make_room, next_position, max_position, at_or_after, shift,
}
use snc_platform.Playout.Transitions.Births.{enqueue-eq}

max_position-All : (q : List QueueRow) → All (λ r. r.position ≤ max_position q) q
unfolding max_position
max_position-All [] = tt
max_position-All (r ∷ rs) =
    (omega arith, All-mono _ _ rs (λ x h. omega arith) (max_position-All rs))

-- The end of the queue is behind every live row of the channel.
pub live-lt-next_position :
    (ch : String) (q : List QueueRow)
    → All (λ r. r.position < next_position ch q) (select (live_on ch) q)
unfolding next_position
live-lt-next_position ch q =
    All-mono _ _ (select (live_on ch) q) (λ r h. omega arith)
      (max_position-All (select (live_on ch) q))

-- A row that is appended stands behind every live row of its channel.
pub enqueue_at_end :
    (env : Env) (ch : String) (x : QueueSource) (s : Store)
    → All (λ r. r.position < (enqueue env ch x none s).1.position) (select (live_on ch) s.queue)
unfolding enqueue make_room
enqueue_at_end env ch x s = live-lt-next_position ch s.queue

-- A row after room was made at a position: a queued row of the channel that stood there or behind
-- stands one further back, and any other row is as it was.
abbrev pub moved : String → ℕ → QueueRow → QueueRow
moved ch p r = elim r.status [
  | queued ↦
      if str_eq r.channel_id ch && leb p r.position
      then record r { position = r.position + 1 }
      else r
  | playing ↦ r
  | played ↦ r
]

moved_eq :
    (ch : String) (p : ℕ) (r : QueueRow)
    → (if at_or_after ch p r then shift r else r) ≡ moved ch p r
moved_eq ch p r = by_status (str_eq r.channel_id ch) (leb p r.position) r.status
  where
    by_status :
        (own behind : Bool) (st : QueueStatus)
        → (if own && is_queued st && behind then shift r else r) ≡ elim st [
          | queued ↦ if own && behind then record r { position = r.position + 1 } else r
          | playing ↦ r
          | played ↦ r
        ]
    by_status true behind queued = refl
    by_status false behind queued = refl
    by_status true behind playing = refl
    by_status false behind playing = refl
    by_status true behind played = refl
    by_status false behind played = refl

moved-position :
    (ch : String) (p : ℕ) (r : QueueRow)
    → queued_on ch r ≡ true
    → (moved ch p r).position ≡ (if leb p r.position then r.position + 1 else r.position)
moved-position ch p r own =
    ap (λ (z : QueueRow). z.position) (sym (moved_eq ch p r)) ∙ by_test (leb p r.position)
  where
    by_test :
        (b : Bool)
        → (if queued_on ch r && b then shift r else r).position
          ≡ (if b then r.position + 1 else r.position)
    by_test true = rw own refl
    by_test false = rw own refl

positions-KeepsOrder :
    (p a b m n : ℕ)
    → m ≡ (if leb p a then a + 1 else a)
    → n ≡ (if leb p b then b + 1 else b)
    → ((a < b) ↔ (m < n)) × ((a < p) ↔ (m < p)) × (m ≢ p)
positions-KeepsOrder p a b m n e f = ground arith

update-eq_moved :
    (ch : String) (p : ℕ) (q : List QueueRow)
    → update (at_or_after ch p) shift q ≡ map (moved ch p) q
unfolding update
update-eq_moved ch p [] = refl
update-eq_moved ch p (r ∷ rs) =
    ap (λ t. t ∷ update (at_or_after ch p) shift rs) (moved_eq ch p r)
    ∙ ap (λ t. moved ch p r ∷ t) (update-eq_moved ch p rs)

-- Two queued rows of the channel keep their order, and the position is free between them.
abbrev pub KeepsOrder : String → ℕ → QueueRow → QueueRow → Type 0
KeepsOrder ch p a b =
    ((a.position < b.position) ↔ ((moved ch p a).position < (moved ch p b).position))
    × ((a.position < p) ↔ ((moved ch p a).position < p))
    × ((moved ch p a).position ≢ p)

-- An insertion at a position moves the queued rows of the channel that stood there or behind by one
-- and leaves the others: any two queued rows of the channel keep their order, and the new row is a
-- queued row of the channel that stands alone at its position among them.
pub enqueue_at_position :
    (env : Env) (ch : String) (x : QueueSource) (p : ℕ) (s : Store) (a b : QueueRow)
    → queued_on ch a ≡ true
    → queued_on ch b ≡ true
    → ((enqueue env ch x (some p) s).0.queue
        ≡ map (moved ch p) s.queue ++ (enqueue env ch x (some p) s).1 ∷ [])
      × ((enqueue env ch x (some p) s).1.position ≡ p)
      × ((enqueue env ch x (some p) s).1.channel_id ≡ ch)
      × ((enqueue env ch x (some p) s).1.status ≡ queued)
      × KeepsOrder ch p a b
unfolding enqueue make_room
enqueue_at_position env ch x p s a b ha hb = (
  ap (λ (z : Store). z.queue) (enqueue-eq env ch x (some p) s)
      ∙ ap (λ q. q ++ (enqueue env ch x (some p) s).1 ∷ []) (update-eq_moved ch p s.queue),
  refl,
  refl,
  refl,
  positions-KeepsOrder p a.position b.position _ _ (moved-position ch p a ha)
      (moved-position ch p b hb),
)
