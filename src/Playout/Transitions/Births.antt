-- ===== src/Playout/Transitions/Births.antt =====
-- New queue rows: fresh ids, one source, queued, and where they stand.
use native.Mathlib.Nat.{add-zero}
use snc_platform.Prelude.{
  ℕ, suc, ◌+◌, ◌≤◌, ◌<◌, String, ◌≡◌, refl, sym, ap, ◌⊎◌, inl, inr, true, false, Option, List, [],
  ◌∷◌, ◌++◌, arith, str_eq, str_eq_iff, Bool-cases, length, All, append-nil,
}
use snc_platform.Prelude.Table.{any}
use snc_platform.Prelude.Table.Laws.{any-append}
use snc_platform.Events.{ChangeType}
use snc_platform.Playout.Store.{
  queued, QueueSource, playout_source, content_source, QueueRow, Store, Env, has_id, is_some,
}
use snc_platform.Playout.Rows.{HasDistinctIds}
use snc_platform.Playout.Transitions.{
  enqueue, enqueue_batch, batch_rows, new_row, make_room, next_position,
}
use snc_platform.Playout.Transitions.Playing.{publish_creator_editorial_change-eq}

-- `num_nonnulls(playout_item_id, content_id) = 1`
abbrev pub HasOneSource : QueueRow → Type 0
HasOneSource r =
    ((is_some r.playout_item_id ≡ true) × (is_some r.content_id ≡ false))
    ⊎ ((is_some r.playout_item_id ≡ false) × (is_some r.content_id ≡ true))

-- What is true of each row that a birth adds on a channel.
pub record IsNewborn (ch : String) (r : QueueRow) : Type 0 where
  pub channel : r.channel_id ≡ ch
  pub status : r.status ≡ queued
  pub unpushed : r.pushed_to_liquidsoap ≡ false
  pub one_source : HasOneSource r

pub new_row-IsNewborn :
    (env : Env) (n created : ℕ) (ch : String) (x : QueueSource) (p : ℕ)
    → IsNewborn ch (new_row env n created ch x p)
new_row-IsNewborn env n created ch (playout_source i) p = ground arith
new_row-IsNewborn env n created ch (content_source c) p = ground arith

pub batch_rows-IsNewborn :
    (env : Env) (ch : String) (created n p : ℕ) (xs : List QueueSource)
    → All (IsNewborn ch) (batch_rows env ch created n p xs)
unfolding batch_rows
batch_rows-IsNewborn env ch created n p [] = tt
batch_rows-IsNewborn env ch created n p (x ∷ xs) =
    (new_row-IsNewborn env n created ch x p, batch_rows-IsNewborn env ch created (suc n) (p + 1) xs)

pub length-batch_rows :
    (env : Env) (ch : String) (created n p : ℕ) (xs : List QueueSource)
    → length (batch_rows env ch created n p xs) ≡ length xs
unfolding batch_rows
length-batch_rows env ch created n p [] = refl
length-batch_rows env ch created n p (x ∷ xs) =
    ap suc (length-batch_rows env ch created (suc n) (p + 1) xs)

pub enqueue-eq :
    (env : Env) (ch : String) (x : QueueSource) (position : Option ℕ) (s : Store)
    → (enqueue env ch x position s).0 ≡ record s {
      queue = (make_room ch position s.queue).0 ++ (enqueue env ch x position s).1 ∷ [];
      ids_used = suc s.ids_used;
      events = (enqueue env ch x position s).0.events;
    }
unfolding enqueue
enqueue-eq env ch x position s = publish_creator_editorial_change-eq ch ChangeType.queue _

pub enqueue_batch-eq :
    (env : Env) (ch : String) (xs : List QueueSource) (s : Store)
    → (enqueue_batch env ch xs s).0 ≡ record s {
      queue = s.queue ++ batch_rows env ch s.now s.ids_used (next_position ch s.queue) xs;
      ids_used = s.ids_used + length xs;
      events = (enqueue_batch env ch xs s).0.events;
    }
unfolding enqueue_batch batch_rows
enqueue_batch-eq env ch [] s = λ i. record s {
  queue = sym (append-nil s.queue) i;
  ids_used = sym (add-zero s.ids_used) i;
  events = s.events;
}
enqueue_batch-eq env ch (x ∷ xs) s = publish_creator_editorial_change-eq ch ChangeType.queue _

-- The ids that are not used yet are in no row.
abbrev pub HasFreshIds : Env → ℕ → List QueueRow → Type 0
HasFreshIds env n q = (k : ℕ) → n ≤ k → any (has_id (env.uuid k)) q ≡ false

-- `randomUUID()` does not repeat.
abbrev pub UuidsDiffer : Env → Type 0
UuidsDiffer env = (i j : ℕ) → env.uuid i ≡ env.uuid j → i ≡ j

module _ (env : Env) (differ : UuidsDiffer env) where
  uuid_ne : (i j : ℕ) → i < j → str_eq (env.uuid i) (env.uuid j) ≡ false
  uuid_ne i j h = elim (Bool-cases (str_eq (env.uuid i) (env.uuid j))) [
    | inl hit ↦ absurd (omega (arith, differ i j ((str_eq_iff _ _).0 hit)))
    | inr miss ↦ miss
  ]

  -- A batch uses the ids from n on, and leaves those after it.
  batch_rows-later :
      (ch : String) (created n p k : ℕ) (xs : List QueueSource)
      → n + length xs ≤ k
      → any (has_id (env.uuid k)) (batch_rows env ch created n p xs) ≡ false
  unfolding batch_rows any
  batch_rows-later ch created n p k [] h = refl
  batch_rows-later ch created n p k (x ∷ xs) h = ground (
    arith,
    uuid_ne n k (omega arith),
    batch_rows-later ch created (suc n) (p + 1) k xs (omega arith),
  )

  batch_rows-earlier :
      (ch : String) (created n p k : ℕ) (xs : List QueueSource)
      → k < n
      → any (has_id (env.uuid k)) (batch_rows env ch created n p xs) ≡ false
  unfolding batch_rows any
  batch_rows-earlier ch created n p k [] h = refl
  batch_rows-earlier ch created n p k (x ∷ xs) h = ground (
    arith,
    uuid_ne k n h,
    str_eq_iff (env.uuid k) (env.uuid n),
    str_eq_iff (env.uuid n) (env.uuid k),
    batch_rows-earlier ch created (suc n) (p + 1) k xs (omega arith),
  )

  pub batch_rows-HasDistinctIds :
      (ch : String) (created n p : ℕ) (xs : List QueueSource)
      → HasDistinctIds (batch_rows env ch created n p xs)
  unfolding batch_rows
  batch_rows-HasDistinctIds ch created n p [] = tt
  batch_rows-HasDistinctIds ch created n p (x ∷ xs) = (
    batch_rows-earlier ch created (suc n) (p + 1) n xs (omega arith),
    batch_rows-HasDistinctIds ch created (suc n) (p + 1) xs,
  )

  pub batch_rows-absent :
      (ch : String) (created n p : ℕ) (q : List QueueRow) (xs : List QueueSource)
      → HasFreshIds env n q
      → All (λ r. any (has_id r.id) q ≡ false) (batch_rows env ch created n p xs)
  unfolding batch_rows
  batch_rows-absent ch created n p q [] h = tt
  batch_rows-absent ch created n p q (x ∷ xs) h = (
    h n (omega arith),
    batch_rows-absent ch created (suc n) (p + 1) q xs (λ k le. h k (omega arith)),
  )

  pub batch-HasFreshIds :
      (ch : String) (created n p : ℕ) (q : List QueueRow) (xs : List QueueSource)
      → HasFreshIds env n q
      → HasFreshIds env (n + length xs) (q ++ batch_rows env ch created n p xs)
  batch-HasFreshIds ch created n p q xs h k le =
      rw (any-append (has_id (env.uuid k)) q (batch_rows env ch created n p xs))
        (rw (h k (omega arith)) (batch_rows-later ch created n p k xs le))
