-- ===== src/Playout/Invariant/Steps.antt =====
-- The invariant of the queue, and each single statement's effect on it.
use snc_platform.Prelude.{
  ℕ, ◌+◌, ◌≤◌, String, ◌≡◌, refl, sym, ◌∙◌, subst, inl, inr, Bool, true, false, List, [], ◌∷◌, ◌++◌,
  arith, Bool-cases, length, All, All-append,
}
use snc_platform.Prelude.Table.{update, delete}
use snc_platform.Prelude.Table.Laws.{
  All-delete, count_where-update, count_where-append, count_where-All-false, count_where-delete,
  any-update, any-delete,
}
use snc_platform.Prelude.Table.Order.{All-mono}
use snc_platform.Playout.Store.{played, QueueSource, QueueRow, Env, has_id, playing_on}
use snc_platform.Playout.Rows.{
  HasDistinctIds, update-HasDistinctIds, delete-HasDistinctIds, append-HasDistinctIds,
}
use snc_platform.Playout.Transitions.{with_status, batch_rows}
use snc_platform.Playout.Transitions.Playing.{OnePlaying, count_playing-played}
use snc_platform.Playout.Transitions.Births.{
  HasOneSource, HasFreshIds, UuidsDiffer, IsNewborn, batch_rows-IsNewborn,
  batch_rows-HasDistinctIds, batch_rows-absent, batch-HasFreshIds,
}

-- The invariant, over the number of ids used and the rows of the queue.
pub record IsWellFormed (env : Env) (n : ℕ) (q : List QueueRow) : Type 0 where
  pub distinct : HasDistinctIds q
  pub fresh : HasFreshIds env n q
  pub one_source : All HasOneSource q
  pub one_playing : OnePlaying q

All-update {κ} :
    (P : QueueRow → Type κ) (p : QueueRow → Bool) (f : QueueRow → QueueRow) (q : List QueueRow)
    → ((r : QueueRow) → P r → P (f r))
    → All P q
    → All P (update p f q)
unfolding update
All-update P p f [] k h = tt
All-update P p f (r ∷ rs) k h = elim (Bool-cases (p r)) [
  | inl hit ↦ rw hit (k r h.0, All-update P p f rs k h.1)
  | inr miss ↦ rw miss (h.0, All-update P p f rs k h.1)
]

-- A row change that keeps the id and the two sources.
pub record KeepsIdentity (f : QueueRow → QueueRow) : Type 0 where
  pub id : (r : QueueRow) → (f r).id ≡ r.id
  pub source : (r : QueueRow) → HasOneSource r → HasOneSource (f r)

module _ (env : Env) (n : ℕ) (q : List QueueRow) (w : IsWellFormed env n q) where
  -- An update that keeps identities, and lets at most one row of a channel play.
  pub update-IsWellFormed :
      (p : QueueRow → Bool) (f : QueueRow → QueueRow)
      → KeepsIdentity f
      → OnePlaying (update p f q)
      → IsWellFormed env n (update p f q)
  update-IsWellFormed p f k one = record {
    distinct = update-HasDistinctIds p f q k.id w.distinct;
    fresh = λ i h. any-update (has_id (env.uuid i)) p f q (λ r. rw (k.id r)) ∙ w.fresh i h;
    one_source = All-update HasOneSource p f q k.source w.one_source;
    one_playing = one;
  }

  -- An update that leaves channels and statuses alone keeps the count too.
  pub update_quiet-IsWellFormed :
      (p : QueueRow → Bool) (f : QueueRow → QueueRow)
      → KeepsIdentity f
      → ((c : String) (r : QueueRow) → playing_on c (f r) ≡ playing_on c r)
      → IsWellFormed env n (update p f q)
  update_quiet-IsWellFormed p f k quiet = update-IsWellFormed p f k (λ c.
      subst (λ m. m ≤ 1) (sym (count_where-update (playing_on c) p f q (quiet_all c q)))
        (w.one_playing c))
    where
      quiet_all :
          (c : String) (rs : List QueueRow)
          → All (λ r. p r ≡ true → playing_on c (f r) ≡ playing_on c r) rs
      quiet_all c [] = tt
      quiet_all c (r ∷ rs) = (λ _. quiet c r, quiet_all c rs)

  pub played-IsWellFormed :
      (x : String) → IsWellFormed env n (update (has_id x) (with_status played) q)
  played-IsWellFormed x =
      update-IsWellFormed (has_id x) (with_status played)
        (record { id = λ r. refl; source = λ r h. h })
        (λ c. omega (arith, count_playing-played c x q, w.one_playing c))

  pub delete-IsWellFormed : (p : QueueRow → Bool) → IsWellFormed env n (delete p q)
  delete-IsWellFormed p = record {
    distinct = delete-HasDistinctIds p q w.distinct;
    fresh = λ i h. any-delete (has_id (env.uuid i)) p q (w.fresh i h);
    one_source = All-delete HasOneSource p q w.one_source;
    one_playing = λ c. omega (arith, count_where-delete (playing_on c) p q, w.one_playing c);
  }

  -- A batch of newborn rows.
  pub batch-IsWellFormed :
      (ch : String) (created p : ℕ) (xs : List QueueSource)
      → UuidsDiffer env
      → IsWellFormed env (n + length xs) (q ++ batch_rows env ch created n p xs)
  batch-IsWellFormed ch created p xs differ =
      let rows = batch_rows env ch created n p xs in
      let born = batch_rows-IsNewborn env ch created n p xs in
      record {
        distinct =
            append-HasDistinctIds q rows w.distinct
              (batch_rows-HasDistinctIds env differ ch created n p xs)
              (batch_rows-absent env differ ch created n p q xs w.fresh);
        fresh = batch-HasFreshIds env differ ch created n p q xs w.fresh;
        one_source =
            All-append HasOneSource q rows w.one_source
              (All-mono (IsNewborn ch) HasOneSource rows (λ r b. b.one_source) born);
        one_playing = λ c. omega (
          arith,
          count_where-append (playing_on c) q rows,
          count_where-All-false (playing_on c) rows (
              All-mono (IsNewborn ch) (λ r. playing_on c r ≡ false) rows (λ r b. not_playing c r b)
                born),
          w.one_playing c,
        );
      }
    where
      not_playing : (c : String) (r : QueueRow) → IsNewborn ch r → playing_on c r ≡ false
      not_playing c r b = rw b.status (ground arith)
