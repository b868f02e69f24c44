-- ===== src/Playout/Control/Insertion.antt =====
-- Inserting into a channel's queue.
use snc_platform.Prelude.{ℕ, String, ◌≡◌, ◌⊎◌, true, Option, none, some}
use snc_platform.Prelude.Table.{any}
use snc_platform.Shared.{AppError, Result, ok, err}
use snc_platform.Playout.Store.{queued, QueueSource, Store, Env}
use snc_platform.Playout.Pool.{all_creators, resolve_pool_scope}
use snc_platform.Playout.Transitions.{enqueue}
use snc_platform.Playout.Prefetch.Laws.{unflagged}
use snc_platform.Playout.Status.{QueueEntry}
use snc_platform.Playout.Control.{in_pool}

-- The position is the one asked for, if one was.
abbrev pub IsAt : Option ℕ → ℕ → Type 0
IsAt none n = Unit
IsAt (some p) n = n ≡ p

-- The source is in the channel's pool, or the channel plays everybody's pool.
abbrev pub IsPooled : String → QueueSource → Store → Type 0
IsPooled ch x s = (any (in_pool ch x) s.pool ≡ true) ⊎ (resolve_pool_scope ch s ≡ ok all_creators)

-- What a successful insertion did: an entry of the source was enqueued, at the wanted position if
-- one was given, and the rows are those of `enqueue` but for their flags; on a creator's channel
-- the source was in the pool.
pub record IsInserted (env : Env) (ch : String) (x : QueueSource) (position : Option ℕ)
    (s t : Store) (entry : QueueEntry) : Type 0 where
  pub rows : unflagged t.queue ≡ unflagged (enqueue env ch x position s).0.queue
  pub id : entry.id ≡ env.uuid s.ids_used
  pub channel : entry.channel_id ≡ ch
  pub status : entry.status ≡ queued
  pub place : IsAt position entry.position
  pub scoped : IsPooled ch x s

-- An insertion fails and changes nothing, or it inserts.
abbrev pub Inserts :
    Env → String → QueueSource → Option ℕ → Store → Store × Result QueueEntry → Type 0
Inserts env ch x position s out =
    (out.0 ≡ s) × ((e : AppError) × (out.1 ≡ err e))
    ⊎ ((entry : QueueEntry) × (out.1 ≡ ok entry) × IsInserted env ch x position s out.0 entry)
