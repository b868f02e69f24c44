-- ===== src/Playout/AutoFill/Laws.antt =====
-- What auto-fill adds to the queue: how much, and from where.
use mathlib.Core.List.{Memᴰ}
use native.Mathlib.Nat.{add-zero}
use snc_platform.Prelude.{
  ℕ, suc, ◌+◌, ◌-◌, String, ◌≡◌, sym, ap, ◌∙◌, inl, inr, true, false, none, some, List, [], ◌∷◌,
  ◌++◌, map, arith, str_eq_iff, str_eq_refl, leb, if◌then◌else◌, Bool-cases, Option-cases, length,
  All, append-nil, length-take, min, length-map,
}
use snc_platform.Prelude.Table.{count_where, any, order_by}
use snc_platform.Prelude.Table.Laws.{count_where-append, count_where-All, any-true_mem}
use snc_platform.Prelude.Table.Order.{All-mono, All-take, All-order_by, All-self, length-order_by}
use snc_platform.Shared.{Result, ok, err}
use snc_platform.Playout.Store.{
  QueueSource, content_source, QueueRow, PoolRow, Content, Store, Env, live_on,
}
use snc_platform.Playout.Transitions.{batch_rows, next_position}
use snc_platform.Playout.Transitions.Births.{
  IsNewborn, batch_rows-IsNewborn, length-batch_rows, enqueue_batch-eq,
}
use snc_platform.Playout.Pool.{PoolScope, creator_scope, resolve_pool_scope}
use snc_platform.Playout.AutoFill.{
  Candidate, candidate_source, candidates, chosen, fill, auto_fill, depth, before, auto_fill_batch,
  auto_fill_threshold, content_arm, content_ok, is_playable_content, queued_content,
}

-- The sources that auto-fill enqueues.
unfoldable pub filled : Env → String → Store → List QueueSource
unfolding resolve_pool_scope
filled env ch s =
    if leb auto_fill_threshold (depth ch s) then [] else elim (resolve_pool_scope ch s) [
      | err _ ↦ []
      | ok scope ↦ map candidate_source (chosen env scope ch (auto_fill_batch - depth ch s) s)
    ]

-- The queue after auto-fill is the queue before it, and a batch of the filled sources.
pub auto_fill-queue :
    (env : Env) (ch : String) (s : Store)
    → ((auto_fill env ch s).queue
        ≡ s.queue
          ++ batch_rows env ch s.now s.ids_used (next_position ch s.queue) (filled env ch s))
      × ((auto_fill env ch s).ids_used ≡ s.ids_used + length (filled env ch s))
unfolding auto_fill filled batch_rows
auto_fill-queue env ch s = elim (Bool-cases (leb auto_fill_threshold (depth ch s))) [
  | inl full ↦ rw full (sym (append-nil s.queue), sym (add-zero s.ids_used))
  | inr short ↦ rw short (by_scope (resolve_pool_scope ch s))
]
  where
    by_scope :
        (x : Result PoolScope)
        → let t : Store = elim x [ err _ ↦ s | ok scope ↦ fill env ch scope s ] in
          let xs : List QueueSource = elim x [
            | err _ ↦ []
            | ok scope ↦ map candidate_source (chosen env scope ch (auto_fill_batch - depth ch s) s)
          ] in
          (t.queue ≡ s.queue ++ batch_rows env ch s.now s.ids_used (next_position ch s.queue) xs)
          × (t.ids_used ≡ s.ids_used + length xs)
    by_scope (err e) = (sym (append-nil s.queue), sym (add-zero s.ids_used))
    by_scope (ok scope) =
        let e =
          enqueue_batch-eq env ch
            (map candidate_source (chosen env scope ch (auto_fill_batch - depth ch s) s))
            (record s { draws_used = suc s.draws_used }) in
        (ap (λ (z : Store). z.queue) e, ap (λ (z : Store). z.ids_used) e)

-- How many candidates the pool has for the channel.
abbrev pub candidates_of : Env → String → Store → Result PoolScope → ℕ
candidates_of env ch s (err e) = 0
candidates_of env ch s (ok scope) = length (candidates env scope ch s)

length-filled :
    (env : Env) (ch : String) (s : Store)
    → length (filled env ch s) ≡ (
        if leb auto_fill_threshold (depth ch s)
        then 0
        else min (auto_fill_batch - depth ch s) (candidates_of env ch s (resolve_pool_scope ch s)))
unfolding filled chosen
length-filled env ch s = elim (Bool-cases (leb auto_fill_threshold (depth ch s))) [
  | inl full ↦ rw full
  | inr short ↦ rw short (by_scope (resolve_pool_scope ch s))
]
  where
    by_scope :
        (x : Result PoolScope)
        → let xs : List QueueSource = elim x [
          | err _ ↦ []
          | ok scope ↦ map candidate_source (chosen env scope ch (auto_fill_batch - depth ch s) s)
        ] in
          length xs ≡ min (auto_fill_batch - depth ch s) (candidates_of env ch s x)
    by_scope (err e) = omega arith
    by_scope (ok scope) =
        length-map candidate_source (chosen env scope ch (auto_fill_batch - depth ch s) s)
        ∙ length-take (auto_fill_batch - depth ch s) (order_by before (candidates env scope ch s))
        ∙ ap (min (auto_fill_batch - depth ch s))
            (length-order_by before (candidates env scope ch s))

newborn-live_on : (ch : String) (r : QueueRow) → IsNewborn ch r → live_on ch r ≡ true
newborn-live_on ch r b = rw (b.channel, b.status) (rw (str_eq_refl ch))

-- With at least five live rows auto-fill adds none; with fewer it adds the eligible candidates up
-- to ten live rows in all.
pub depth-auto_fill :
    (env : Env) (ch : String) (s : Store)
    → depth ch (auto_fill env ch s)
      ≡ depth ch s
        + (if leb auto_fill_threshold (depth ch s)
            then 0
            else min
                (auto_fill_batch - depth ch s)
                (candidates_of env ch s (resolve_pool_scope ch s)))
depth-auto_fill env ch s =
    let rows = batch_rows env ch s.now s.ids_used (next_position ch s.queue) (filled env ch s) in
    let live : All (λ r. live_on ch r ≡ true) rows =
      All-mono (IsNewborn ch) _ rows (newborn-live_on ch) (
        batch_rows-IsNewborn env ch s.now s.ids_used (next_position ch s.queue)
          (filled env ch s)) in
    ap (count_where (live_on ch)) (auto_fill-queue env ch s).0
    ∙ count_where-append (live_on ch) s.queue rows
    ∙ ap (λ n. depth ch s + n)
        (count_where-All (live_on ch) rows live
          ∙ length-batch_rows env ch s.now s.ids_used (next_position ch s.queue) (filled env ch s)
          ∙ length-filled env ch s)

-- A content piece that a creator's channel may enqueue: pooled on the channel, a live video of the
-- creator, and in no live row of the channel.
pub record IsOwnPick (ch creator : String) (s : Store) (x : QueueSource) : Type 0 where
  pub row : PoolRow
  pub piece : Content
  pub pooled : Memᴰ row s.pool
  pub on_this : row.channel_id ≡ ch
  pub drawn : row.content_id ≡ some piece.id
  pub stored : Memᴰ piece s.contents
  pub owned : piece.creator_id ≡ creator
  pub kept : piece.deleted_at ≡ none
  pub video : piece.type ≡ "video"
  pub source : x ≡ content_source piece.id
  pub absent : any (queued_content ch piece.id) s.queue ≡ false

own_pick :
    (ch creator c : String) (s : Store) (r : PoolRow)
    → Memᴰ r s.pool
    → r.content_id ≡ some c
    → content_ok (creator_scope creator) ch s r (some c) ≡ true
    → IsOwnPick ch creator s (content_source c)
own_pick ch creator c s r m drawn good =
    let (piece, stored, fits) =
      any-true_mem (is_playable_content (creator_scope creator) c) s.contents (ground arith) in
    let same : piece.id ≡ c = (str_eq_iff piece.id c).0 (ground arith) in
    record {
      row = r;
      piece = piece;
      pooled = m;
      on_this = (str_eq_iff r.channel_id ch).0 (ground arith);
      drawn = rw same drawn;
      stored = stored;
      owned = (str_eq_iff piece.creator_id creator).0 (ground arith);
      kept = ground arith;
      video = (str_eq_iff piece.type "video").0 (ground arith);
      source = ap content_source (sym same);
      absent = rw same (ground arith);
    }

content_arm-IsOwnPick :
    (env : Env) (ch creator : String) (s : Store) (rs : List PoolRow)
    → All (λ r. Memᴰ r s.pool) rs
    → All (λ c. IsOwnPick ch creator s c.source) (content_arm env (creator_scope creator) ch s rs)
unfolding content_arm
content_arm-IsOwnPick env ch creator s [] h = tt
content_arm-IsOwnPick env ch creator s (r ∷ rs) h = elim (Option-cases r.content_id) [
  | inl empty ↦ rw empty (content_arm-IsOwnPick env ch creator s rs h.1)
  | inr (c, drawn) ↦ elim (Bool-cases (content_ok (creator_scope creator) ch s r (some c))) [
    | inl good ↦
        rw (drawn, good)
          (own_pick ch creator c s r h.0 drawn good, content_arm-IsOwnPick env ch creator s rs h.1)
    | inr bad ↦ rw (drawn, bad) (content_arm-IsOwnPick env ch creator s rs h.1)
  ]
]

map_sources :
    (P : QueueSource → Type 0) (cs : List Candidate)
    → All (λ (c : Candidate). P c.source) cs
    → All P (map candidate_source cs)
map_sources P [] h = tt
map_sources P (c ∷ cs) h = (h.0, map_sources P cs h.1)

filled-IsOwnPick :
    (env : Env) (ch creator : String) (s : Store)
    → resolve_pool_scope ch s ≡ ok (creator_scope creator)
    → All (IsOwnPick ch creator s) (filled env ch s)
unfolding filled chosen candidates
filled-IsOwnPick env ch creator s e = elim (Bool-cases (leb auto_fill_threshold (depth ch s))) [
  | inl full ↦ rw full tt
  | inr short ↦
      rw (short, e)
        (map_sources (IsOwnPick ch creator s) _ (
          All-take _ (auto_fill_batch - depth ch s) _ (
            All-order_by _ before _
              (content_arm-IsOwnPick env ch creator s s.pool (All-self s.pool)))))
]

-- On a creator's channel auto-fill appends to the queue a batch of sources, all of them the
-- creator's own live videos from the channel's pool, none of which a live row of it has.
pub auto_fill-IsOwnPick :
    (env : Env) (ch creator : String) (s : Store)
    → resolve_pool_scope ch s ≡ ok (creator_scope creator)
    → ((auto_fill env ch s).queue
        ≡ s.queue
          ++ batch_rows env ch s.now s.ids_used (next_position ch s.queue) (filled env ch s))
      × All (IsOwnPick ch creator s) (filled env ch s)
auto_fill-IsOwnPick env ch creator s e =
    ((auto_fill-queue env ch s).0, filled-IsOwnPick env ch creator s e)
