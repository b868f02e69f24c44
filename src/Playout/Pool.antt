-- ===== src/Playout/Pool.antt =====
-- The content pool of a channel and the scope it draws from: playout/pool-scope.ts,
-- playout/content-pool.ts and `poolContentScope` of editorial-config.ts, under
-- apps/api/src/services.
pub mod Assignment
use snc_platform.Prelude.{
  ℕ, suc, ◌+◌, String, Bool, true, false, Option, none, some, List, [], ◌∷◌, ◌++◌, ◌&&◌, ◌||◌, not,
  str_eq, if◌then◌else◌, length, map,
}
use snc_platform.Prelude.Table.{select, delete, first, any}
use snc_platform.Shared.{AppError, Result, ok, err, not_found_error, forbidden_error}
use snc_platform.Playout.Store.{
  PoolRow, Channel, Content, Store, Env, column_eq, is_some, channel_has_id,
}

pub data PoolScope : Type 0 where
  creator_scope : (creator_id : String) → PoolScope
  all_creators : PoolScope

unfoldable pub pool_content_scope : Channel → PoolScope
pool_content_scope c = elim c.creator_id [
  | none ↦ all_creators
  | some creator ↦ if str_eq c.ownership "creator" then creator_scope creator else all_creators
]

-- The scope comes from the channel's row; a missing channel fails.
unfoldable pub resolve_pool_scope : String → Store → Result PoolScope
unfolding pool_content_scope
resolve_pool_scope ch s = elim (first (channel_has_id ch) s.channels) [
  | none ↦ err (not_found_error "Channel not found")
  | some c ↦ ok (pool_content_scope c)
]

abbrev pub mem_text : List String → String → Bool
mem_text [] x = false
mem_text (y ∷ ys) x = str_eq y x || mem_text ys x

-- A nullable column IN a list.
abbrev pub column_in : Option String → List String → Bool
column_in none xs = false
column_in (some c) xs = mem_text xs c

abbrev pub owned_by : String → String → Content → Bool
owned_by creator x c = str_eq c.id x && (str_eq c.creator_id creator && not (is_some c.deleted_at))

-- The requested ids that are no live content of the creator.
unfoldable pub disallowed : String → List Content → List String → List String
disallowed creator contents ids = select (λ x. not (any (owned_by creator x) contents)) ids

abbrev pub shares : Option String → Option String → Bool
shares none b = false
shares (some a) b = column_eq b a

-- Two rows that a key or a unique index of `channel_content` keeps apart.
abbrev pub conflicts : PoolRow → PoolRow → Bool
conflicts a b =
    str_eq b.id a.id
    || (str_eq b.channel_id a.channel_id
        && (shares a.playout_item_id b.playout_item_id || shares a.content_id b.content_id))

-- INSERT … ON CONFLICT DO NOTHING
unfoldable pub insert_missing : List PoolRow → List PoolRow → List PoolRow
insert_missing table [] = table
insert_missing table (r ∷ rs) =
    insert_missing (if any (conflicts r) table then table else table ++ r ∷ []) rs

abbrev pub pool_row : Env → String → ℕ → Option String → Option String → PoolRow
pool_row env ch n p c = record {
  id = env.uuid n;
  channel_id = ch;
  playout_item_id = p;
  content_id = c;
  last_played_at = none;
  play_count = 0;
}

unfoldable pub playout_values : Env → String → ℕ → List String → List PoolRow
playout_values env ch n [] = []
playout_values env ch n (p ∷ ps) =
    pool_row env ch n (some p) none ∷ playout_values env ch (suc n) ps

unfoldable pub content_values : Env → String → ℕ → List String → List PoolRow
content_values env ch n [] = []
content_values env ch n (c ∷ cs) =
    pool_row env ch n none (some c) ∷ content_values env ch (suc n) cs

unfoldable pub reject_disallowed : List String → Result (Unit {0})
reject_disallowed [] = ok tt
reject_disallowed (x ∷ xs) =
    err (forbidden_error "One or more content items do not belong to this creator")

-- The guards of `assignContent` for the channel's scope.
unfoldable pub check_assignment :
    PoolScope → List Content → List String → List String → Result (Unit {0})
check_assignment all_creators contents playout_ids content_ids = ok tt
check_assignment (creator_scope creator) contents (p ∷ ps) content_ids =
    err (
      forbidden_error
        "Creator channels may not assign platform playout items to their content pool")
check_assignment (creator_scope creator) contents [] content_ids =
    reject_disallowed (disallowed creator contents content_ids)

abbrev pub assign_values : Env → String → List String → List String → Store → Store
assign_values env ch playout_ids content_ids s =
    let values =
      playout_values env ch s.ids_used playout_ids
      ++ content_values env ch (s.ids_used + length playout_ids) content_ids in
    record s {
      pool = insert_missing s.pool values;
      ids_used = s.ids_used + length playout_ids + length content_ids;
    }

-- After the check of the request.
unfoldable pub assign_checked :
    Env → String → List String → List String → Result (Unit {0}) → Store → Store × Result (Unit {0})
assign_checked env ch playout_ids content_ids (err e) s = (s, err e)
assign_checked env ch playout_ids content_ids (ok _) s =
    (assign_values env ch playout_ids content_ids s, ok tt)

-- After the lookup of the channel's scope.
unfoldable pub assign_scoped :
    Env → String → List String → List String → Result PoolScope → Store → Store × Result (Unit {0})
assign_scoped env ch playout_ids content_ids (err e) s = (s, err e)
assign_scoped env ch playout_ids content_ids (ok scope) s =
    assign_checked env ch playout_ids content_ids
      (check_assignment scope s.contents playout_ids content_ids) s

unfoldable pub assign_content :
    Env → String → List String → List String → Store → Store × Result (Unit {0})
assign_content env ch playout_ids content_ids s =
    assign_scoped env ch playout_ids content_ids (resolve_pool_scope ch s) s

unfoldable pub remove_playout_items : String → List String → List PoolRow → List PoolRow
remove_playout_items ch [] pool = pool
remove_playout_items ch (p ∷ ps) pool =
    delete (λ r. str_eq r.channel_id ch && column_in r.playout_item_id (p ∷ ps)) pool

unfoldable pub remove_contents : String → List String → List PoolRow → List PoolRow
remove_contents ch [] pool = pool
remove_contents ch (c ∷ cs) pool =
    delete (λ r. str_eq r.channel_id ch && column_in r.content_id (c ∷ cs)) pool

unfoldable pub remove_content :
    String → List String → List String → Store → Store × Result (Unit {0})
unfolding remove_playout_items remove_contents
remove_content ch playout_ids content_ids s = (
  record s { pool = remove_contents ch content_ids (remove_playout_items ch playout_ids s.pool) },
  ok tt,
)
