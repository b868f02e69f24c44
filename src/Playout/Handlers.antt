-- ===== src/Playout/Handlers.antt =====
-- apps/api/src/services/playout-orchestrator.ts: the calls that reach the playout services, and a
-- server's life as a sequence of them.
use snc_platform.Prelude.{ℕ, ◌+◌, String, Option, List, [], ◌∷◌}
use snc_platform.Playout.Store.{QueueSource, Store, Env}
use snc_platform.Playout.AutoFill.{auto_fill}
use snc_platform.Playout.Pool.{assign_content, remove_content}
use snc_platform.Playout.Control.{
  on_track_started, skip, insert_into_queue, remove_from_queue, initialize,
}

pub data Call : Type 0 where
  start : Call
  auto : (ch : String) → Call
  track_started : (ch : String) → Call
  skip_track : (ch : String) → Call
  insert : (ch : String) (source : QueueSource) (position : Option ℕ) → Call
  remove : (ch entry_id : String) → Call
  assign : (ch : String) (playout_ids content_ids : List String) → Call
  unassign : (ch : String) (playout_ids content_ids : List String) → Call
  elapse : (millis : ℕ) → Call  -- no call: the clock goes on

unfoldable pub call : Env → Call → Store → Store
call env start s = initialize env s
call env (auto ch) s = auto_fill env ch s
call env (track_started ch) s = (on_track_started env ch s).0
call env (skip_track ch) s = (skip env ch s).0
call env (insert ch x p) s = (insert_into_queue env ch x p s).0
call env (remove ch entry) s = (remove_from_queue ch entry s).0
call env (assign ch ps cs) s = (assign_content env ch ps cs s).0
call env (unassign ch ps cs) s = (remove_content ch ps cs s).0
call env (elapse millis) s = record s { now = s.now + millis }

unfoldable pub run : Env → List Call → Store → Store
run env [] s = s
run env (c ∷ cs) s = run env cs (call env c s)
