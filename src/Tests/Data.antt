-- ===== src/Tests/Data.antt =====
-- Concrete tables: a creator's channel with two pooled videos, and an admin channel.
use Prim.Native.String
use text.Mathlib.TextLemmas.{length-append}
use snc_platform.Prelude.{
  ℕ, zero, suc, String, ◌≡◌, refl, sym, ap, ◌∙◌, true, false, none, some, [], ◌∷◌, arith,
}
use snc_platform.Playout.Store.{
  QueueStatus, queued, playing, QueueRow, PoolRow, Channel, Content, Store, Env,
}
use snc_platform.Playout.Transitions.Births.{UuidsDiffer}

-- The n-th id: n marks.
unfoldable pub marks : ℕ → String
marks zero = ""
marks (suc n) = String.◌++◌ "x" (marks n)

count-marks : (n : ℕ) → String.count (marks n) ≡ n
unfolding marks
count-marks zero = refl
count-marks (suc n) = length-append "x" (marks n) ∙ omega (arith, count-marks n)

abbrev pub env : Env
env = record {
  uuid = marks;
  random = λ n x. n;
  push_ok = λ n ch uri. true;
  s3_bucket = some "media";
  test_control_profile = "";
}

pub env-UuidsDiffer : UuidsDiffer env
env-UuidsDiffer i j e = sym (count-marks i) ∙ ap String.count e ∙ count-marks j

abbrev video : String → Content
video x = record {
  id = x;
  creator_id = "band";
  type = "video";
  title = x;
  duration = none;
  deleted_at = none;
  processing_status = some "ready";
  media_key = some "raw";
  transcoded_media_key = some "done";
}

abbrev pooled : String → String → PoolRow
pooled x content = record {
  id = x;
  channel_id = "tv";
  playout_item_id = none;
  content_id = some content;
  last_played_at = none;
  play_count = 0;
}

abbrev pub channel : Channel
channel = record {
  id = "tv";
  name = "Band TV";
  ownership = "creator";
  creator_id = some "band";
  role = "playout";
  is_active = true;
}

abbrev admin_channel : Channel
admin_channel = record {
  id = "main";
  name = "Main";
  ownership = "admin";
  creator_id = none;
  role = "playout";
  is_active = true;
}

-- An empty queue.
abbrev pub empty_store : Store
empty_store = record {
  queue = [];
  pool = pooled "p1" "song" ∷ pooled "p2" "film" ∷ [];
  channels = channel ∷ admin_channel ∷ [];
  playout_items = [];
  contents = video "song" ∷ video "film" ∷ [];
  now = 1000;
  events = [];
  tracks = [];
  ids_used = 0;
  draws_used = 0;
  calls_used = 0;
}

abbrev pub row : String → QueueStatus → ℕ → QueueRow
row x st n = record {
  id = x;
  channel_id = "tv";
  playout_item_id = none;
  content_id = some "song";
  position = n;
  status = st;
  pushed_to_liquidsoap = false;
  created_at = 900;
}

-- One entry plays, two wait.
abbrev pub busy_store : Store
busy_store = record empty_store {
  queue = row "r1" playing 1 ∷ row "r2" queued 3 ∷ row "r3" queued 2 ∷ [];
}
