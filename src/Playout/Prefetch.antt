-- ===== src/Playout/Prefetch.antt =====
-- apps/api/src/services/playout/prefetch.ts and playout-utils.ts: the URI of a queue row, and the
-- push of the next rows to Liquidsoap.
pub mod Laws
use Prim.Native.String
use snc_platform.Prelude.{
  ℕ, suc, ◌+◌, String, Bool, true, false, Option, none, some, List, [], ◌∷◌, ◌&&◌, not, str_eq,
  if◌then◌else◌, take,
}
use snc_platform.Prelude.Table.{select, update, first, order_by}
use snc_platform.Playout.Store.{
  QueueRow, PlayoutItem, Content, Store, Env, has_id, live_on, by_position, truthy,
}

abbrev pub prefetch_depth : ℕ
prefetch_depth = 3

abbrev bucket : Env → String
bucket env = elim env.s3_bucket [ none ↦ "snc-storage" | some b ↦ b ]

infixl 60 ◌then_text◌
abbrev ◌then_text◌ : String → String → String
a then_text b = String.◌++◌ a b

abbrev pub s3_uri : Env → String → String
s3_uri env key = "s3://" then_text bucket env then_text "/" then_text key

-- The first key that is set and not empty.
unfoldable pub first_key : List (Option String) → Option String
first_key [] = none
first_key (k ∷ ks) = elim (truthy k) [ none ↦ first_key ks | some key ↦ some key ]

abbrev pub to_uri : Env → Option String → Option String
to_uri env none = none
to_uri env (some key) = some (s3_uri env key)

-- 1080p, then 720p, then 480p, then the source.
unfoldable pub select_playout_rendition_uri : Env → PlayoutItem → Option String
unfolding first_key
select_playout_rendition_uri env i = to_uri env (
    first_key
      (i.rendition_1080p_key ∷ i.rendition_720p_key ∷ i.rendition_480p_key ∷ i.source_key ∷ []))

abbrev or_else : Option String → Option String → Option String
or_else none b = b
or_else (some a) b = some a

unfoldable pub content_uri : Env → Content → Option String
content_uri env c = to_uri env (truthy (or_else c.transcoded_media_key c.media_key))

unfoldable pub resolve_content_uri : Env → Store → QueueRow → Option String
unfolding select_playout_rendition_uri content_uri
resolve_content_uri env s r = elim (truthy r.playout_item_id) [
  | some p ↦ elim (first (λ (i : PlayoutItem). str_eq i.id p) s.playout_items) [
    | none ↦ none
    | some i ↦ select_playout_rendition_uri env i
  ]
  | none ↦ elim (truthy r.content_id) [
    | none ↦ none
    | some x ↦ elim (first (λ (c : Content). str_eq c.id x) s.contents) [
      | none ↦ none
      | some c ↦ content_uri env c
    ]
  ]
]

abbrev pub unpushed_on : String → QueueRow → Bool
unpushed_on ch r = live_on ch r && not r.pushed_to_liquidsoap

abbrev pub with_pushed : Bool → QueueRow → QueueRow
with_pushed b r = record r { pushed_to_liquidsoap = b }

-- `client.pushTrack`, and the flag if Liquidsoap took the track.
unfoldable pub push_track : Env → String → String → String → Store → Store
push_track env ch entry_id uri s =
    if env.push_ok s.calls_used ch uri
    then record s {
      queue = update (has_id entry_id) (with_pushed true) s.queue;
      tracks = (ch, uri) ∷ s.tracks;
      calls_used = suc s.calls_used;
    }
    else record s { calls_used = suc s.calls_used }

unfoldable pub push_entry : Env → String → QueueRow → Store → Store
unfolding resolve_content_uri push_track
push_entry env ch r s = elim (truthy (resolve_content_uri env s r)) [
  | none ↦ s
  | some uri ↦ push_track env ch r.id uri s
]

unfoldable pub push_all : Env → String → List QueueRow → Store → Store
unfolding push_entry
push_all env ch [] s = s
push_all env ch (r ∷ rs) s = push_all env ch rs (push_entry env ch r s)

unfoldable pub unpushed : String → Store → List QueueRow
unfolding select order_by
unpushed ch s = take prefetch_depth (order_by by_position (select (unpushed_on ch) s.queue))

unfoldable pub push_prefetch_buffer : Env → String → Store → Store
unfolding push_all unpushed
push_prefetch_buffer env ch s = push_all env ch (unpushed ch s) s
