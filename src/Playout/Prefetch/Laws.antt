-- ===== src/Playout/Prefetch/Laws.antt =====
-- What the push to Liquidsoap changes: the flags of at most three rows.
use snc_platform.Prelude.{
  suc, ◌+◌, ◌≤◌, String, ◌≡◌, refl, ap, ◌∙◌, inl, inr, true, false, Option, none, some, List, [],
  ◌∷◌, arith, Bool-cases, length, length-take,
}
use snc_platform.Prelude.Table.{select, update, order_by}
use snc_platform.Playout.Store.{QueueRow, Store, Env, has_id, truthy, by_position}
use snc_platform.Playout.Prefetch.{
  push_track, push_entry, push_all, push_prefetch_buffer, resolve_content_uri, with_pushed,
  unpushed, unpushed_on, prefetch_depth,
}

module _ {ℓ} (P : Store → Type ℓ) (env : Env) (ch : String) where
  -- What every push keeps, the whole buffer keeps.
  pub push_all-keeps :
      (rs : List QueueRow) (s : Store)
      → ((x uri : String) (t : Store) → P t → P (push_track env ch x uri t))
      → P s
      → P (push_all env ch rs s)
  unfolding push_all push_entry
  push_all-keeps [] s step h = h
  push_all-keeps (r ∷ rs) s step h =
      push_all-keeps rs (push_entry env ch r s) step (one (truthy (resolve_content_uri env s r)))
    where
      one : (o : Option String) → P (elim o [ none ↦ s | some uri ↦ push_track env ch r.id uri s ])
      one none = h
      one (some uri) = step r.id uri s h

  pub push_prefetch_buffer-keeps :
      (s : Store)
      → ((x uri : String) (t : Store) → P t → P (push_track env ch x uri t))
      → P s
      → P (push_prefetch_buffer env ch s)
  unfolding push_prefetch_buffer
  push_prefetch_buffer-keeps s step h = push_all-keeps (unpushed ch s) s step h

-- Everything of a row but the flag.
abbrev pub unflagged : List QueueRow → List QueueRow
unflagged [] = []
unflagged (r ∷ rs) = with_pushed false r ∷ unflagged rs

unflagged-update :
    (x : String) (q : List QueueRow)
    → unflagged (update (has_id x) (with_pushed true) q) ≡ unflagged q
unfolding update
unflagged-update x [] = refl
unflagged-update x (r ∷ rs) = elim (Bool-cases (has_id x r)) [
  | inl hit ↦ rw hit (ap (λ q. with_pushed false r ∷ q) (unflagged-update x rs))
  | inr miss ↦ rw miss (ap (λ q. with_pushed false r ∷ q) (unflagged-update x rs))
]

unflagged-push_track :
    (env : Env) (ch x uri : String) (s : Store)
    → unflagged (push_track env ch x uri s).queue ≡ unflagged s.queue
unfolding push_track
unflagged-push_track env ch x uri s = elim (Bool-cases (env.push_ok s.calls_used ch uri)) [
  | inl good ↦ rw good (unflagged-update x s.queue)
  | inr bad ↦ rw bad
]

length-tracks_push_track :
    (env : Env) (ch x uri : String) (s : Store)
    → length (push_track env ch x uri s).tracks ≤ suc (length s.tracks)
unfolding push_track
length-tracks_push_track env ch x uri s = ground arith

length-tracks_push_all :
    (env : Env) (ch : String) (rs : List QueueRow) (s : Store)
    → length (push_all env ch rs s).tracks ≤ length s.tracks + length rs
unfolding push_all push_entry
length-tracks_push_all env ch [] s = omega arith
length-tracks_push_all env ch (r ∷ rs) s = omega (
  arith,
  one (truthy (resolve_content_uri env s r)),
  length-tracks_push_all env ch rs (push_entry env ch r s),
)
  where
    one :
        (o : Option String)
        → length
            (let t : Store = elim o [ none ↦ s | some uri ↦ push_track env ch r.id uri s ] in
              t).tracks
          ≤ suc (length s.tracks)
    one none = omega arith
    one (some uri) = length-tracks_push_track env ch r.id uri s

-- A push changes no queue row but for its flag, and hands Liquidsoap three tracks at most.
pub push_prefetch_buffer-bounded :
    (env : Env) (ch : String) (s : Store)
    → (unflagged (push_prefetch_buffer env ch s).queue ≡ unflagged s.queue)
      × (length (push_prefetch_buffer env ch s).tracks ≤ length s.tracks + 3)
unfolding push_prefetch_buffer unpushed
push_prefetch_buffer-bounded env ch s = (
  push_all-keeps (λ t. unflagged t.queue ≡ unflagged s.queue) env ch (unpushed ch s) s
      (λ x uri t h. unflagged-push_track env ch x uri t ∙ h) refl,
  omega (
    arith,
    length-tracks_push_all env ch (unpushed ch s) s,
    length-take prefetch_depth (order_by by_position (select (unpushed_on ch) s.queue)),
  ),
)
