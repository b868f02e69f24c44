-- ===== src/Streams/Publishing.antt =====
-- Who may publish, and what a publish does to the sessions.
use snc_platform.Prelude.{
  arith, ◌&&◌, ◌==◌, ◌≢◌, ◌↔◌, str_eq_iff, ℕ, ◌+◌, String, ◌≡◌, refl, ap, ◌∙◌, subst, ◌⊎◌, inl, inr,
  Bool, true, false, Option, none, some, List, [], ◌∷◌, ◌++◌, str_eq, if◌then◌else◌, Bool-cases,
  Option-cases, All,
}
use snc_platform.Prelude.Table.{first, any}
use mathlib.Core.List.{Memᴰ}
use snc_platform.Prelude.Table.Order.{All-mono}
use snc_platform.Prelude.Table.Laws.{first-mem, first-none-All}
use snc_platform.Streams.{is_none}
use snc_platform.Streams.{
  StreamKey, StreamSession, LiveStore, StreamEnv, is_active_key, lookup_creator_by_key_hash,
  open_session, new_session, activate_live_channel, Activation, name_taken, new_channel,
  set_channels, is_live_ingest_of,
}
use snc_platform.Streams.Callbacks.{
  SrsCallback, has_profile_id, extract_stream_key, is_blank, is_playout_key, same_key, opening_of,
  go_live, publish_param, handle_srs_on_publish, ensure_live_channel_with_chat,
}

activate_live_channel-sessions :
    (env : StreamEnv) (a : Activation) (s : LiveStore)
    → (activate_live_channel env a s).sessions ≡ s.sessions
unfolding activate_live_channel
activate_live_channel-sessions env a s =
    elim (Option-cases (first (is_live_ingest_of a.creator_id) s.channels)) [
      | inl e ↦
          rw (e, activate_live_channel)
            (by_test (any (name_taken (env.uuid s.ids_used) a.srs_stream_name) s.channels))
      | inr (c, e) ↦
          rw (e, activate_live_channel)
            (elim (Bool-cases (any (name_taken c.id a.srs_stream_name) s.channels)) [
              | inl taken ↦ rw taken refl
              | inr free ↦ rw free refl
            ])
    ]
  where
    by_test :
        (b : Bool)
        → (if b
            then record s { ids_used = s.ids_used + 1 }
            else set_channels
                (s.channels ++ new_channel (env.uuid s.ids_used) a ∷ [])
                (env.uuid s.ids_used)
                true
                (record s { ids_used = s.ids_used + 1 })).sessions
          ≡ s.sessions
    by_test true = refl
    by_test false = refl

ensure_live_channel_with_chat-sessions :
    (env : StreamEnv) (creator session stream : String) (s : LiveStore)
    → (ensure_live_channel_with_chat env creator session stream s).sessions ≡ s.sessions
unfolding ensure_live_channel_with_chat
ensure_live_channel_with_chat-sessions env creator session stream s =
    elim (Option-cases (first (has_profile_id creator) s.profiles)) [
      | inl e ↦ rw (e, ensure_live_channel_with_chat) refl
      | inr (p, e) ↦ rw (e, ensure_live_channel_with_chat) (activate_live_channel-sessions env _ s)
    ]

go_live-sessions :
    (env : StreamEnv) (k : StreamKey) (b : SrsCallback) (s : LiveStore)
    → (go_live env k b s).sessions ≡ s.sessions ++ new_session env (opening_of k b) s ∷ []
unfolding go_live open_session
go_live-sessions env k b s =
    ensure_live_channel_with_chat-sessions env k.creator_id (new_session env (opening_of k b) s).id
      b.stream (open_session env (opening_of k b) s).0

pub is_none_lem : (o : Option ℕ) → is_none o ≡ true → o ≡ none
is_none_lem none e = refl
is_none_lem (some t) e = cc e

is_active_key_lem :
    (hash : String) (k : StreamKey)
    → is_active_key hash k ≡ true
    → (k.key_hash ≡ hash) × (k.revoked_at ≡ none)
is_active_key_lem hash k e = (
  (str_eq_iff k.key_hash hash).0 (left (str_eq k.key_hash hash) (is_none k.revoked_at) e),
  is_none_lem k.revoked_at (right (str_eq k.key_hash hash) (is_none k.revoked_at) e),
)
  where
    left : (a b : Bool) → (a && b) ≡ true → a ≡ true
    left a b h = ground (arith, h)

    right : (a b : Bool) → (a && b) ≡ true → b ≡ true
    right a b h = ground (arith, h)

is_active_key_iff :
    (hash : String) (k : StreamKey)
    → (is_active_key hash k ≡ true) ↔ ((k.key_hash ≡ hash) × (k.revoked_at ≡ none))
is_active_key_iff hash k = (
  is_active_key_lem hash k,
  λ (hashed, unrevoked). rw ((str_eq_iff k.key_hash hash).1 hashed) (ap is_none unrevoked),
)

same_key_iff : (xs ys : List ℕ) → (same_key xs ys ≡ true) ↔ (xs ≡ ys)
same_key_iff xs ys = (to xs ys, λ e. subst (λ zs. same_key xs zs ≡ true) e (same xs))
  where
    head_eq : (x y : ℕ) (b : Bool) → (x == y && b) ≡ true → x ≡ y
    head_eq x y b h = ground (arith, h)

    tail_eq : (x y : ℕ) (b : Bool) → (x == y && b) ≡ true → b ≡ true
    tail_eq x y b h = ground (arith, h)

    to : (xs ys : List ℕ) → same_key xs ys ≡ true → xs ≡ ys
    to [] [] e = refl
    to [] (y ∷ ys) e = cc e
    to (x ∷ xs) [] e = cc e
    to (x ∷ xs) (y ∷ ys) e =
        let here : x ≡ y = head_eq x y (same_key xs ys) e in
        ap (λ z. z ∷ xs) here ∙ ap (λ zs. y ∷ zs) (to xs ys (tail_eq x y (same_key xs ys) e))

    same : (xs : List ℕ) → same_key xs xs ≡ true
    same [] = refl
    same (x ∷ xs) = rw (same xs) (ground arith)

is_blank_lem : (xs : List ℕ) → is_blank xs ≡ true → xs ≡ []
is_blank_lem [] e = refl
is_blank_lem (x ∷ xs) e = cc e

-- The key is that of the playout engine, and there is one.
abbrev pub IsPlayout : StreamEnv → Option (List ℕ) → Type 0
IsPlayout env none = ⊥
IsPlayout env (some raw) = (env.playout_stream_key ≡ raw) × (raw ≢ [])

is_playout_key_iff :
    (env : StreamEnv) (raw : List ℕ) → (is_playout_key env raw ≡ true) ↔ IsPlayout env (some raw)
is_playout_key_iff env raw = (to, from)
  where
    to : is_playout_key env raw ≡ true → IsPlayout env (some raw)
    to e = (
      (same_key_iff env.playout_stream_key raw).0 (ground (arith, e)),
      λ (h : raw ≡ []).
          let there : is_blank raw ≡ false = ground (arith, e) in cc (there, ap is_blank h),
    )

    not_blank : (xs : List ℕ) → xs ≢ [] → is_blank xs ≡ false
    not_blank [] h = absurd (h refl)
    not_blank (x ∷ xs) h = refl

    from : IsPlayout env (some raw) → is_playout_key env raw ≡ true
    from (same, there) =
        rw
          (
            (same_key_iff env.playout_stream_key raw).1 same,
            not_blank raw there,
            ap is_blank same ∙ not_blank raw there,
          )
          refl

-- There is no key, or it is not the playout engine's and is empty or has the hash of no stream key
-- but revoked ones.
abbrev pub IsRefused : StreamEnv → LiveStore → Option (List ℕ) → Type 0
IsRefused env s none = Unit
IsRefused env s (some raw) =
    (¬ IsPlayout env (some raw))
    × ((raw ≡ []) ⊎ All (λ k. (k.key_hash ≡ env.sha256 raw) → (k.revoked_at ≢ none)) s.keys)

-- The session of a creator's key: of that creator and key, for the client and stream of the
-- callback, running since now.
abbrev pub IsSessionOf : StreamKey → SrsCallback → ℕ → StreamSession → Type 0
IsSessionOf k b now x =
    (x.creator_id ≡ k.creator_id)
    × (x.stream_key_id ≡ k.id)
    × (x.srs_client_id ≡ b.client_id)
    × (x.srs_stream_name ≡ b.stream)
    × (x.started_at ≡ now)
    × (x.ended_at ≡ none)

-- A creator's key that has not been revoked, and the session that it opens.
abbrev pub IsPublished : StreamEnv → SrsCallback → LiveStore → LiveStore → Option (List ℕ) → Type 0
IsPublished env b s s' none = ⊥
IsPublished env b s s' (some raw) =
    (k : StreamKey) × Memᴰ k s.keys
    × (k.key_hash ≡ env.sha256 raw)
    × (k.revoked_at ≡ none)
    × ((x : StreamSession) × (s'.sessions ≡ s.sessions ++ x ∷ []) × IsSessionOf k b s.now x)

-- A stream is refused with 403, and nothing changes, when its key is missing or empty, or is not the
-- playout key and each stream key with its hash has been revoked. Otherwise the answer is 200: the
-- playout key changes nothing, and a creator's key that has not been revoked adds one session, open
-- and started now, with the creator and the id of that key and the client and stream of the callback.
pub handle_srs_on_publish-cases :
    (env : StreamEnv) (b : SrsCallback) (s : LiveStore)
    → ((handle_srs_on_publish env b s ≡ (403, s)) × IsRefused env s (extract_stream_key b.param))
      ⊎ (((handle_srs_on_publish env b s ≡ (200, s)) × IsPlayout env (extract_stream_key b.param))
          ⊎ (((handle_srs_on_publish env b s).0 ≡ 200)
              × IsPublished env b s (handle_srs_on_publish env b s).1 (extract_stream_key b.param)))
unfolding handle_srs_on_publish
handle_srs_on_publish-cases env b s = by_param (extract_stream_key b.param)
  where
    by_param :
        (o : Option (List ℕ))
        → ((publish_param env b o s ≡ (403, s)) × IsRefused env s o)
          ⊎ (((publish_param env b o s ≡ (200, s)) × IsPlayout env o)
              ⊎ (((publish_param env b o s).0 ≡ 200)
                  × IsPublished env b s (publish_param env b o s).1 o))
    by_param none = inl (refl, tt)
    by_param (some raw) = elim (Bool-cases (is_playout_key env raw)) [
      | inl playout ↦ inr (inl (rw playout refl, (is_playout_key_iff env raw).0 playout))
      | inr other ↦
          let not_playout : ¬ IsPlayout env (some raw) =
            λ h. cc (other, (is_playout_key_iff env raw).1 h) in
          elim (Bool-cases (is_blank raw)) [
            | inl blank ↦ inl (rw (other, blank) refl, (not_playout, inl (is_blank_lem raw blank)))
            | inr there ↦ elim (Option-cases (lookup_creator_by_key_hash (env.sha256 raw) s)) [
              | inl e ↦ inl (
                rw (other, there, e) refl,
                (
                  not_playout,
                  inr (
                      All-mono _ _ s.keys
                        (λ k off hashed unrevoked.
                          cc (off, (is_active_key_iff (env.sha256 raw) k).1 (hashed, unrevoked)))
                        (first-none-All (is_active_key (env.sha256 raw)) s.keys e)),
                ),
              )
              | inr (k, e) ↦
                  let (m, active) = first-mem (is_active_key (env.sha256 raw)) s.keys {r = k} e in
                  let (hashed, unrevoked) = is_active_key_lem (env.sha256 raw) k active in
                  inr (
                    inr (
                      rw (other, there, e) refl,
                      (
                        k,
                        m,
                        hashed,
                        unrevoked,
                        (
                          new_session env (opening_of k b) s,
                          rw (other, there, e) (go_live-sessions env k b s),
                          (refl, refl, refl, refl, refl, refl),
                        ),
                      ),
                    ))
            ]
          ]
    ]
