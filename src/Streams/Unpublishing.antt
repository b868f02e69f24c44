-- ===== src/Streams/Unpublishing.antt =====
-- What an unpublish does to the sessions.
use snc_platform.Prelude.{
  arith, ◌↔◌, str_eq_iff, ℕ, String, ◌≡◌, refl, sym, ap, ◌∙◌, subst, ◌⊎◌, inl, inr, true, false,
  none, some, List, [], ◌∷◌, str_eq, str_eq_refl, Bool-cases, Option-cases,
}
use snc_platform.Prelude.Table.{first, select, update, any, order_by}
use snc_platform.Prelude.Table.Laws.{any-of_mem, first-mem}
use snc_platform.Prelude.Maps.{str_eq_sym}
use snc_platform.Streams.{is_none}
use snc_platform.Streams.{carries}
use snc_platform.Streams.Callbacks.{ended_no_later, of_client}
use snc_platform.Streams.{
  StreamSession, LiveStore, StreamEnv, close_session, open_of, has_session_id, ended,
  deactivate_live_channel,
}
use snc_platform.Streams.Callbacks.{SrsCallback, handle_srs_on_unpublish, teardown_live_channel}
use snc_platform.Streams.Publishing.{is_none_lem}

deactivate_live_channel-sessions :
    (session : String) (s : LiveStore) → (deactivate_live_channel session s).sessions ≡ s.sessions
unfolding deactivate_live_channel
deactivate_live_channel-sessions session s =
    elim (Option-cases (first (carries session) s.channels)) [
      | inl e ↦ rw (e, deactivate_live_channel) refl
      | inr (c, e) ↦ rw (e, deactivate_live_channel) refl
    ]

teardown_live_channel-sessions :
    (client : String) (s : LiveStore) → (teardown_live_channel client s).sessions ≡ s.sessions
unfolding teardown_live_channel
teardown_live_channel-sessions client s =
    by_sessions (order_by ended_no_later (select (of_client client) s.sessions))
  where
    by_sessions :
        (xs : List StreamSession)
        → (elim xs as (λ _. LiveStore) [
          | [] ↦ s
          | x ∷ rest ↦ deactivate_live_channel x.id s
        ]).sessions
          ≡ s.sessions
    by_sessions [] = refl
    by_sessions (x ∷ rest) = deactivate_live_channel-sessions x.id s

abbrev pub HasDistinctSessions : List StreamSession → Type 0
HasDistinctSessions [] = Unit
HasDistinctSessions (x ∷ xs) = (any (has_session_id x.id) xs ≡ false) × HasDistinctSessions xs

update-none :
    (i : String) (t : ℕ) (xs : List StreamSession)
    → any (has_session_id i) xs ≡ false
    → update (has_session_id i) (ended t) xs ≡ xs
unfolding any update
update-none i t [] h = refl
update-none i t (x ∷ xs) h = elim (Bool-cases (has_session_id i x)) [
  | inl hit ↦ cc (h, hit)
  | inr miss ↦ rw miss (ap (λ z. x ∷ z) (update-none i t xs (rw miss at h)))
]

-- The session is of the client and still runs.
abbrev pub IsOpenOf : String → StreamSession → Type 0
IsOpenOf client x = (x.srs_client_id ≡ client) × (x.ended_at ≡ none)

open_of_iff : (client : String) (x : StreamSession) → (open_of client x ≡ true) ↔ IsOpenOf client x
open_of_iff client x = (
  λ e. (
    (str_eq_iff x.srs_client_id client).0 (ground (arith, e)),
    is_none_lem x.ended_at (ground (arith, e)),
  ),
  λ (own, running). rw ((str_eq_iff x.srs_client_id client).1 own) (ap is_none running),
)

-- Just the first open session of the client is ended.
abbrev pub Closes : String → ℕ → List StreamSession → List StreamSession → Type 0
Closes client t [] ys = ys ≡ []
Closes client t (x ∷ xs) ys =
    (IsOpenOf client x × (ys ≡ record x { ended_at = some t } ∷ xs))
    ⊎ ((¬ IsOpenOf client x)
        × ((rest : List StreamSession) × (ys ≡ x ∷ rest) × Closes client t xs rest))

not_open : (client : String) (x : StreamSession) → open_of client x ≡ false → ¬ IsOpenOf client x
not_open client x miss h = cc (miss, (open_of_iff client x).1 h)

Closes-none :
    (client : String) (t : ℕ) (xs : List StreamSession)
    → first (open_of client) xs ≡ none
    → Closes client t xs xs
unfolding first
Closes-none client t [] e = refl
Closes-none client t (x ∷ xs) e = elim (Bool-cases (open_of client x)) [
  | inl hit ↦ cc (rw hit at e)
  | inr miss ↦ inr (not_open client x miss, (xs, refl, Closes-none client t xs (rw miss at e)))
]

update-Closes :
    (client : String) (t : ℕ) (xs : List StreamSession) (x : StreamSession)
    → HasDistinctSessions xs
    → first (open_of client) xs ≡ some x
    → Closes client t xs (update (has_session_id x.id) (ended t) xs)
unfolding first update
update-Closes client t [] x d e = cc e
update-Closes client t (y ∷ ys) x (out, d) e = elim (Bool-cases (open_of client y)) [
  | inl hit ↦
      let is_some : some y ≡ some x = rw hit at e in
      let same : y ≡ x = cc is_some in
      subst
        (λ (z : StreamSession).
          Closes client t (y ∷ ys) (update (has_session_id z.id) (ended t) (y ∷ ys)))
        same
        (inl ((open_of_iff client y).0 hit, rw (str_eq_refl y.id, update-none y.id t ys out) refl))
  | inr miss ↦
      let later : first (open_of client) ys ≡ some x = rw miss at e in
      elim (Bool-cases (str_eq y.id x.id)) [
        | inl clash ↦
            let again =
              any-of_mem (has_session_id y.id) ys {r = x}
                (first-mem (open_of client) ys {r = x} later).0 (str_eq_sym x.id y.id ∙ clash) in
            cc (out, again)
        | inr apart ↦
            inr (not_open client y miss, (_, rw apart refl, update-Closes client t ys x d later))
      ]
]

close_session-Closes :
    (env : StreamEnv) (client : String) (payload : List (String × String)) (s : LiveStore)
    → HasDistinctSessions s.sessions
    → Closes client s.now s.sessions (close_session env client payload s).sessions
unfolding close_session
close_session-Closes env client payload s d =
    elim (Option-cases (first (open_of client) s.sessions)) [
      | inl e ↦ rw (e, close_session) (Closes-none client s.now s.sessions e)
      | inr (x, e) ↦ rw (e, close_session) (update-Closes client s.now s.sessions x d e)
    ]

-- An unpublish is answered 200 and ends the first open session of its client, if there is one, at the
-- present time; no other session changes, not even a second open session of that client.
-- The session ids are taken to be distinct.
pub handle_srs_on_unpublish-Closes :
    (env : StreamEnv) (b : SrsCallback) (s : LiveStore)
    → HasDistinctSessions s.sessions
    → ((handle_srs_on_unpublish env b s).0 ≡ 200)
      × Closes b.client_id s.now s.sessions (handle_srs_on_unpublish env b s).1.sessions
unfolding handle_srs_on_unpublish
handle_srs_on_unpublish-Closes env b s d = (
  refl,
  subst (Closes b.client_id s.now s.sessions) (sym (teardown_live_channel-sessions b.client_id _))
      (close_session-Closes env b.client_id _ s d),
)
