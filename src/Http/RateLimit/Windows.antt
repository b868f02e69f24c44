-- ===== src/Http/RateLimit/Windows.antt =====
-- How many requests pass in a window, and when the next window opens.
use snc_platform.Prelude.{
  ℕ, suc, ◌-◌, ◌≤◌, ◌<◌, String, ◌≡◌, refl, sym, subst, ◌⊎◌, inl, inr, Bool, true, false, not, ◌&&◌,
  Option, none, some, List, [], ◌∷◌, ltb, leb, str_eq, str_eq_iff, if◌then◌else◌, Bool-cases, arith,
}
use snc_platform.Prelude.Table.{select}
use snc_platform.Prelude.Maps.{lookup, has_key, HasDistinctKeys, lookup-none}
use snc_platform.Http.RateLimit.{
  ClientRecord, Limiter, RateLimitOptions, alive, cleanup, Decision, passed, limited, open_window,
  decide, address, rate_limiter,
}

abbrev pub Arrival : Type 0
Arrival = Option String × ℕ

abbrev pub is_passed : Decision → Bool
is_passed passed = true
is_passed (limited w) = false

-- How many requests of the address pass, of the requests in order.
unfoldable pub passes : RateLimitOptions → String → List Arrival → Limiter → ℕ
passes o ip [] s = 0
passes o ip ((client, now) ∷ qs) s =
    let step = rate_limiter o client now s in
    let rest = passes o ip qs step.1 in
    if is_passed step.0 && str_eq (address client) ip then suc rest else rest

-- The next request of the address at that time opens a window.
abbrev pub IsFresh : String → ℕ → Limiter → Type 0
IsFresh ip now s =
    (lookup ip s.clients ≡ none)
    ⊎ ((r : ClientRecord) × (lookup ip s.clients ≡ some r) × (r.reset_at ≤ now))

has_key-select :
    (now : ℕ) (k : String) (m : List (String × ClientRecord))
    → has_key k m ≡ false
    → has_key k (select (alive now) m) ≡ false
unfolding select
has_key-select now k [] h = refl
has_key-select now k ((x, r) ∷ m) h = ground (arith, h, has_key-select now k m)

lookup-select-alive :
    (now : ℕ) (k : String) (m : List (String × ClientRecord)) (r : ClientRecord)
    → lookup k m ≡ some r
    → now < r.reset_at
    → lookup k (select (alive now) m) ≡ some r
unfolding lookup select
lookup-select-alive now k [] r e h = cc e
lookup-select-alive now k ((x, q) ∷ m) r e h = elim (Bool-cases (str_eq x k)) [
  | inl same ↦
      let q_is_r : some q ≡ some r = rw same at e in
      let record_eq : q ≡ r = cc q_is_r in
      rw
        (
          still now q.reset_at (subst (λ (z : ClientRecord). now < z.reset_at) (sym record_eq) h),
          same,
        )
        q_is_r
  | inr other ↦
      let later : lookup k m ≡ some r = rw other at e in
      elim (Bool-cases (alive now (x, q))) [
        | inl kept ↦ rw (kept, other) (lookup-select-alive now k m r later h)
        | inr dropped ↦ rw dropped (lookup-select-alive now k m r later h)
      ]
]
  where
    still : (n m : ℕ) → n < m → not (leb m n) ≡ true
    still n m h = ground (arith, h)

pub cleanup-alive :
    (now : ℕ) (k : String) (s : Limiter) (r : ClientRecord)
    → lookup k s.clients ≡ some r
    → now < r.reset_at
    → lookup k (cleanup now s).clients ≡ some r
unfolding cleanup
cleanup-alive now k s r e h = elim (Bool-cases (ltb (now - s.last_cleanup) 60000)) [
  | inl early ↦ rw early e
  | inr late ↦ rw late (lookup-select-alive now k s.clients r e h)
]

lookup-select_fresh :
    (now : ℕ) (k : String) (m : List (String × ClientRecord))
    → HasDistinctKeys m
    → (lookup k m ≡ none) ⊎ ((r : ClientRecord) × (lookup k m ≡ some r) × (r.reset_at ≤ now))
    → lookup k (select (alive now) m) ≡ none
unfolding lookup select
lookup-select_fresh now k [] d f = refl
lookup-select_fresh now k ((x, q) ∷ m) (out, d) f = elim (Bool-cases (str_eq x k)) [
  | inl same ↦ rw (expired f same) (
      lookup-none k (select (alive now) m)
        (has_key-select now k m (subst (λ z. has_key z m ≡ false) ((str_eq_iff x k).0 same) out)))
  | inr other ↦
      let rest = lookup-select_fresh now k m d (rw other at f) in
      elim (Bool-cases (alive now (x, q))) [
        | inl kept ↦ rw (kept, other) rest
        | inr dropped ↦ rw dropped rest
      ]
]
  where
    past : (n m : ℕ) → m ≤ n → not (leb m n) ≡ false
    past n m h = ground (arith, h)

    expired :
        (lookup k ((x, q) ∷ m) ≡ none)
          ⊎ ((r : ClientRecord) × (lookup k ((x, q) ∷ m) ≡ some r) × (r.reset_at ≤ now))
        → str_eq x k ≡ true
        → alive now (x, q) ≡ false
    expired (inl e) same = cc (rw same at e)
    expired (inr (r, e, old)) same =
        let q_is_r : some q ≡ some r = rw same at e in
        let record_eq : q ≡ r = cc q_is_r in
        past now q.reset_at (subst (λ (z : ClientRecord). z.reset_at ≤ now) (sym record_eq) old)

select-HasDistinctKeys :
    (now : ℕ) (m : List (String × ClientRecord))
    → HasDistinctKeys m
    → HasDistinctKeys (select (alive now) m)
unfolding select
select-HasDistinctKeys now [] d = tt
select-HasDistinctKeys now ((x, q) ∷ m) (out, d) = elim (Bool-cases (alive now (x, q))) [
  | inl kept ↦ rw kept (has_key-select now x m out, select-HasDistinctKeys now m d)
  | inr dropped ↦ rw dropped (select-HasDistinctKeys now m d)
]

pub cleanup-HasDistinctKeys :
    (now : ℕ) (s : Limiter) → HasDistinctKeys s.clients → HasDistinctKeys (cleanup now s).clients
unfolding cleanup
cleanup-HasDistinctKeys now s d = elim (Bool-cases (ltb (now - s.last_cleanup) 60000)) [
  | inl early ↦ rw early d
  | inr late ↦ rw late (select-HasDistinctKeys now s.clients d)
]

pub cleanup-IsFresh :
    (now : ℕ) (ip : String) (s : Limiter)
    → HasDistinctKeys s.clients
    → IsFresh ip now s
    → IsFresh ip now (cleanup now s)
unfolding cleanup
cleanup-IsFresh now ip s d f = elim (Bool-cases (ltb (now - s.last_cleanup) 60000)) [
  | inl early ↦ rw early f
  | inr late ↦ rw late (inl (lookup-select_fresh now ip s.clients d f))
]

pub rate_limiter-fresh :
    (o : RateLimitOptions) (client : Option String) (now : ℕ) (s : Limiter)
    → HasDistinctKeys s.clients
    → IsFresh (address client) now s
    → rate_limiter o client now s ≡ open_window o (address client) now (cleanup now s)
unfolding rate_limiter
rate_limiter-fresh o client now s d f = by_entry (cleanup-IsFresh now (address client) s d f)
  where
    by_entry :
        IsFresh (address client) now (cleanup now s)
        → decide o (address client) now (cleanup now s)
          ≡ open_window o (address client) now (cleanup now s)
    by_entry (inl e) = rw (decide, e) refl
    by_entry (inr (r, e, old)) = rw (decide, e, old_leb r.reset_at now old) refl
      where
        old_leb : (m n : ℕ) → m ≤ n → leb m n ≡ true
        old_leb m n h = ground (arith, h)
