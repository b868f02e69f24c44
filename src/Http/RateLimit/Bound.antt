-- ===== src/Http/RateLimit/Bound.antt =====
-- The bound on the requests of a window, and the end of the wait that is advised.
use snc_platform.Prelude.{
  ℕ, suc, ◌+◌, ◌-◌, ◌*◌, ◌/◌, ◌≤◌, ◌<◌, String, ◌≡◌, refl, sym, ap, ◌∙◌, subst, inl, inr, Bool,
  true, false, ◌&&◌, Option, none, some, List, [], ◌∷◌, ltb, leb, str_eq, str_eq_iff, str_eq_refl,
  if◌then◌else◌, max, All, Bool-cases, arith,
}
use snc_platform.Prelude.Maps.{lookup, put, HasDistinctKeys, lookup-put, put-HasDistinctKeys}
use snc_platform.Http.RateLimit.{
  ClientRecord, Limiter, RateLimitOptions, cleanup, passed, limited, count_request, decide, decided,
  address, rate_limiter,
}
use snc_platform.Http.RateLimit.Windows.{
  Arrival, passes, is_passed, IsFresh, cleanup-alive, rate_limiter-fresh, cleanup-HasDistinctKeys,
}

counted :
    (o : RateLimitOptions) (client : Option String) (now : ℕ) (s : Limiter) (r : ClientRecord)
    → lookup (address client) s.clients ≡ some r
    → now < r.reset_at
    → rate_limiter o client now s ≡ count_request o (address client) now r (cleanup now s)
unfolding rate_limiter
counted o client now s r e h =
    rw (decide, cleanup-alive now (address client) s r e h, later now r.reset_at h) refl
  where
    later : (n m : ℕ) → n < m → leb m n ≡ false
    later n m h = ground (arith, h)

put-other :
    (k ip : String) (v r : ClientRecord) (m : List (String × ClientRecord))
    → str_eq k ip ≡ false
    → lookup ip m ≡ some r
    → lookup ip (put k v m) ≡ some r
put-other k ip v r m other e = lookup-put k v m ip ∙ rw other e

-- A request of another address leaves the record alone.
other-keeps :
    (o : RateLimitOptions) (client : Option String) (now : ℕ) (s : Limiter) (ip : String)
    (r : ClientRecord)
    → str_eq (address client) ip ≡ false
    → lookup ip s.clients ≡ some r
    → now < r.reset_at
    → lookup ip (rate_limiter o client now s).1.clients ≡ some r
unfolding rate_limiter
other-keeps o client now s ip r other e h =
    by_entry (lookup (address client) (cleanup now s).clients)
  where
    here : lookup ip (cleanup now s).clients ≡ some r
    here = cleanup-alive now ip s r e h

    by_entry :
        (entry : Option ClientRecord)
        → lookup ip (decided o (address client) now (cleanup now s) entry).1.clients ≡ some r
    by_entry none = put-other (address client) ip _ r (cleanup now s).clients other here
    by_entry (some q) = elim (Bool-cases (leb q.reset_at now)) [
      | inl old ↦ rw old (put-other (address client) ip _ r (cleanup now s).clients other here)
      | inr young ↦ rw young (put-other (address client) ip _ r (cleanup now s).clients other here)
    ]

-- As long as the window lasts, as many requests pass as are left of it.
passes-left :
    (o : RateLimitOptions) (ip : String) (qs : List Arrival) (s : Limiter) (r : ClientRecord)
    → lookup ip s.clients ≡ some r
    → All (λ (q : Arrival). q.1 < r.reset_at) qs
    → passes o ip qs s ≤ o.max_requests - r.count
unfolding passes
passes-left o ip [] s r e h = omega arith
passes-left o ip ((client, now) ∷ qs) s r e (h, hs) =
    elim (Bool-cases (str_eq (address client) ip)) [
      | inr other ↦ rw other (
          drop_test (is_passed (rate_limiter o client now s).0) _ _ (
            passes-left o ip qs (rate_limiter o client now s).1 r
              (other-keeps o client now s ip r other e h) hs))
      | inl same ↦
          let at_ip : lookup (address client) s.clients ≡ some r =
            subst (λ z. lookup z s.clients ≡ some r) (sym ((str_eq_iff (address client) ip).0 same))
              e in
          rw (same, counted o client now s r at_ip h)
            (spent o.max_requests r.count _ _ (
              passes-left o ip qs _ (record r { count = suc r.count })
                (lookup-put (address client) _ (cleanup now s).clients ip ∙ rw same refl) hs))
    ]
  where
    drop_test : (b : Bool) (n m : ℕ) → n ≤ m → (if b && false then suc n else n) ≤ m
    drop_test b n m h = ground (arith, h)

    spent :
        (m c w n : ℕ)
        → n ≤ m - suc c
        → (if is_passed (if ltb m (suc c) then limited w else passed) && true then suc n else n)
          ≤ m - c
    spent m c w n h = elim (Bool-cases (ltb m (suc c))) [
      | inl over ↦ rw over (omega (arith, h))
      | inr under ↦ rw under (ground (arith, h, under))
    ]

-- From a request that opens a window on, at most as many requests of its address pass while the
-- window lasts as the limit says, or one where the limit is 0; requests of other addresses in between
-- make no difference.
pub passes-bounded :
    (o : RateLimitOptions) (client : Option String) (start : ℕ) (qs : List Arrival) (s : Limiter)
    → HasDistinctKeys s.clients
    → IsFresh (address client) start s
    → All (λ (q : Arrival). q.1 < start + o.window_ms) qs
    → passes o (address client) ((client, start) ∷ qs) s ≤ max 1 o.max_requests
unfolding passes
passes-bounded o client start qs s d fresh h =
    rw (rate_limiter-fresh o client start s d fresh, str_eq_refl (address client))
      (one_more o.max_requests _ (
        passes-left o (address client) qs _ (record { count = 1; reset_at = start + o.window_ms })
          (lookup-put (address client) _ (cleanup start s).clients (address client)
            ∙ rw (str_eq_refl (address client)) refl)
          h))
  where
    one_more : (m n : ℕ) → n ≤ m - 1 → suc n ≤ max 1 m
    one_more m n h = omega (arith, h)

-- A request that is refused is told how many seconds to wait: a next one of its address after them
-- passes.
pub limited-passed :
    (o : RateLimitOptions) (client : Option String) (now later wait : ℕ) (s : Limiter)
    → HasDistinctKeys s.clients
    → (rate_limiter o client now s).0 ≡ limited wait
    → now + 1000 * wait ≤ later
    → (rate_limiter o client later (rate_limiter o client now s).1).0 ≡ passed
unfolding rate_limiter
limited-passed o client now later wait s d refused waited =
    by_entry (lookup (address client) (cleanup now s).clients) refused
  where
    reached : (r n w l : ℕ) → (r - n + 999) / 1000 ≡ w → n + 1000 * w ≤ l → r ≤ l
    reached r n w l e h = omega (arith, e, h)

    advised : (b : Bool) (k : ℕ) → (if b then limited k else passed) ≡ limited wait → k ≡ wait
    advised true k e = cc e
    advised false k e = cc e

    after :
        (r : ClientRecord)
        → r.reset_at ≤ later
        → (rate_limiter o client later (count_request o (address client) now r (cleanup now s)).1).0
          ≡ passed
    after r old =
        ap (λ x. x.0)
          (rate_limiter-fresh o client later _
            (put-HasDistinctKeys (address client) _ (cleanup now s).clients
              (cleanup-HasDistinctKeys now s d))
            (inr (
              record r { count = suc r.count },
              lookup-put (address client) _ (cleanup now s).clients (address client)
                  ∙ rw (str_eq_refl (address client)) refl,
              old,
            )))

    by_entry :
        (entry : Option ClientRecord)
        → (decided o (address client) now (cleanup now s) entry).0 ≡ limited wait
        → (rate_limiter o client later (decided o (address client) now (cleanup now s) entry).1).0
          ≡ passed
    by_entry none e = cc e
    by_entry (some r) e = elim (Bool-cases (leb r.reset_at now)) [
      | inl old ↦ absurd (differ (rw old at e))
      | inr young ↦ rw young (
          after r (
            reached r.reset_at now wait later
              (advised (ltb o.max_requests (suc r.count)) _ (rw young at e)) waited))
    ]
      where
        differ : passed ≡ limited wait → ⊥
        differ e = cc e
