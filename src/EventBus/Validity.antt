-- ===== src/EventBus/Validity.antt =====
-- What always holds of a subscription, whatever its consumer, its timers and the publishers do.
use snc_platform.Prelude.{
  ℕ, suc, ◌≤◌, String, ◌≡◌, refl, sym, ◌∙◌, inl, inr, Bool, true, false, Option, none, some, List,
  [], ◌∷◌, ◌||◌, not, str_eq, ltb, arith, if◌then◌else◌, length, All, Bool-cases,
}
use snc_platform.Events.{PlatformEvent, SseTopic}
use snc_platform.EventBus.{
  Subscription, SubscriberContext, map_key, map_set, values, settle, wake, close, is_visible,
  deliver, stored, enqueue, wait_or_drain, next, time_out, coalesce_backstop, topic_of,
  scope_filter, has_topic, new_subscription,
}

-- The event is for a subscriber of these topics in this context.
abbrev pub IsVisible : List SseTopic → SubscriberContext → PlatformEvent → Type 0
IsVisible topics ctx e = (has_topic topics (topic_of e) ≡ true) × (scope_filter e ctx ≡ true)

abbrev pub AllVisible : List SseTopic → SubscriberContext → List (String × PlatformEvent) → Type 0
AllVisible topics ctx m = All (λ p. IsVisible topics ctx p.1) m

pub record IsValid (s : Subscription) : Type 0 where
  pub waiting_empty : (n : ℕ) → s.resolver ≡ some n → s.coalesce_map ≡ []
  pub timed : s.resolver ≡ s.timeout_handle
  pub bounded : s.closed ≡ false → length s.coalesce_map ≤ coalesce_backstop
  pub released : s.closed ≡ true → s.resolver ≡ none
  pub listed : s.registered ≡ not s.closed
  pub pending_visible : AllVisible s.topics s.ctx s.coalesce_map
  pub settled_visible : All (λ b. All (IsVisible s.topics s.ctx) b.1) s.resolved

map_set-AllVisible :
    (topics : List SseTopic) (ctx : SubscriberContext) (k : String) (e : PlatformEvent)
    (m : List (String × PlatformEvent))
    → IsVisible topics ctx e
    → AllVisible topics ctx m
    → AllVisible topics ctx (map_set k e m)
unfolding map_set
map_set-AllVisible topics ctx k e [] v h = (v, tt)
map_set-AllVisible topics ctx k e ((j, x) ∷ m) v h = elim (Bool-cases (str_eq j k)) [
  | inl hit ↦ rw hit (v, h.1)
  | inr miss ↦ rw miss (h.0, map_set-AllVisible topics ctx k e m v h.1)
]

values-IsVisible :
    (topics : List SseTopic) (ctx : SubscriberContext) (m : List (String × PlatformEvent))
    → AllVisible topics ctx m
    → All (IsVisible topics ctx) (values m)
values-IsVisible topics ctx [] h = tt
values-IsVisible topics ctx ((k, e) ∷ m) h = (h.0, values-IsVisible topics ctx m h.1)

pub new_subscription-IsValid :
    (topics : List SseTopic) (ctx : SubscriberContext) → IsValid (new_subscription topics ctx)
new_subscription-IsValid topics ctx = record {
  waiting_empty = λ n e. cc;
  timed = refl;
  bounded = λ _. omega arith;
  released = λ e. refl;
  listed = refl;
  pending_visible = tt;
  settled_visible = tt;
}

close_with :
    (r : Option ℕ) (s : Subscription)
    → s.resolver ≡ r
    → s.resolver ≡ s.timeout_handle
    → AllVisible s.topics s.ctx s.coalesce_map
    → All (λ b. All (IsVisible s.topics s.ctx) b.1) s.resolved
    → IsValid (record (settle r [] (record s { closed = true })) { registered = false })
close_with none s e timed v h = record {
  waiting_empty = λ n g. cc (sym e ∙ g);
  timed = timed;
  bounded = λ g. cc g;
  released = λ _. e;
  listed = refl;
  pending_visible = v;
  settled_visible = h;
}
close_with (some n) s e timed v h = record {
  waiting_empty = λ m g. cc g;
  timed = refl;
  bounded = λ g. cc g;
  released = λ _. refl;
  listed = refl;
  pending_visible = v;
  settled_visible = (tt, h);
}

pub close-IsValid : (s : Subscription) → IsValid s → IsValid (close s)
unfolding close wake
close-IsValid s w = by_closed s.closed refl
  where
    by_closed :
        (b : Bool)
        → s.closed ≡ b
        → IsValid
            (if b then s else record (wake (record s { closed = true })) { registered = false })
    by_closed true e = w
    by_closed false e = close_with s.resolver s refl w.timed w.pending_visible w.settled_visible

deliver_with :
    (r : Option ℕ) (s : Subscription)
    → s.resolver ≡ r
    → s.closed ≡ false
    → s.resolver ≡ s.timeout_handle
    → length s.coalesce_map ≤ coalesce_backstop
    → s.registered ≡ not s.closed
    → AllVisible s.topics s.ctx s.coalesce_map
    → All (λ b. All (IsVisible s.topics s.ctx) b.1) s.resolved
    → IsValid (deliver r s)
deliver_with none s e c timed size listed v h = record {
  waiting_empty = λ n g. cc (sym e ∙ g);
  timed = timed;
  bounded = λ _. size;
  released = λ _. e;
  listed = listed;
  pending_visible = v;
  settled_visible = h;
}
deliver_with (some n) s e c timed size listed v h = record {
  waiting_empty = λ m g. refl;
  timed = refl;
  bounded = λ _. omega arith;
  released = λ _. refl;
  listed = listed;
  pending_visible = tt;
  settled_visible = (values-IsVisible s.topics s.ctx s.coalesce_map v, h);
}

pub enqueue-IsValid : (e : PlatformEvent) (s : Subscription) → IsValid s → IsValid (enqueue e s)
unfolding enqueue close wake
enqueue-IsValid e s w = elim (Bool-cases (s.closed || not (is_visible s e))) [
  | inl skipped ↦ rw (skipped, enqueue) w
  | inr taken ↦
      let open_still : s.closed ≡ false = ground (arith, taken) in
      let seen : IsVisible s.topics s.ctx e = (ground (arith, taken), ground (arith, taken)) in
      let v =
        map_set-AllVisible s.topics s.ctx (map_key e) e s.coalesce_map seen w.pending_visible in
      elim (Bool-cases (ltb coalesce_backstop (length (stored e s).coalesce_map))) [
        | inl over ↦
            rw (taken, over, open_still)
              (close_with s.resolver (stored e s) refl w.timed v w.settled_visible)
        | inr fits ↦
            rw (taken, fits)
              (deliver_with s.resolver (stored e s) refl open_still w.timed (ground (arith, fits))
                w.listed v w.settled_visible)
      ]
]

wait_or_drain-IsValid :
    (m : List (String × PlatformEvent)) (s : Subscription)
    → s.coalesce_map ≡ m
    → s.closed ≡ false
    → IsValid s
    → IsValid (wait_or_drain m s)
wait_or_drain-IsValid [] s e c w = record {
  waiting_empty = λ n g. e;
  timed = refl;
  bounded = w.bounded;
  released = λ g. cc (sym c ∙ g);
  listed = w.listed;
  pending_visible = w.pending_visible;
  settled_visible = w.settled_visible;
}
wait_or_drain-IsValid (x ∷ xs) s e c w = record {
  waiting_empty = λ n g. refl;
  timed = w.timed;
  bounded = λ _. omega arith;
  released = w.released;
  listed = w.listed;
  pending_visible = tt;
  settled_visible =
      (values-IsVisible s.topics s.ctx (x ∷ xs) (rw e at w.pending_visible), w.settled_visible);
}

pub next-IsValid : (s : Subscription) → IsValid s → IsValid (next s)
unfolding next
next-IsValid s w = by_closed s.closed refl
  where
    by_closed :
        (b : Bool)
        → s.closed ≡ b
        → IsValid (
            if b
            then record s { resolved = (s.calls, []) ∷ s.resolved; calls = suc s.calls }
            else wait_or_drain s.coalesce_map s)
    by_closed true e = record {
      waiting_empty = w.waiting_empty;
      timed = w.timed;
      bounded = w.bounded;
      released = w.released;
      listed = w.listed;
      pending_visible = w.pending_visible;
      settled_visible = (tt, w.settled_visible);
    }
    by_closed false e = wait_or_drain-IsValid s.coalesce_map s refl e w

pub time_out-IsValid : (n : ℕ) (s : Subscription) → IsValid s → IsValid (time_out n s)
unfolding time_out
time_out-IsValid n s w = record {
  waiting_empty = λ m g. cc g;
  timed = refl;
  bounded = w.bounded;
  released = λ _. refl;
  listed = w.listed;
  pending_visible = w.pending_visible;
  settled_visible = (tt, w.settled_visible);
}

-- What can happen to a subscription.
pub data Step : Type 0 where
  offered : (e : PlatformEvent) → Step
  pulled : Step
  timed_out : (n : ℕ) → Step
  shut : Step

unfoldable pub step : Step → Subscription → Subscription
step (offered e) s = enqueue e s
step pulled s = next s
step (timed_out n) s = time_out n s
step shut s = close s

unfoldable pub run : List Step → Subscription → Subscription
run [] s = s
run (x ∷ xs) s = run xs (step x s)

run_from-IsValid : (xs : List Step) (s : Subscription) → IsValid s → IsValid (run xs s)
unfolding run step
run_from-IsValid [] s w = w
run_from-IsValid (offered e ∷ xs) s w = run_from-IsValid xs (enqueue e s) (enqueue-IsValid e s w)
run_from-IsValid (pulled ∷ xs) s w = run_from-IsValid xs (next s) (next-IsValid s w)
run_from-IsValid (timed_out n ∷ xs) s w =
    run_from-IsValid xs (time_out n s) (time_out-IsValid n s w)
run_from-IsValid (shut ∷ xs) s w = run_from-IsValid xs (close s) (close-IsValid s w)

-- Whatever happens to a new subscription, in any order: no event is pending while a call waits;
-- an open one holds at most 256 pending events; a closed one has no waiting call and is out of the
-- bus's set, an open one is in it; and every event that is pending or was handed over is on a
-- subscribed topic and passes the filter for the subscriber.
pub run-IsValid :
    (topics : List SseTopic) (ctx : SubscriberContext) (xs : List Step)
    → IsValid (run xs (new_subscription topics ctx))
run-IsValid topics ctx xs =
    run_from-IsValid xs (new_subscription topics ctx) (new_subscription-IsValid topics ctx)
