-- ===== src/Editorial/Graph/Decides.antt =====
-- The answer of the search over all the keys of the graph that the edges make.
use mathlib.Core.WellFounded.{Acc}
use snc_platform.Prelude.{
  ℕ, ◌≤◌, String, ◌≡◌, refl, sym, ◌∙◌, subst, ◌⊎◌, inl, inr, true, some, List, [], ◌∷◌, ◌++◌,
  length, str_eq, str_eq_iff, str_eq_refl, Bool-cases, arith, le_trans,
}
use snc_platform.Shared.{ok}
use snc_platform.Prelude.Table.{count_where}
use snc_platform.Editorial.Graph.{
  ChannelSourceEdge, Graph, VisitState, unvisited, in_progress, done, States, mem, keys, neighbors,
  build, Outcome, found, finished, out_of_fuel, dfs_visit, visit_keys, find_cycle, report,
  detect_channel_source_cycles,
}
use snc_platform.Editorial.Graph.Walks.{IsEdge, IsSafe, IsChain, IsCycle}
use snc_platform.Editorial.Graph.Marks.{left, left_mono}
use snc_platform.Editorial.Graph.Search.{
  IsGood, IsClosed, DoneSafe, OnPath, Advances, Advances-trans, Advances-refl,
}
use snc_platform.Editorial.Graph.Search.Descend.{dfs_visit-IsGood}
use snc_platform.Editorial.Graph.Build.{has_edge, mem-neighbors-build, build-IsClosed}

-- What the loop over the keys comes to.
IsSound : Graph → List String → States → Outcome → Type 0
IsSound g ks st (found p) = IsCycle g p
IsSound g ks st (finished st') =
    Advances g st st' × DoneSafe g st' × ((k : String) → mem ks k ≡ true → st' k ≡ done)
IsSound g ks st out_of_fuel = ⊥

module _ (g : Graph) (closed : IsClosed g) (fuel : ℕ) where
  visit_keys-IsSound :
      (ks : List String) (st : States)
      → ((k : String) → mem ks k ≡ true → mem (keys g) k ≡ true)
      → left st (keys g) ≤ fuel
      → DoneSafe g st
      → OnPath st []
      → IsSound g ks st (visit_keys g fuel ks st)
  unfolding visit_keys IsSound
  visit_keys-IsSound [] st sub enough safe idle = (Advances-refl g st, safe, λ k m. cc m)
  visit_keys-IsSound (k ∷ ks) st sub enough safe idle =
      by_state (λ st' e s i. visit_keys-IsSound ks st' (λ x m. sub x (ground (arith, m))) e s i)
        (st k) refl
    where
      with_key :
          (st' : States) (out : Outcome)
          → Advances g st st'
          → st' k ≡ done
          → IsSound g ks st' out
          → IsSound g (k ∷ ks) st out
      with_key st' (found p) adv now sound = sound
      with_key st' out_of_fuel adv now sound = sound
      with_key st' (finished last_st) adv now (more, after, all) = (
        Advances-trans g st st' last_st adv more,
        after,
        λ x m. elim (Bool-cases (str_eq k x)) [
          | inl same ↦
              subst (λ z. last_st z ≡ done) ((str_eq_iff k x).0 same) (more.done_kept k now)
          | inr other ↦ all x (rw other at m)
        ],
      )

      after_visit :
          ((st' : States)
            → left st' (keys g) ≤ fuel
            → DoneSafe g st'
            → OnPath st' []
            → IsSound g ks st' (visit_keys g fuel ks st'))
          → st k ≡ unvisited
          → (out : Outcome) → IsGood g st k out
          → IsSound g (k ∷ ks) st (elim out [
            | found cycle ↦ found cycle
            | out_of_fuel ↦ out_of_fuel
            | finished st' ↦ visit_keys g fuel ks st'
          ])
      after_visit rec e (found p) good = good
      after_visit rec e out_of_fuel good = good
      after_visit rec e (finished st') (adv, now_safe, now) =
          with_key st' (visit_keys g fuel ks st') adv now (
            rec st' (le_trans (left_mono st st' (keys g) adv.no_new) enough) now_safe
              (λ x f. idle x (adv.progress x f)))

      by_state :
          ((st' : States)
            → left st' (keys g) ≤ fuel
            → DoneSafe g st'
            → OnPath st' []
            → IsSound g ks st' (visit_keys g fuel ks st'))
          → (v : VisitState) → st k ≡ v
          → IsSound g (k ∷ ks) st (elim v [
            | in_progress ↦ visit_keys g fuel ks st
            | done ↦ visit_keys g fuel ks st
            | unvisited ↦ elim (dfs_visit g fuel k st []) [
              | found cycle ↦ found cycle
              | out_of_fuel ↦ out_of_fuel
              | finished st' ↦ visit_keys g fuel ks st'
            ]
          ])
      by_state rec in_progress e = cc (idle k e)
      by_state rec done e =
          with_key st (visit_keys g fuel ks st) (Advances-refl g st) e (rec st enough safe idle)
      by_state rec unvisited e = after_visit rec e (dfs_visit g fuel k st []) (
          dfs_visit-IsGood g closed fuel k st [] (record {
            new = e;
            node_in = sub k (rw (str_eq_refl k) refl);
            enough = enough;
            safe = safe;
            on_path = idle;
            chain = tt;
            linked = tt;
          }))

edge-keys : (g : Graph) (u v : String) → IsEdge g u v → mem (keys g) u ≡ true
unfolding neighbors
edge-keys [] u v e = cc e
edge-keys ((k, vs) ∷ g) u v e = elim (Bool-cases (str_eq k u)) [
  | inl same ↦ rw same refl
  | inr other ↦ rw other (edge-keys g u v (rw other at e))
]

left_start : (ks : List String) → left (λ _. unvisited) ks ≤ length ks
unfolding count_where
left_start [] = omega arith
left_start (k ∷ ks) = ground (arith, left_start ks)

-- A walk along the edges from u to v, of at least one edge.
pub data Walk (es : List ChannelSourceEdge) : String → String → Type 0 where
  last : {u v : String} → has_edge es u v ≡ true → Walk es u v
  step : {u w v : String} → has_edge es u w ≡ true → Walk es w v → Walk es u v

module _ (es : List ChannelSourceEdge) where
  snoc : {u w v : String} → Walk es u w → has_edge es w v ≡ true → Walk es u v
  snoc (last e) f = step e (last f)
  snoc (step e w) f = step e (snoc w f)

  edge_eq : (u v : String) → mem (neighbors (build es []) u) v ≡ has_edge es u v
  unfolding neighbors
  edge_eq u v = mem-neighbors-build es [] u v

  no_return : (x : String) → IsSafe (build es []) x → Walk es x x → ⊥
  no_return x (Acc.intro _ h) (last e) = no_return x (h x (edge_eq x x ∙ e)) (last e)
  no_return x (Acc.intro _ h) (step {w = y} e w) = no_return y (h y (edge_eq x y ∙ e)) (snoc w e)

  -- Each node of the list has an edge to the one after it.
  abbrev pub IsTrail : List String → Type 0
  IsTrail [] = Unit
  IsTrail (x ∷ []) = Unit
  IsTrail (x ∷ y ∷ ys) = (has_edge es x y ≡ true) × IsTrail (y ∷ ys)

  -- The list follows the edges from a node back to it.
  abbrev pub IsTour : List String → Type 0
  IsTour p = (u : String) × (rest : List String) × (p ≡ u ∷ rest ++ u ∷ []) × IsTrail p

  IsChain-IsTrail : (p : List String) → IsChain (build es []) p → IsTrail p
  IsChain-IsTrail [] h = tt
  IsChain-IsTrail (x ∷ []) h = tt
  IsChain-IsTrail (x ∷ y ∷ ys) (e, h) = (sym (edge_eq x y) ∙ e, IsChain-IsTrail (y ∷ ys) h)

  closed : IsClosed (build es [])
  unfolding neighbors
  closed = build-IsClosed es [] (λ u v e. cc e)

  -- A node that is not a key has no edge, and the others are done.
  all-IsSafe :
      (st : States)
      → DoneSafe (build es []) st
      → ((k : String) → mem (keys (build es [])) k ≡ true → st k ≡ done)
      → (x : String) → IsSafe (build es []) x
  all-IsSafe st safe all x = elim (Bool-cases (mem (keys (build es [])) x)) [
    | inl m ↦ safe x (all x m)
    | inr m ↦ Acc.intro x (λ v e. cc (edge-keys (build es []) x v e, m))
  ]

  searched : IsSound (build es []) (keys (build es [])) (λ _. unvisited) (find_cycle es)
  unfolding find_cycle
  searched =
      visit_keys-IsSound (build es []) closed (length (keys (build es []))) (keys (build es []))
        (λ _. unvisited) (λ k m. m) (left_start (keys (build es []))) (λ x e. cc e) (λ x e. cc e)

-- The search over the edges always comes to an end. Either it reports a list of channels that starts
-- and ends with the same channel, each with an edge to the next, or it answers ok and no walk along
-- the edges returns to the channel it started from.
pub detect_channel_source_cycles-decides :
    (es : List ChannelSourceEdge)
    → ((p : List String) × (detect_channel_source_cycles es ≡ report (found p)) × IsTour es p)
      ⊎ ((detect_channel_source_cycles es ≡ some (ok tt)) × ((u : String) → ¬ (Walk es u u)))
unfolding detect_channel_source_cycles IsSound
detect_channel_source_cycles-decides es = by_outcome (find_cycle es) (searched es)
  where
    by_outcome :
        (out : Outcome)
        → IsSound (build es []) (keys (build es [])) (λ _. unvisited) out
        → ((p : List String) × (report out ≡ report (found p)) × IsTour es p)
          ⊎ ((report out ≡ some (ok tt)) × ((u : String) → ¬ (Walk es u u)))
    by_outcome (found p) (u, rest, e, chain) =
        inl (p, refl, (u, rest, e, IsChain-IsTrail es p chain))
    by_outcome (finished st) (adv, safe, all) =
        inr (refl, λ u. no_return es u (all-IsSafe es st safe all u))
    by_outcome out_of_fuel h = absurd h
