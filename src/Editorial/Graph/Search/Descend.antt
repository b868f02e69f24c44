-- ===== src/Editorial/Graph/Search/Descend.antt =====
-- A search from a node, by recursion on the fuel, and its loop over the neighbors.
use mathlib.Core.WellFounded.{Acc}
use snc_platform.Prelude.{
  ℕ, zero, suc, ◌≤◌, ◌<◌, String, ◌≡◌, refl, sym, ◌∙◌, subst, ◌≢◌, ◌⊎◌, inl, inr, true, List, [],
  ◌∷◌, ◌++◌, str_eq, str_eq_iff, str_eq_refl, Bool-cases, arith, le_trans,
}
use snc_platform.Editorial.Graph.{
  Graph, VisitState, unvisited, in_progress, done, States, mark, mem, keys, neighbors, Outcome,
  found, finished, out_of_fuel, visit_all, dfs_visit, slice_from,
}
use snc_platform.Editorial.Graph.Walks.{
  IsEdge, IsSafe, IsChain, IsLinked, snoc-IsChain, snoc-IsLinked, slice_from-IsCycle,
}
use snc_platform.Editorial.Graph.Marks.{mark-eq, mark-ne, left, left_mono}
use snc_platform.Editorial.Graph.Search.{
  IsReady, IsGood, Advances, Advances-refl, Advances-trans, DoneSafe, OnPath, IsClosed, mark-old,
  left_marked, OnPath-snoc, back,
}

module _ (g : Graph) (closed : IsClosed g) where
  -- The loop over the neighbors, when the recursive call is good.
  module _ (fuel : ℕ) (visit : String → States → List String → Outcome)
      (visit_good : (n : String) (st : States) (path : List String)
        → IsReady g fuel n st path
        → IsGood g st n (visit n st path))
      (node : String) (path : List String) (start : States) (chain : IsChain g path)
      (linked : (v : String) → IsEdge g node v → IsLinked g path v) (on_path : OnPath start path)
      (enough : left start (keys g) ≤ fuel) (here : start node ≡ in_progress) where
    finish :
        (st : States)
        → Advances g start st
        → DoneSafe g st
        → ((v : String) → IsEdge g node v → st v ≡ done)
        → IsGood g start node (finished (mark node done st))
    finish st adv safe all_done = (
      record {
        done_kept = λ x e. kept x (adv.done_kept x e);
        no_new = λ x e. adv.no_new x (old x unvisited (λ f. cc f) e);
        progress = λ x e. adv.progress x (old x in_progress (λ f. cc f) e);
      },
      safe_after,
      mark-eq node done st,
    )
      where
        kept : (x : String) → st x ≡ done → mark node done st x ≡ done
        kept x e = elim (Bool-cases (str_eq x node)) [
          | inl same ↦ rw same refl
          | inr other ↦ mark-ne node x done st other ∙ e
        ]

        old : (x : String) (v : VisitState) → done ≢ v → mark node done st x ≡ v → st x ≡ v
        old x v ne e = elim (Bool-cases (str_eq x node)) [
          | inl same ↦ absurd (ne (sym (rw same refl) ∙ e))
          | inr other ↦ sym (mark-ne node x done st other) ∙ e
        ]

        safe_after : DoneSafe g (mark node done st)
        safe_after x e = elim (Bool-cases (str_eq x node)) [
          | inl same ↦
              subst (IsSafe g) (sym ((str_eq_iff x node).0 same))
                (Acc.intro node (λ v edge. safe v (all_done v edge)))
          | inr other ↦ safe x (sym (mark-ne node x done st other) ∙ e)
        ]

    pub visit_all-IsGood :
        (todo : List String) (st : States)
        → ((v : String) → mem todo v ≡ true → IsEdge g node v)
        → ((v : String) → IsEdge g node v → (mem todo v ≡ true) ⊎ (st v ≡ done))
        → Advances g start st
        → DoneSafe g st
        → IsGood g start node (visit_all visit node todo st path)
    unfolding visit_all
    visit_all-IsGood [] st edges handled adv safe =
        finish st adv safe (λ v e. elim (handled v e) [ inl m ↦ cc m | inr d ↦ d ])
    visit_all-IsGood (n ∷ ns) st edges handled adv safe =
        by_state (λ st' h a d. visit_all-IsGood ns st' rest_edges h a d) (st n) refl
      where
        rest_edges : (v : String) → mem ns v ≡ true → IsEdge g node v
        rest_edges v m = edges v (ground arith)

        edge : IsEdge g node n
        edge = edges n (rw (str_eq_refl n) refl)

        rest_handled :
            (st' : States)
            → ((x : String) → st x ≡ done → st' x ≡ done)
            → st' n ≡ done
            → (v : String) → IsEdge g node v
            → (mem ns v ≡ true) ⊎ (st' v ≡ done)
        rest_handled st' kept now v e = elim (handled v e) [
          | inr d ↦ inr (kept v d)
          | inl m ↦ elim (Bool-cases (str_eq n v)) [
            | inl same ↦ inr (subst (λ z. st' z ≡ done) ((str_eq_iff n v).0 same) now)
            | inr other ↦ inl (ground arith)
          ]
        ]

        ready : st n ≡ unvisited → IsReady g fuel n st path
        ready e = record {
          new = e;
          node_in = closed node n edge;
          enough = le_trans (left_mono start st (keys g) adv.no_new) enough;
          safe = safe;
          on_path = λ x f. on_path x (adv.progress x f);
          chain = chain;
          linked = linked n edge;
        }

        after_visit :
            ((st' : States)
              → ((v : String) → IsEdge g node v → (mem ns v ≡ true) ⊎ (st' v ≡ done))
              → Advances g start st'
              → DoneSafe g st'
              → IsGood g start node (visit_all visit node ns st' path))
            → (out : Outcome) → IsGood g st n out
            → IsGood g start node (elim out [
              | found cycle ↦ found cycle
              | out_of_fuel ↦ out_of_fuel
              | finished st' ↦ visit_all visit node ns st' path
            ])
        after_visit rec (found p) good = good
        after_visit rec out_of_fuel good = good
        after_visit rec (finished st') good =
            rec st' (rest_handled st' good.0.done_kept good.2)
              (Advances-trans g start st st' adv good.0) good.1

        by_state :
            ((st' : States)
              → ((v : String) → IsEdge g node v → (mem ns v ≡ true) ⊎ (st' v ≡ done))
              → Advances g start st'
              → DoneSafe g st'
              → IsGood g start node (visit_all visit node ns st' path))
            → (v : VisitState) → st n ≡ v
            → IsGood g start node (elim v [
              | in_progress ↦ found (slice_from n path ++ n ∷ [])
              | done ↦ visit_all visit node ns st path
              | unvisited ↦ elim (visit n st path) [
                | found cycle ↦ found cycle
                | out_of_fuel ↦ out_of_fuel
                | finished st' ↦ visit_all visit node ns st' path
              ]
            ])
        by_state rec in_progress e =
            slice_from-IsCycle g n path (on_path n (adv.progress n e)) chain (linked n edge)
        by_state rec done e = rec st (rest_handled st (λ x d. d) e) adv safe
        by_state rec unvisited e =
            after_visit rec (visit n st path) (visit_good n st path (ready e))

  pub dfs_visit-IsGood :
      (fuel : ℕ) (node : String) (st : States) (path : List String)
      → IsReady g fuel node st path
      → IsGood g st node (dfs_visit g fuel node st path)
  unfolding dfs_visit
  dfs_visit-IsGood zero node st path r =
      let fewer = left_marked st node (keys g) r.node_in r.new in
      absurd (none_left (left (mark node in_progress st) (keys g)) (le_trans fewer r.enough))
    where
      none_left : (n : ℕ) → n < 0 → ⊥
      none_left n h = omega arith
  dfs_visit-IsGood (suc fuel) node st path r =
      back g node st r.new
        (visit_all (dfs_visit g fuel) node (neighbors g node) (mark node in_progress st)
          (path ++ node ∷ []))
        (visit_all-IsGood fuel (dfs_visit g fuel) (dfs_visit-IsGood fuel) node (path ++ node ∷ [])
          (mark node in_progress st) (snoc-IsChain g path node r.chain r.linked)
          (λ v e. snoc-IsLinked g path node v e) (OnPath-snoc st path node r.on_path)
          (fewer_enough (left (mark node in_progress st) (keys g)) (left st (keys g)) fuel
            (left_marked st node (keys g) r.node_in r.new) r.enough)
          (mark-eq node in_progress st) (neighbors g node) (mark node in_progress st) (λ v m. m)
          (λ v e. inl e) (Advances-refl g (mark node in_progress st))
          (λ x e. r.safe x (mark-old node in_progress st done (λ f. cc f) x e)))
    where
      fewer_enough : (a b f : ℕ) → a < b → b ≤ suc f → a ≤ f
      fewer_enough a b f h k = omega arith
