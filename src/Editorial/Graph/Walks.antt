-- ===== src/Editorial/Graph/Walks.antt =====
-- Walks of the graph, and nodes from which none is endless.
use mathlib.Core.WellFounded.{Acc}
use snc_platform.Prelude.{
  String, ◌≡◌, ap, inl, inr, true, List, [], ◌∷◌, ◌++◌, str_eq, str_eq_iff, Bool-cases,
}
use snc_platform.Editorial.Graph.{Graph, mem, neighbors, from_first, slice_from}

abbrev pub IsEdge : Graph → String → String → Type 0
IsEdge g u v = mem (neighbors g u) v ≡ true

-- No endless walk leaves the node.
abbrev pub IsSafe : Graph → String → Type 0
IsSafe g x = Acc (λ v u. IsEdge g u v) x

-- Each node of the list has an edge to the one after it.
abbrev pub IsChain : Graph → List String → Type 0
IsChain g [] = Unit
IsChain g (x ∷ []) = Unit
IsChain g (x ∷ y ∷ ys) = IsEdge g x y × IsChain g (y ∷ ys)

-- The last node of the list, if it has one, has an edge to v.
abbrev pub IsLinked : Graph → List String → String → Type 0
IsLinked g [] v = Unit
IsLinked g (x ∷ []) v = IsEdge g x v
IsLinked g (x ∷ y ∷ ys) v = IsLinked g (y ∷ ys) v

-- A chain that ends where it begins.
abbrev pub IsCycle : Graph → List String → Type 0
IsCycle g p = (u : String) × (rest : List String) × (p ≡ u ∷ rest ++ u ∷ []) × IsChain g p

module _ (g : Graph) where
  pub snoc-IsChain :
      (xs : List String) (v : String) → IsChain g xs → IsLinked g xs v → IsChain g (xs ++ v ∷ [])
  snoc-IsChain [] v h k = tt
  snoc-IsChain (x ∷ []) v h k = (k, tt)
  snoc-IsChain (x ∷ y ∷ ys) v h k = (h.0, snoc-IsChain (y ∷ ys) v h.1 k)

  pub snoc-IsLinked : (xs : List String) (u v : String) → IsEdge g u v → IsLinked g (xs ++ u ∷ []) v
  snoc-IsLinked [] u v e = e
  snoc-IsLinked (x ∷ []) u v e = e
  snoc-IsLinked (x ∷ y ∷ ys) u v e = snoc-IsLinked (y ∷ ys) u v e

  tail-IsChain : (x : String) (xs : List String) → IsChain g (x ∷ xs) → IsChain g xs
  tail-IsChain x [] h = tt
  tail-IsChain x (y ∷ ys) h = h.1

  tail-IsLinked : (x v : String) (xs : List String) → IsLinked g (x ∷ xs) v → IsLinked g xs v
  tail-IsLinked x v [] h = tt
  tail-IsLinked x v (y ∷ ys) h = h

  -- From where n stands on the path a chain leads back to n.
  from_first-IsChain :
      (n : String) (xs : List String)
      → IsChain g xs
      → IsLinked g xs n
      → IsChain g (from_first n xs) × IsLinked g (from_first n xs) n
  from_first-IsChain n [] h k = (tt, tt)
  from_first-IsChain n (x ∷ xs) h k = elim (Bool-cases (str_eq x n)) [
    | inl here ↦ rw here (h, k)
    | inr later ↦ rw later (from_first-IsChain n xs (tail-IsChain x xs h) (tail-IsLinked x n xs k))
  ]

  from_first-head :
      (n : String) (xs : List String)
      → mem xs n ≡ true
      → (rest : List String) × (from_first n xs ≡ n ∷ rest)
  from_first-head n [] m = cc m
  from_first-head n (x ∷ xs) m = elim (Bool-cases (str_eq x n)) [
    | inl here ↦ (xs, rw here (ap (λ z. z ∷ xs) ((str_eq_iff x n).0 here)))
    | inr later ↦ rw later (from_first-head n xs (rw later at m))
  ]

  pub slice_from-IsCycle :
      (n : String) (path : List String)
      → mem path n ≡ true
      → IsChain g path
      → IsLinked g path n
      → IsCycle g (slice_from n path ++ n ∷ [])
  unfolding slice_from
  slice_from-IsCycle n path m h k =
      let (rest, e) = from_first-head n path m in
      let (chain, link) = from_first-IsChain n path h k in
      rw m (n, rest, ap (λ t. t ++ n ∷ []) e, snoc-IsChain (from_first n path) n chain link)
