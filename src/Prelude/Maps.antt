-- ===== src/Prelude/Maps.antt =====
-- A JavaScript `Map` with string keys: an association list in insertion order.
use Prim.Native.String.{String}
use mathlib.Core.Path.{◌≡◌, refl, sym, ◌∙◌}
use mathlib.Core.Bool.{Bool, true, false, ◌||◌}
use mathlib.Core.Logic.{inl, inr}
use mathlib.Core.List.{List, [], ◌∷◌}
use mathlib.Core.Option.{Option, none, some}
use native.Mathlib.Omega.{arith}
use snc_platform.Prelude.Tests.{if◌then◌else◌, str_eq, str_eq_iff, str_eq_refl, Bool-cases}

pub str_eq_sym : (x y : String) → str_eq x y ≡ str_eq y x
str_eq_sym x y = elim (Bool-cases (str_eq x y)) [
  | inl e ↦ rw ((str_eq_iff x y).0 e, str_eq_refl y) refl
  | inr e ↦ elim (Bool-cases (str_eq y x)) [
    | inl f ↦ absurd (differ (sym e ∙ rw ((str_eq_iff y x).0 f, str_eq_refl x) refl))
    | inr f ↦ e ∙ sym f
  ]
]
  where
    differ : false ≡ true → ⊥
    differ h = cc h

pub str_eq_move : (x y z : String) → str_eq x y ≡ true → str_eq x z ≡ str_eq y z
str_eq_move x y z e = rw ((str_eq_iff x y).0 e) refl

module _ {ℓ} {A : Type ℓ} where
  -- `map.get(k)`
  unfoldable pub lookup : String → List (String × A) → Option A
  lookup k [] = none
  lookup k ((x, v) ∷ m) = if str_eq x k then some v else lookup k m

  -- `map.set(k, v)`: a key that is present keeps its place.
  unfoldable pub put : String → A → List (String × A) → List (String × A)
  put k v [] = (k, v) ∷ []
  put k v ((x, w) ∷ m) = let rest = put k v m in if str_eq x k then (x, v) ∷ m else (x, w) ∷ rest

  -- `map.delete(k)`
  unfoldable pub drop_key : String → List (String × A) → List (String × A)
  drop_key k [] = []
  drop_key k ((x, w) ∷ m) = let rest = drop_key k m in if str_eq x k then rest else (x, w) ∷ rest

  abbrev pub has_key : String → List (String × A) → Bool
  has_key k [] = false
  has_key k ((x, w) ∷ m) = str_eq x k || has_key k m

  abbrev pub HasDistinctKeys : List (String × A) → Type 0
  HasDistinctKeys [] = Unit
  HasDistinctKeys ((x, w) ∷ m) = (has_key x m ≡ false) × HasDistinctKeys m

  pub lookup-put :
      (k : String) (v : A) (m : List (String × A)) (j : String)
      → lookup j (put k v m) ≡ (if str_eq k j then some v else lookup j m)
  unfolding lookup put
  lookup-put k v [] j = refl
  lookup-put k v ((x, w) ∷ m) j = elim (Bool-cases (str_eq x k)) [
    | inl same ↦ rw (same, str_eq_move x k j same) (collapse (str_eq k j))
    | inr other ↦ elim (Bool-cases (str_eq x j)) [
      | inl here ↦ rw (other, here, sym ((str_eq_iff x j).0 here), str_eq_sym k x, other) refl
      | inr later ↦ rw (other, later) (lookup-put k v m j)
    ]
  ]
    where
      collapse :
          (b : Bool)
          → (if b then some v else lookup j m)
            ≡ (if b then some v else if b then some w else lookup j m)
      collapse true = refl
      collapse false = refl

  pub lookup-drop_key :
      (k : String) (m : List (String × A)) (j : String)
      → lookup j (drop_key k m) ≡ (if str_eq k j then none else lookup j m)
  unfolding lookup drop_key
  lookup-drop_key k [] j = ground arith
  lookup-drop_key k ((x, w) ∷ m) j = elim (Bool-cases (str_eq x k)) [
    | inl same ↦ rw (same, str_eq_move x k j same, lookup-drop_key k m j) (collapse (str_eq k j))
    | inr other ↦ elim (Bool-cases (str_eq x j)) [
      | inl here ↦ rw (other, here, sym ((str_eq_iff x j).0 here), str_eq_sym k x, other) refl
      | inr later ↦ rw (other, later) (lookup-drop_key k m j)
    ]
  ]
    where
      collapse :
          (b : Bool)
          → (if b then none else lookup j m)
            ≡ (if b then none else if b then some w else lookup j m)
      collapse true = refl
      collapse false = refl

  pub has_key-put :
      (k : String) (v : A) (m : List (String × A)) (j : String)
      → has_key j (put k v m) ≡ (str_eq k j || has_key j m)
  unfolding put
  has_key-put k v [] j = refl
  has_key-put k v ((x, w) ∷ m) j = elim (Bool-cases (str_eq x k)) [
    | inl same ↦ rw (same, str_eq_move x k j same) (ground arith)
    | inr other ↦ rw (other, has_key-put k v m j) (ground arith)
  ]

  pub has_key-drop_key :
      (k : String) (m : List (String × A)) (j : String)
      → has_key j m ≡ false
      → has_key j (drop_key k m) ≡ false
  unfolding drop_key
  has_key-drop_key k [] j h = refl
  has_key-drop_key k ((x, w) ∷ m) j h = ground (arith, has_key-drop_key k m j)

  pub put-HasDistinctKeys :
      (k : String) (v : A) (m : List (String × A)) → HasDistinctKeys m → HasDistinctKeys (put k v m)
  unfolding put
  put-HasDistinctKeys k v [] h = (refl, tt)
  put-HasDistinctKeys k v ((x, w) ∷ m) (out, h) = elim (Bool-cases (str_eq x k)) [
    | inl same ↦ rw same (out, h)
    | inr other ↦
        rw other (has_key-put k v m x ∙ rw (str_eq_sym k x, other) out, put-HasDistinctKeys k v m h)
  ]

  pub drop_key-HasDistinctKeys :
      (k : String) (m : List (String × A)) → HasDistinctKeys m → HasDistinctKeys (drop_key k m)
  unfolding drop_key
  drop_key-HasDistinctKeys k [] h = tt
  drop_key-HasDistinctKeys k ((x, w) ∷ m) (out, h) = elim (Bool-cases (str_eq x k)) [
    | inl same ↦ rw same (drop_key-HasDistinctKeys k m h)
    | inr other ↦ rw other (has_key-drop_key k m x out, drop_key-HasDistinctKeys k m h)
  ]

  pub lookup-none : (k : String) (m : List (String × A)) → has_key k m ≡ false → lookup k m ≡ none
  unfolding lookup
  lookup-none k [] h = refl
  lookup-none k ((x, w) ∷ m) h = elim (Bool-cases (str_eq x k)) [
    | inl same ↦ cc (h, same)
    | inr other ↦ rw other (lookup-none k m (rw other at h))
  ]
