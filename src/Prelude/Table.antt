-- ===== src/Prelude/Table.antt =====
-- A database table as the list of its rows in storage order, and the SQL statements that the
-- services run on it.
pub mod Laws
pub mod Order
pub mod Stable
use Prim.Native.Nat.{ℕ, zero, suc, ◌+◌, ◌≤◌, ◌<◌, compare, Ordering}
use mathlib.Core.Path.{◌≡◌, refl, ap}
use mathlib.Core.Bool.{Bool, true, false, not, ◌&&◌, ◌||◌}
use mathlib.Core.List.{List, [], ◌∷◌, ◌++◌, map}
use mathlib.Core.Option.{Option, none, some}
use native.Mathlib.Omega.{arith}
use snc_platform.Prelude.Tests.{if◌then◌else◌, leb, ltb, Bool-cases}
use snc_platform.Prelude.Lists.{length, All}

module _ {ℓ} {R : Type ℓ} where
  -- SELECT … WHERE p
  unfoldable pub select : (R → Bool) → List R → List R
  select p [] = []
  select p (r ∷ rs) = let rest = select p rs in if p r then r ∷ rest else rest

  -- UPDATE … SET f WHERE p
  unfoldable pub update : (R → Bool) → (R → R) → List R → List R
  update p f [] = []
  update p f (r ∷ rs) = (if p r then f r else r) ∷ update p f rs

  -- DELETE … WHERE p
  unfoldable pub delete : (R → Bool) → List R → List R
  delete p [] = []
  delete p (r ∷ rs) = let rest = delete p rs in if p r then rest else r ∷ rest

  -- SELECT count(*) … WHERE p
  unfoldable pub count_where : (R → Bool) → List R → ℕ
  count_where p [] = 0
  count_where p (r ∷ rs) = let rest = count_where p rs in if p r then suc rest else rest

  -- The first row that passes: `const [row] = await db.select()…where(p)`, and `find`.
  unfoldable pub first : (R → Bool) → List R → Option R
  first p [] = none
  first p (r ∷ rs) = if p r then some r else first p rs

  unfoldable pub any : (R → Bool) → List R → Bool
  any p [] = false
  any p (r ∷ rs) = p r || any p rs

  -- ORDER BY key ASC: a stable sort, so rows with equal keys stay in storage order.
  unfoldable pub insert_by : (R → R → Bool) → R → List R → List R
  insert_by le r [] = r ∷ []
  insert_by le r (x ∷ xs) = if le r x then r ∷ x ∷ xs else x ∷ insert_by le r xs

  unfoldable pub order_by : (R → R → Bool) → List R → List R
  unfolding insert_by
  order_by le [] = []
  order_by le (r ∷ rs) = insert_by le r (order_by le rs)
