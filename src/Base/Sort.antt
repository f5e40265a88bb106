-- ===== src/Base/Sort.antt =====
-- `order: { key: 'DESC' }` of a query: the rows with the greatest key first, where rows of the same
-- key stay as they were.
use Prim.Native.Nat.{ℕ, zero, suc, ◌≤◌}
use mathlib.Core.Bool.{Bool}
use mathlib.Core.Logic.{inl, inr}
use mathlib.Core.Path.{◌≡◌}
use mathlib.Core.List.{List, [], ◌∷◌, map}
use native.Mathlib.Omega.{arith}
use orders_microservice.Base.Tests.{ltb, if◌then◌else◌, if_both, Bool-cases}
use orders_microservice.Base.Lists.{All, All-map, take, take-All, filter, filter-keeps}

module _ {ℓ} {A : Type ℓ} (key : A → ℕ) where
  unfoldable insert_newest : A → List A → List A
  insert_newest row [] = row ∷ []
  insert_newest row (r ∷ rs) =
      let rest = insert_newest row rs in if ltb (key row) (key r) then r ∷ rest else row ∷ r ∷ rs

  unfoldable pub newest_first : List A → List A
  unfolding insert_newest
  newest_first [] = []
  newest_first (r ∷ rs) = insert_newest r (newest_first rs)

  insert_newest-All {κ} :
      (P : A → Type κ) (row : A) (rows : List A)
      → P row
      → All P rows
      → All P (insert_newest row rows)
  unfolding insert_newest
  insert_newest-All P row [] p h = (p, tt)
  insert_newest-All P row (r ∷ rs) p h =
      if_both (All P) (ltb (key row) (key r)) (h.0, insert_newest-All P row rs p h.1) (p, h)

  pub newest_first-All {κ} :
      (P : A → Type κ) (rows : List A) → All P rows → All P (newest_first rows)
  unfolding newest_first
  newest_first-All P [] h = tt
  newest_first-All P (r ∷ rs) h =
      insert_newest-All P r (newest_first rs) h.0 (newest_first-All P rs h.1)

  -- no row of the list has a greater key
  abbrev pub IsUpTo : ℕ → List A → Type 0
  IsUpTo instant rows = All (λ r. key r ≤ instant) rows

  -- each row is followed by none with a greater key
  abbrev pub IsNewestFirst : List A → Type 0
  IsNewestFirst [] = Unit
  IsNewestFirst (r ∷ rs) = IsUpTo (key r) rs × IsNewestFirst rs

  IsUpTo-more : (a b : ℕ) (rows : List A) → a ≤ b → IsUpTo a rows → IsUpTo b rows
  IsUpTo-more a b rows le h =
      All-map (λ r. key r ≤ a) (λ r. key r ≤ b) rows (λ r k. omega (arith, le, k)) h

  insert_newest-IsNewestFirst :
      (row : A) (rows : List A) → IsNewestFirst rows → IsNewestFirst (insert_newest row rows)
  unfolding insert_newest
  insert_newest-IsNewestFirst row [] h = (tt, tt)
  insert_newest-IsNewestFirst row (r ∷ rs) h = elim (Bool-cases (ltb (key row) (key r))) [
    | inl older ↦ rw older (
      insert_newest-All (λ x. key x ≤ key r) row rs (ground (arith, older)) h.0,
      insert_newest-IsNewestFirst row rs h.1,
    )
    | inr newer ↦
        let le : key r ≤ key row = ground (arith, newer) in
        rw newer ((le, IsUpTo-more (key r) (key row) rs le h.0), h)
  ]

  pub newest_first-IsNewestFirst : (rows : List A) → IsNewestFirst (newest_first rows)
  unfolding newest_first
  newest_first-IsNewestFirst [] = tt
  newest_first-IsNewestFirst (r ∷ rs) =
      insert_newest-IsNewestFirst r (newest_first rs) (newest_first-IsNewestFirst rs)

  pub take-IsNewestFirst :
      (n : ℕ) (rows : List A) → IsNewestFirst rows → IsNewestFirst (take n rows)
  take-IsNewestFirst zero rows h = tt
  take-IsNewestFirst (suc n) [] h = tt
  take-IsNewestFirst (suc n) (r ∷ rs) h =
      (take-All (λ x. key x ≤ key r) n rs h.0, take-IsNewestFirst n rs h.1)

  pub filter-IsNewestFirst :
      (p : A → Bool) (rows : List A) → IsNewestFirst rows → IsNewestFirst (filter p rows)
  filter-IsNewestFirst p [] h = tt
  filter-IsNewestFirst p (r ∷ rs) h =
      if_both IsNewestFirst (p r)
        (filter-keeps (λ x. key x ≤ key r) p rs h.0, filter-IsNewestFirst p rs h.1)
        (filter-IsNewestFirst p rs h.1)

-- the list of what the rows become, where the key stays
module _ {ℓ κ} {A : Type ℓ} {B : Type κ} (key : A → ℕ) (key' : B → ℕ) (f : A → B)
    (same : (a : A) → key' (f a) ≡ key a) where
  map-IsUpTo : (n : ℕ) (rows : List A) → IsUpTo key n rows → IsUpTo key' n (map f rows)
  map-IsUpTo n [] h = tt
  map-IsUpTo n (r ∷ rs) h = (rw (same r) h.0, map-IsUpTo n rs h.1)

  pub map-IsNewestFirst : (rows : List A) → IsNewestFirst key rows → IsNewestFirst key' (map f rows)
  map-IsNewestFirst [] h = tt
  map-IsNewestFirst (r ∷ rs) h = (rw (same r) (map-IsUpTo (key r) rs h.0), map-IsNewestFirst rs h.1)
