-- ===== src/Base/Group.antt =====
-- Grouping by a key, as `reduce` into an object does it: the groups in the order of their first rows.
use mathlib.Core.Bool.{Bool, false}
use mathlib.Core.Logic.{inl, inr}
use mathlib.Core.Path.{◌≡◌, refl, subst}
use mathlib.Core.List.{List, [], ◌∷◌}
use orders_microservice.Base.Tests.{if◌then◌else◌, Bool-cases}
use orders_microservice.Base.Lists.{filter}
use orders_microservice.Base.Text.{Text, text_eq}
use orders_microservice.Base.Text.Laws.{text_eq_iff, text_eq_refl}

module _ {ℓ κ} {A : Type ℓ} {B : Type κ} (key : A → Text) (add : A → B → B) (start : B) where
  unfoldable pub add_to_group : A → List (Text × B) → List (Text × B)
  unfolding text_eq
  add_to_group a [] = (key a, add a start) ∷ []
  add_to_group a ((k, b) ∷ gs) =
      let rest = add_to_group a gs in if text_eq k (key a) then (k, add a b) ∷ gs else (k, b) ∷ rest

  unfoldable pub group_into : List (Text × B) → List A → List (Text × B)
  unfolding add_to_group
  group_into gs [] = gs
  group_into gs (a ∷ as') = group_into (add_to_group a gs) as'

  -- `acc[k] || start`
  unfoldable pub group_at : Text → List (Text × B) → B
  unfolding text_eq
  group_at k [] = start
  group_at k ((k', b) ∷ gs) = if text_eq k' k then b else group_at k gs

  -- the rows of one key, added up in turn
  abbrev pub add_all : B → List A → B
  add_all b [] = b
  add_all b (a ∷ as') = add_all (add a b) as'

  abbrev pub in_group : Text → A → Bool
  in_group k a = text_eq (key a) k

  group_at-add_to_group_same :
      (a : A) (gs : List (Text × B))
      → group_at (key a) (add_to_group a gs) ≡ add a (group_at (key a) gs)
  unfolding group_at add_to_group
  group_at-add_to_group_same a [] = rw (text_eq_refl (key a)) refl
  group_at-add_to_group_same a ((k, b) ∷ gs) = elim (Bool-cases (text_eq k (key a))) [
    | inl same ↦ rw same (rw same refl)
    | inr other ↦ rw other (rw other (group_at-add_to_group_same a gs))
  ]

  group_at-add_to_group_other :
      (k : Text) (a : A) (gs : List (Text × B))
      → text_eq (key a) k ≡ false
      → group_at k (add_to_group a gs) ≡ group_at k gs
  unfolding group_at add_to_group
  group_at-add_to_group_other k a [] unlike = rw unlike refl
  group_at-add_to_group_other k a ((k', b) ∷ gs) unlike = elim (Bool-cases (text_eq k' (key a))) [
    | inl same ↦
        let off : text_eq k' k ≡ false = rw ((text_eq_iff k' (key a)).0 same) unlike in
        rw same (rw off refl)
    | inr other ↦ elim (Bool-cases (text_eq k' k)) [
      | inl here ↦ rw other (rw here refl)
      | inr there ↦ rw other (rw there (group_at-add_to_group_other k a gs unlike))
    ]
  ]

  pub group_at-group_into :
      (k : Text) (gs : List (Text × B)) (rows : List A)
      → group_at k (group_into gs rows) ≡ add_all (group_at k gs) (filter (in_group k) rows)
  unfolding group_into
  group_at-group_into k gs [] = refl
  group_at-group_into k gs (a ∷ rows) = elim (Bool-cases (text_eq (key a) k)) [
    | inl same ↦
        let here : group_at k (add_to_group a gs) ≡ add a (group_at k gs) =
          subst (λ x. group_at x (add_to_group a gs) ≡ add a (group_at x gs))
            ((text_eq_iff (key a) k).0 same) (group_at-add_to_group_same a gs) in
        rw (group_at-group_into k (add_to_group a gs) rows, here) (rw same refl)
    | inr other ↦
        rw (group_at-group_into k (add_to_group a gs) rows, other)
          (rw (group_at-add_to_group_other k a gs other) refl)
  ]
