-- ===== src/Pricing/Table.antt =====
-- The table of src/pricing/pricing.service.ts under an insertion and an update.
use orders_microservice.Base.{
  some_injective, if_both, All, ap, ◌∙◌, or_neither, Bool-cases, Bool, List, ◌≡◌, refl, sym, some,
  [], ◌∷◌, ◌++◌, true, false, arith, ◌&&◌, inl, inr,
}
use orders_microservice.Base.Text.Laws.{text_eq_sym, text_eq_iff}
use mathlib.Core.Path.{subst}
use orders_microservice.Base.Text.{text_eq, Text}
use orders_microservice.Pricing.{replace_suggestion, find_suggestion, PriceSuggestion}
use orders_microservice.Pricing.Generate.{has_open, is_open}

-- no two open suggestions are for the same product
abbrev pub IsSingle : List PriceSuggestion → Type 0
IsSingle [] = Unit
IsSingle (r ∷ rs) = ((is_open r && has_open r.product_id rs) ≡ false) × IsSingle rs

pub find_suggestion-append :
    (id : Text) (rows more : List PriceSuggestion) {row : PriceSuggestion}
    → find_suggestion id rows ≡ some row
    → find_suggestion id (rows ++ more) ≡ some row
unfolding find_suggestion
find_suggestion-append id [] more {row} h = cc
find_suggestion-append id (r ∷ rs) more {row} h =
    ground (arith, find_suggestion-append id rs more {row = row})

pub find_suggestion_id :
    (id : Text) (rows : List PriceSuggestion) {row : PriceSuggestion}
    → find_suggestion id rows ≡ some row
    → text_eq row.id id ≡ true
unfolding find_suggestion
find_suggestion_id id [] {row} h = cc
find_suggestion_id id (r ∷ rs) {row} h = elim (Bool-cases (text_eq r.id id)) [
  | inl here ↦
      subst (λ x. text_eq x.id id ≡ true) (some_injective (rw (here, find_suggestion) at h)) here
  | inr other ↦ find_suggestion_id id rs (rw (other, find_suggestion) at h)
]

-- an update leaves the suggestions alone that differ from the one found in some test
pub find_suggestion-replace_suggestion :
    (test : PriceSuggestion → Bool) (id : Text) (rows : List PriceSuggestion)
    (new old row : PriceSuggestion)
    → find_suggestion new.id rows ≡ some old
    → test old ≡ true
    → find_suggestion id rows ≡ some row
    → test row ≡ false
    → find_suggestion id (replace_suggestion new rows) ≡ some row
unfolding find_suggestion replace_suggestion
find_suggestion-replace_suggestion test id [] new old row was yes_old there no_row = cc
find_suggestion-replace_suggestion test id (r ∷ rs) new old row was yes_old there no_row =
    elim (Bool-cases (text_eq r.id new.id)) [
      | inl same ↦ elim (Bool-cases (text_eq r.id id)) [
        | inl here ↦
            let e : r ≡ old = some_injective (rw (same, find_suggestion) at was) in
            let e' : r ≡ row = some_injective (rw (here, find_suggestion) at there) in cc
        | inr there' ↦
            let alike : r.id ≡ new.id = (text_eq_iff r.id new.id).0 same in
            let off : text_eq new.id id ≡ false = subst (λ x. text_eq x id ≡ false) alike there' in
            rw (same, off) (rw (there', find_suggestion) at there)
      ]
      | inr other ↦ elim (Bool-cases (text_eq r.id id)) [
        | inl here ↦ rw (other, here) (rw (here, find_suggestion) at there)
        | inr there' ↦
            rw (other, there')
              (find_suggestion-replace_suggestion test id rs new old row
                (rw (other, find_suggestion) at was) yes_old (rw (there', find_suggestion) at there)
                no_row)
      ]
    ]

abbrev open_for : Text → PriceSuggestion → Bool
open_for product_id r = text_eq r.product_id product_id && is_open r

open_for_new :
    (product_id : Text) (new old : PriceSuggestion)
    → new.product_id ≡ old.product_id
    → is_open old ≡ true
    → open_for product_id old ≡ false
    → open_for product_id new ≡ false
open_for_new product_id new old alike open_old h = rw (alike) (ground (arith, open_old, h))

-- an update that opens no suggestion, for the same product as the suggestion before
pub has_open-replace_suggestion :
    (product_id : Text) (rows : List PriceSuggestion) (new old : PriceSuggestion)
    → find_suggestion new.id rows ≡ some old
    → new.product_id ≡ old.product_id
    → is_open old ≡ true
    → has_open product_id rows ≡ false
    → has_open product_id (replace_suggestion new rows) ≡ false
unfolding find_suggestion replace_suggestion has_open
has_open-replace_suggestion product_id [] new old was alike open_old h = refl
has_open-replace_suggestion product_id (r ∷ rs) new old was alike open_old h =
    let (first, rest) = or_neither (open_for product_id r) (has_open product_id rs) h in
    elim (Bool-cases (text_eq r.id new.id)) [
      | inl same ↦
          let e : r ≡ old = some_injective (rw (same, find_suggestion) at was) in
          let closed =
            open_for_new product_id new r (alike ∙ sym (ap (λ x. x.product_id) e))
              (subst (λ x. is_open x ≡ true) (sym e) open_old) first in
          rw (same, has_open, closed) rest
      | inr other ↦
          let later =
            has_open-replace_suggestion product_id rs new old (rw (other, find_suggestion) at was)
              alike open_old rest in
          rw (other, has_open, first) later
    ]

pub replace_suggestion-IsSingle :
    (rows : List PriceSuggestion) (new old : PriceSuggestion)
    → find_suggestion new.id rows ≡ some old
    → new.product_id ≡ old.product_id
    → is_open old ≡ true
    → IsSingle rows
    → IsSingle (replace_suggestion new rows)
unfolding find_suggestion replace_suggestion
replace_suggestion-IsSingle [] new old was alike open_old h = tt
replace_suggestion-IsSingle (r ∷ rs) new old was alike open_old h =
    elim (Bool-cases (text_eq r.id new.id)) [
      | inl same ↦
          let e : r ≡ old = some_injective (rw (same, find_suggestion) at was) in
          let open_r : is_open r ≡ true = subst (λ x. is_open x ≡ true) (sym e) open_old in
          let alone : has_open r.product_id rs ≡ false = rw open_r at h.0 in
          let alone_new : has_open new.product_id rs ≡ false =
            rw (alike ∙ sym (ap (λ x. x.product_id) e)) alone in
          rw same (ground (arith, alone_new), h.1)
      | inr other ↦
          let was' = rw (other, find_suggestion) at was in
          rw other (
            elim (Bool-cases (is_open r)) [
              | inl open_r ↦ ground (
                arith,
                open_r,
                has_open-replace_suggestion r.product_id rs new old was' alike open_old
                    (rw open_r at h.0),
              )
              | inr closed ↦ rw closed refl
            ],
            replace_suggestion-IsSingle rs new old was' alike open_old h.1,
          )
    ]

has_open-append :
    (product_id : Text) (rows : List PriceSuggestion) (row : PriceSuggestion)
    → has_open product_id rows ≡ false
    → open_for product_id row ≡ false
    → has_open product_id (rows ++ row ∷ []) ≡ false
unfolding has_open
has_open-append product_id [] row h k = ground (arith, k)
has_open-append product_id (r ∷ rs) row h k =
    let (first, rest) = or_neither (open_for product_id r) (has_open product_id rs) h in
    rw first (has_open-append product_id rs row rest k)

pub append-IsSingle :
    (rows : List PriceSuggestion) (row : PriceSuggestion)
    → has_open row.product_id rows ≡ false
    → IsSingle rows
    → IsSingle (rows ++ row ∷ [])
unfolding has_open
append-IsSingle [] row alone h = (ground arith, tt)
append-IsSingle (r ∷ rs) row alone h =
    let (first, rest) = or_neither (open_for row.product_id r) (has_open row.product_id rs) alone in
    (
      elim (Bool-cases (is_open r)) [
        | inl open_r ↦
            let unlike : text_eq r.product_id row.product_id ≡ false =
              ground (arith, open_r, first) in
            rw open_r (
              has_open-append r.product_id rs row (rw open_r at h.0)
                (ground (arith, unlike, text_eq_sym row.product_id r.product_id)))
        | inr closed ↦ rw closed refl
      ],
      append-IsSingle rs row rest h.1,
    )

module _ {ℓ} (P : PriceSuggestion → Type ℓ) where
  pub replace_suggestion-All :
      (rows : List PriceSuggestion) (new : PriceSuggestion)
      → P new
      → All P rows
      → All P (replace_suggestion new rows)
  unfolding replace_suggestion
  replace_suggestion-All [] new p h = tt
  replace_suggestion-All (r ∷ rs) new p h =
      if_both (All P) (text_eq r.id new.id) (p, h.1) (h.0, replace_suggestion-All rs new p h.1)

  pub append-All :
      (rows : List PriceSuggestion) (row : PriceSuggestion)
      → P row
      → All P rows
      → All P (rows ++ row ∷ [])
  append-All [] row p h = (p, tt)
  append-All (r ∷ rs) row p h = (h.0, append-All rs row p h.1)
