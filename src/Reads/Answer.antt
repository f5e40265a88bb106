-- ===== src/Reads/Answer.antt =====
-- Which orders of the table a lifecycle read of src/orders/orders.service.ts gives.
use orders_microservice.Reads.Filters.{NormalizedOrderLifecycleReadFilters}
use orders_microservice.Base.{
  filter-IsNewestFirst, take, filter-All, filter-keeps, and_both, All-pair, newest_first-All,
  newest_first-IsNewestFirst, filter, length-take-le, newest_first, take-IsNewestFirst,
  map-IsNewestFirst, IsNewestFirst, take-All, All-map, length, map, All, or_else, Option, Bool,
  List, ℕ, none, some, [], ◌∷◌, true, ◌&&◌, ◌≡◌, ◌≤◌, refl,
}
use orders_microservice.Lifecycle.{OrderLifecycleStage}
use orders_microservice.Reads.{
  serialize_order_lifecycle_read_model, OrderLifecycleReadModelOptions, OrderLifecycleReadModel,
}
use orders_microservice.Base.Text.{Text}
use orders_microservice.Reads.Queries.{
  query_limit, filter_lifecycle_models, order_date, lifecycle_models, run_lifecycle_query, if_given,
  is_wanted,
}
use orders_microservice.Reads.Aggregates.{is_at}
use orders_microservice.Entities.{Order}

module _ {ℓ} {A : Type ℓ} where
  pub data IsIn (x : A) : List A → Type ℓ where
    here : (xs : List A) → IsIn x (x ∷ xs)
    later : {y : A} {xs : List A} → IsIn x xs → IsIn x (y ∷ xs)

  pub All-IsIn {κ} : (P : A → Type κ) {x : A} (xs : List A) → All P xs → IsIn x xs → P x
  All-IsIn P _ h (here xs) = h.0
  All-IsIn P _ h (later i) = All-IsIn P _ h.1 i

  IsIn-All-more : (y : A) (xs ys : List A) → All (λ x. IsIn x xs) ys → All (λ x. IsIn x (y ∷ xs)) ys
  IsIn-All-more y xs ys h = All-map (λ x. IsIn x xs) (λ x. IsIn x (y ∷ xs)) ys (λ x i. later i) h

  pub every_row : (xs : List A) → All (λ x. IsIn x xs) xs
  every_row [] = tt
  every_row (x ∷ xs) = (here xs, IsIn-All-more x xs xs (every_row xs))

everywhere {ℓ κ} : {A : Type ℓ} (P : A → Type κ) (xs : List A) → ((x : A) → P x) → All P xs
everywhere P [] f = tt
everywhere P (x ∷ xs) f = (f x, everywhere P xs f)

map-All {ℓ κ ι μ} :
    {A : Type ℓ} {B : Type κ} (P : A → Type ι) (Q : B → Type μ) (f : A → B) (xs : List A)
    → ((x : A) → P x → Q (f x))
    → All P xs
    → All Q (map f xs)
map-All P Q f [] k h = tt
map-All P Q f (x ∷ xs) k h = (k x h.0, map-All P Q f xs k h.1)

-- an order of the table that the filters and the scope let through
pub record IsChosen (lower : Text → Text) (filters : NormalizedOrderLifecycleReadFilters)
    (scope : Order → Bool) (rows : List Order) (order : Order) : Type 0 where
  pub stored : IsIn order rows
  pub wanted : is_wanted lower filters order ≡ true
  pub allowed : scope order ≡ true

-- the model of such an order, at the stage that is asked for
pub record IsServed (lower : Text → Text) (options : OrderLifecycleReadModelOptions)
    (filters : NormalizedOrderLifecycleReadFilters) (scope : Order → Bool) (rows : List Order)
    (model : OrderLifecycleReadModel) : Type 0 where
  pub order : Order
  pub chosen : IsChosen lower filters scope rows order
  pub shown : model ≡ serialize_order_lifecycle_read_model options order

abbrev pub model_date : OrderLifecycleReadModel → ℕ
model_date model = elim (or_else model.ordered_at model.created_at) [ none ↦ 0 | some t ↦ t ]

abbrev pub IsAtStage : Option OrderLifecycleStage → OrderLifecycleReadModel → Type 0
IsAtStage stage model = if_given stage (λ s. is_at s model) ≡ true

module _ (lower : Text → Text) (options : OrderLifecycleReadModelOptions)
    (filters : NormalizedOrderLifecycleReadFilters) (scope : Order → Bool) (rows : List Order) where
  pub record IsAnswer (models : List OrderLifecycleReadModel) : Type 0 where
    pub short : length models ≤ filters.limit
    pub served : All (IsServed lower options filters scope rows) models
    pub at_stage : All (IsAtStage filters.lifecycle_stage) models
    pub newest : IsNewestFirst model_date models

  abbrev test : Order → Bool
  test order = is_wanted lower filters order && scope order

  abbrev Chosen : Order → Type 0
  Chosen = IsChosen lower filters scope rows

  run_lifecycle_query-All : All Chosen (run_lifecycle_query lower filters scope rows)
  unfolding run_lifecycle_query
  run_lifecycle_query-All =
      take-All Chosen (query_limit lower filters) (newest_first order_date (filter test rows)) (
        newest_first-All order_date Chosen (filter test rows) (
          All-pair (λ o. IsIn o rows) (λ o. test o ≡ true) Chosen (filter test rows)
            (λ o i h.
              let (wanted, allowed) = and_both (is_wanted lower filters o) (scope o) h in
              record { stored = i; wanted = wanted; allowed = allowed })
            (filter-keeps (λ o. IsIn o rows) test rows (every_row rows)) (filter-All test rows)))

  abbrev all_models : List OrderLifecycleReadModel
  all_models =
      map (serialize_order_lifecycle_read_model options)
        (run_lifecycle_query lower filters scope rows)

  all_models-All : All (IsServed lower options filters scope rows) all_models
  all_models-All =
      map-All Chosen (IsServed lower options filters scope rows)
        (serialize_order_lifecycle_read_model options)
        (run_lifecycle_query lower filters scope rows)
        (λ o chosen. record { order = o; chosen = chosen; shown = refl }) run_lifecycle_query-All

  model_date_same :
      (o : Order) → model_date (serialize_order_lifecycle_read_model options o) ≡ order_date o
  unfolding serialize_order_lifecycle_read_model
  model_date_same o = refl

  all_models-IsNewestFirst : IsNewestFirst model_date all_models
  unfolding run_lifecycle_query
  all_models-IsNewestFirst =
      map-IsNewestFirst order_date model_date (serialize_order_lifecycle_read_model options)
        model_date_same (run_lifecycle_query lower filters scope rows)
        (take-IsNewestFirst order_date (query_limit lower filters)
          (newest_first order_date (filter test rows))
          (newest_first-IsNewestFirst order_date (filter test rows)))

  filter_lem :
      (stage : Option OrderLifecycleStage)
      → let models = filter_lifecycle_models lower all_models stage filters.limit in
        (length models ≤ filters.limit)
        × All (IsServed lower options filters scope rows) models
        × All (IsAtStage stage) models
        × IsNewestFirst model_date models
  unfolding filter_lifecycle_models
  filter_lem none = (
    length-take-le filters.limit all_models,
    take-All (IsServed lower options filters scope rows) filters.limit all_models all_models-All,
    everywhere (IsAtStage none) (take filters.limit all_models) (λ m. refl),
    take-IsNewestFirst model_date filters.limit all_models all_models-IsNewestFirst,
  )
  filter_lem (some stage) =
      let found = filter (is_at stage) all_models in
      (
        length-take-le filters.limit found,
        take-All (IsServed lower options filters scope rows) filters.limit found (
            filter-keeps (IsServed lower options filters scope rows) (is_at stage) all_models
              all_models-All),
        take-All (IsAtStage (some stage)) filters.limit found (filter-All (is_at stage) all_models),
        take-IsNewestFirst model_date filters.limit found
            (filter-IsNewestFirst model_date (is_at stage) all_models all_models-IsNewestFirst),
      )

  pub lifecycle_models-IsAnswer : IsAnswer (lifecycle_models lower options filters scope rows)
  unfolding lifecycle_models
  lifecycle_models-IsAnswer =
      let (short, served, at_stage, newest) = filter_lem filters.lifecycle_stage in
      record { short = short; served = served; at_stage = at_stage; newest = newest }
