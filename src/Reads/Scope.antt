-- ===== src/Reads/Scope.antt =====
-- Which orders a customer's read of src/orders/orders.service.ts answers with.
use orders_microservice.Reads.Filters.{
  stage_of, from_after_to, is_limit, normalize_optional_date, OrderLifecycleReadFilters, is_after,
  normalize_limit, normalize_order_lifecycle_read_filters, NormalizedOrderLifecycleReadFilters,
  Readers,
}
use orders_microservice.Reads.Answer.{IsServed, lifecycle_models-IsAnswer, IsAnswer}
use orders_microservice.Base.{
  throw_if-eq-ok, ok_injective, throw_if, Bool-cases, >>=-eq-ok, Option-cases, All-map, length, All,
  List, ℕ, none, some, ok, false, ◌≡◌, ◌≤◌, refl, inl, inr, arith, ap, ◌∙◌,
}
use orders_microservice.Lifecycle.{normalize_order_lifecycle_stage}
use orders_microservice.Reads.{serialize_order_lifecycle_read_model}
use mathlib.Core.Path.{subst}
use orders_microservice.Base.Text.{is_empty, lit, Text}
use orders_microservice.Reads.Queries.{
  is_customers, customer_options, normalize_actor_subject, CustomerOrders,
  get_customer_lifecycle_orders, lifecycle_models,
}
use orders_microservice.Entities.{Order}

-- the filters that a request may have
pub record IsFilter (filters : NormalizedOrderLifecycleReadFilters) : Type 0 where
  pub at_least : 1 ≤ filters.limit
  pub at_most : filters.limit ≤ 250
  pub ordered : is_after filters.from_date filters.to_date ≡ false

module _ (readers : Readers) where
  normalize_limit-between :
      (value : Text) (limit : ℕ)
      → normalize_limit readers value ≡ ok limit
      → (1 ≤ limit) × (limit ≤ 250)
  unfolding normalize_limit is_limit
  normalize_limit-between value limit h = elim (Bool-cases (is_empty value)) [
    | inl absent ↦
        subst (λ n. (1 ≤ n) × (n ≤ 250)) (ok_injective (rw (absent, normalize_limit) at h))
          (omega arith, omega arith)
    | inr given ↦ elim (Bool-cases (is_limit (readers.to_number value))) [
      | inl fits ↦
          subst (λ n. (1 ≤ n) × (n ≤ 250))
            (ok_injective (rw (fits) at (rw (given, normalize_limit) at h)))
            (ground (arith, fits), ground (arith, fits))
      | inr wrong ↦ let e = rw wrong at (rw (given, normalize_limit) at h) in cc
    ]
  ]

  pub normalize_order_lifecycle_read_filters-IsFilter :
      (given : OrderLifecycleReadFilters) (filters : NormalizedOrderLifecycleReadFilters)
      → normalize_order_lifecycle_read_filters readers given ≡ ok filters
      → IsFilter filters
  unfolding normalize_order_lifecycle_read_filters
  normalize_order_lifecycle_read_filters-IsFilter given filters h =
      let (from_date, e1, h1) =
        >>=-eq-ok (normalize_optional_date readers given.from_date (lit "from")) _ h in
      let (to_date, e2, h2) =
        >>=-eq-ok (normalize_optional_date readers given.to_date (lit "to")) _ h1 in
      let (_, e3, h3) = >>=-eq-ok (throw_if (is_after from_date to_date) from_after_to) _ h2 in
      let (stage, e4, h4) =
        >>=-eq-ok (stage_of (normalize_order_lifecycle_stage given.lifecycle_stage)) _ h3 in
      let (limit, e5, h5) = >>=-eq-ok (normalize_limit readers given.limit) _ h4 in
      let (least, most) = normalize_limit-between given.limit limit e5 in
      subst IsFilter (ok_injective h5) (record {
        at_least = least;
        at_most = most;
        ordered = throw_if-eq-ok (is_after from_date to_date) from_after_to e3;
      })

  -- what a customer is shown
  pub record IsCustomerPage (lower : Text → Text) (sub : Text) (rows : List Order)
      (page : CustomerOrders lower) : Type 0 where
    pub subject : normalize_actor_subject sub ≡ some page.subject
    pub filters : IsFilter page.filters
    pub counted : page.count ≡ length page.orders
    pub answer :
        IsAnswer lower
          (customer_options lower)
          page.filters
          (is_customers lower page.subject)
          rows
          page.orders
    pub private : All (λ m. m.customer ≡ none) page.orders

  -- A customer's read that answers has a subject that is a UUID; it answers with at most as many
  -- orders as its limit, which is from 1 to 250, the newest first, each of them an order of the table
  -- that the filters let through, at the stage that is asked for, and of that subject; and none shows
  -- a customer's contact.
  pub get_customer_lifecycle_orders-IsCustomerPage :
      (lower : Text → Text) (sub : Text) (given : OrderLifecycleReadFilters) (rows : List Order)
      {page : CustomerOrders lower}
      → get_customer_lifecycle_orders lower readers sub given rows ≡ ok page
      → IsCustomerPage lower sub rows page
  unfolding get_customer_lifecycle_orders
  get_customer_lifecycle_orders-IsCustomerPage lower sub given rows {page} h =
      elim (Option-cases (normalize_actor_subject sub)) [
        | inl unknown ↦ let e = rw (unknown, get_customer_lifecycle_orders) at h in cc
        | inr (subject, known) ↦
            let (filters, read, h1) =
              >>=-eq-ok (normalize_order_lifecycle_read_filters readers given) _
                (rw (known, get_customer_lifecycle_orders) at h) in
            let answer =
              lifecycle_models-IsAnswer lower (customer_options lower) filters
                (is_customers lower subject) rows in
            subst (IsCustomerPage lower sub rows) (ok_injective h1) (record {
              subject = known;
              filters = normalize_order_lifecycle_read_filters-IsFilter given filters read;
              counted = refl;
              answer = answer;
              private =
                  All-map
                    (IsServed lower (customer_options lower) filters (is_customers lower subject)
                      rows)
                    (λ m. m.customer ≡ none)
                    (lifecycle_models lower (customer_options lower) filters
                      (is_customers lower subject) rows)
                    (λ m served. ap (λ x. x.customer) served.shown ∙ hidden served.order)
                    answer.served;
            })
      ]
    where
      hidden :
          (o : Order)
          → (serialize_order_lifecycle_read_model (customer_options lower) o).customer ≡ none
      hidden o = refl
