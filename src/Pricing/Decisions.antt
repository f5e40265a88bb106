-- ===== src/Pricing/Decisions.antt =====
-- What `approveSuggestion` and `rejectSuggestion` of src/pricing/pricing.service.ts do to the
-- suggestions, to the catalog and to the events.
use orders_microservice.Pricing.Decide.{
  price_changed, after_answer, apply_price, approve_found, approve_suggestion, approved_row,
  reject_found, reject_suggestion, rejected_row, store_approval, update_product_price,
}
use orders_microservice.Base.{
  sym, inl, inr, Bool-cases, Option-cases, Option, Result, ◌≡◌, refl, some, ◌∷◌, ok, throw, true,
  false,
}
use mathlib.Core.Path.{subst}
use orders_microservice.Pricing.{
  catalog_update_failed, invalid_suggested_price, catalog_token_missing, change_too_large,
  already_decided, catalog_url_missing, suggestion_not_found, is_positive_price,
  suggestion_not_saved, PriceUpdate, is_pending, number_or_zero, price_update, replace_suggestion,
  to_safe_actor_id, PricingActor, exceeds_limit, find_suggestion, PricingEnv, PricingState,
  PricingError, PriceSuggestion,
}
use orders_microservice.Base.Text.{is_empty, Text}
use orders_microservice.Json.{Number}

-- a pending suggestion of the table, by its identifier
pub record IsPendingAt (id : Text) (s : PricingState) (row : PriceSuggestion) : Type 0 where
  pub found : find_suggestion id s.rows ≡ some row
  pub pending : is_pending row ≡ true

-- the three conditions for an approval
pub record IsApprovable (id : Text) (s : PricingState) (row : PriceSuggestion) : Type 0 where
  pub at_hand : IsPendingAt id s row
  pub within : exceeds_limit (number_or_zero row.change_percent) ≡ false
  pub positive : is_positive_price row.suggested_price ≡ true

module _ (e : PricingEnv) (id : Text) (actor : Option PricingActor) (s : PricingState) where
  abbrev actor_id : Text
  actor_id = to_safe_actor_id actor

  pub data Approval (s' : PricingState) : Result PricingError Number → Type 0 where
    refused :
        (error : PricingError)
        → s'.rows ≡ s.rows
        → s'.accepted ≡ s.accepted
        → s'.events ≡ s.events
        → Approval s' (throw error)
    not_stored :
        (row : PriceSuggestion)
        → IsApprovable id s row
        → s'.rows ≡ s.rows
        → s'.accepted ≡ price_update row ∷ s.accepted
        → s'.events ≡ s.events
        → Approval s' (throw suggestion_not_saved)
    stored :
        (row : PriceSuggestion)
        → IsApprovable id s row
        → s'.rows ≡ replace_suggestion (approved_row e actor_id row) s.rows
        → s'.accepted ≡ price_update row ∷ s.accepted
        → s'.events ≡ price_changed e row ∷ s.events
        → Approval s' (ok row.suggested_price)

  pub data Rejection (s' : PricingState) : Result PricingError (Unit {0}) → Type 0 where
    refused :
        (error : PricingError)
        → s'.rows ≡ s.rows
        → s'.accepted ≡ s.accepted
        → s'.events ≡ s.events
        → Rejection s' (throw error)
    stored :
        (row : PriceSuggestion)
        → IsPendingAt id s row
        → s'.rows ≡ replace_suggestion (rejected_row e actor_id row) s.rows
        → s'.accepted ≡ s.accepted
        → s'.events ≡ s.events
        → Rejection s' (ok tt)

  -- an update of the catalog fails with nothing accepted, or is accepted
  data Update (update : PriceUpdate) (s' : PricingState)
      : Result PricingError (Unit {0}) → Type 0 where
    failed :
        (error : PricingError)
        → s'.rows ≡ s.rows
        → s'.accepted ≡ s.accepted
        → s'.events ≡ s.events
        → Update update s' (throw error)
    done :
        s' ≡ record s { requests = update ∷ s.requests; accepted = update ∷ s.accepted }
        → Update update s' (ok tt)

  update_product_price_lem :
      (update : PriceUpdate) → let (s', r) = update_product_price e update s in Update update s' r
  unfolding update_product_price
  update_product_price_lem update = elim (Bool-cases (is_empty e.catalog_service_url)) [
    | inl no_url ↦ rw no_url (failed catalog_url_missing refl refl refl)
    | inr url ↦ elim (Bool-cases (is_empty e.catalog_service_token)) [
      | inl no_token ↦ rw (url, no_token) (failed catalog_token_missing refl refl refl)
      | inr token ↦ elim (Bool-cases (e.update_ok s update)) [
        | inl taken ↦ rw (url, token, taken) (done refl)
        | inr lost ↦
            rw (url, token, lost) (failed (catalog_update_failed update.product_id) refl refl refl)
      ]
    ]
  ]

  module _ (row : PriceSuggestion) (fit : IsApprovable id s row) where
    abbrev updated : PricingState
    updated = record s {
      requests = price_update row ∷ s.requests;
      accepted = price_update row ∷ s.accepted;
    }

    store_approval_lem : let (s', r) = store_approval e actor_id row updated in Approval s' r
    unfolding store_approval
    store_approval_lem = elim (Bool-cases (e.saves updated (approved_row e actor_id row))) [
      | inl kept ↦ rw kept (stored row fit refl refl refl)
      | inr lost ↦ rw lost (not_stored row fit refl refl refl)
    ]

    after_answer_lem :
        (s' : PricingState) (r : Result PricingError (Unit {0}))
        → Update (price_update row) s' r
        → let (t, r') = after_answer e actor_id row s' r in Approval t r'
    unfolding after_answer
    after_answer_lem s' (throw _) (failed error rows accepted events) =
        refused error rows accepted events
    after_answer_lem s' (ok tt) (done same) =
        subst (λ t. let (t', r') = store_approval e actor_id row t in Approval t' r') (sym same)
          store_approval_lem

    apply_price_lem : let (s', r) = apply_price e actor_id row s in Approval s' r
    unfolding apply_price
    apply_price_lem =
        let (s', answer) = update_product_price e (price_update row) s in
        after_answer_lem s' answer (update_product_price_lem (price_update row))

  approve_found_lem :
      (row : PriceSuggestion)
      → find_suggestion id s.rows ≡ some row
      → let (s', r) = approve_found e actor_id row s in Approval s' r
  unfolding approve_found
  approve_found_lem row there =
      let change = number_or_zero row.change_percent in
      elim (Bool-cases (is_pending row)) [
        | inr decided ↦ rw decided (refused (already_decided row.id row.status) refl refl refl)
        | inl pending ↦ elim (Bool-cases (exceeds_limit change)) [
          | inl large ↦ rw (pending, large) (refused (change_too_large change) refl refl refl)
          | inr small ↦ elim (Bool-cases (is_positive_price row.suggested_price)) [
            | inr wrong ↦
                rw (pending, small, wrong) (refused (invalid_suggested_price row.id) refl refl refl)
            | inl right ↦
                rw (pending, small, right)
                  (apply_price_lem row (record {
                    at_hand = record { found = there; pending = pending };
                    within = small;
                    positive = right;
                  }))
          ]
        ]
      ]

  -- A request to approve a suggestion either fails and changes no suggestion, no price in the catalog
  -- and publishes nothing; or finds a pending suggestion within the limit and with a positive price,
  -- whose price the catalog accepts, and then stores its approval and publishes the change of price,
  -- or fails because the approval cannot be saved, with the price changed in the catalog and nothing
  -- else.
  pub approve_suggestion_lem : let (s', r) = approve_suggestion e id actor s in Approval s' r
  unfolding approve_suggestion
  approve_suggestion_lem = elim (Option-cases (find_suggestion id s.rows)) [
    | inl absent ↦
        rw (absent, approve_suggestion) (refused (suggestion_not_found id) refl refl refl)
    | inr (row, there) ↦ rw (there, approve_suggestion) (approve_found_lem row there)
  ]

  reject_found_lem :
      (row : PriceSuggestion)
      → find_suggestion id s.rows ≡ some row
      → let (s', r) = reject_found e actor_id row s in Rejection s' r
  unfolding reject_found
  reject_found_lem row there = elim (Bool-cases (is_pending row)) [
    | inr decided ↦ rw decided (refused (already_decided row.id row.status) refl refl refl)
    | inl pending ↦ elim (Bool-cases (e.saves s (rejected_row e actor_id row))) [
      | inl kept ↦
          rw (pending, kept)
            (stored row (record { found = there; pending = pending }) refl refl refl)
      | inr lost ↦ rw (pending, lost) (refused suggestion_not_saved refl refl refl)
    ]
  ]

  -- A request to reject a suggestion fails and changes no suggestion, or stores the rejection of a
  -- suggestion that was pending; either way it changes no price in the catalog and publishes nothing.
  pub reject_suggestion_lem : let (s', r) = reject_suggestion e id actor s in Rejection s' r
  unfolding reject_suggestion
  reject_suggestion_lem = elim (Option-cases (find_suggestion id s.rows)) [
    | inl absent ↦ rw (absent, reject_suggestion) (refused (suggestion_not_found id) refl refl refl)
    | inr (row, there) ↦ rw (there, reject_suggestion) (reject_found_lem row there)
  ]
