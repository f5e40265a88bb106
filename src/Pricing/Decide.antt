-- ===== src/Pricing/Decide.antt =====
-- src/pricing/pricing.service.ts: approving and rejecting a suggestion.
use orders_microservice.Pricing.{
  invalid_suggested_price, catalog_update_failed, change_too_large, suggestion_not_saved,
  already_decided, approve, catalog_token_missing, suggestion_not_found, PricingActor,
  catalog_url_missing, is_positive_price, note, number_or_zero, price_update, reject, PriceChanged,
  PricingError, PricingState, exceeds_limit, to_safe_actor_id, PriceSuggestion, PriceUpdate,
  PricingOperation, find_suggestion, is_pending, replace_suggestion, PricingEnv,
}
use orders_microservice.Base.{not, Option, Result, none, some, ◌∷◌, ok, throw, if◌then◌else◌}
use orders_microservice.Base.Text.{is_empty, Text, lit}
use orders_microservice.Json.{Number}
use orders_microservice.World.{success, rejected, failure}

module _ (e : PricingEnv) where
  unfoldable pub update_product_price :
      PriceUpdate → PricingState → PricingState × Result PricingError (Unit {0})
  update_product_price update s =
      let sent = record s { requests = update ∷ s.requests } in
      if is_empty e.catalog_service_url
      then (s, throw catalog_url_missing)
      else if is_empty e.catalog_service_token
      then (s, throw catalog_token_missing)
      else if e.update_ok s update
      then (record sent { accepted = update ∷ s.accepted }, ok tt)
      else (sent, throw (catalog_update_failed update.product_id))

  abbrev pub approved_row : Text → PriceSuggestion → PriceSuggestion
  approved_row actor row = record row {
    status = lit "approved";
    approved_at = some e.clock;
    approved_by = some actor;
  }

  abbrev pub price_changed : PriceSuggestion → PriceChanged
  price_changed row = record {
    product_id = row.product_id;
    product_name = row.product_name;
    old_price = row.current_price;
    new_price = row.suggested_price;
    change_percent = number_or_zero row.change_percent;
    approved_at = e.clock;
    suggestion_id = row.id;
  }

  -- the `try` block of `approveSuggestion`, after the catalog's answer
  unfoldable pub store_approval :
      Text → PriceSuggestion → PricingState → PricingState × Result PricingError Number
  unfolding replace_suggestion
  store_approval actor row s =
      if e.saves s (approved_row actor row)
      then (
        note approve row.id success (record s {
          rows = replace_suggestion (approved_row actor row) s.rows;
          events = price_changed row ∷ s.events;
        }),
        ok row.suggested_price,
      )
      else (note approve row.id failure s, throw suggestion_not_saved)

  unfoldable pub after_answer :
      Text
      → PriceSuggestion
      → PricingState
      → Result PricingError (Unit {0})
      → PricingState × Result PricingError Number
  unfolding store_approval
  after_answer actor row s (throw error) = (note approve row.id failure s, throw error)
  after_answer actor row s (ok _) = store_approval actor row s

  unfoldable pub apply_price :
      Text → PriceSuggestion → PricingState → PricingState × Result PricingError Number
  unfolding update_product_price after_answer
  apply_price actor row s =
      let (s', answer) = update_product_price (price_update row) s in
      after_answer actor row s' answer

  abbrev pub refuse {ℓ} :
      {A : Type ℓ}
      → PricingOperation
      → PriceSuggestion
      → PricingError
      → PricingState
      → PricingState × Result PricingError A
  refuse operation row error s = (note operation row.id rejected s, throw error)

  -- `approveSuggestion` on a suggestion that was found
  unfoldable pub approve_found :
      Text → PriceSuggestion → PricingState → PricingState × Result PricingError Number
  unfolding is_pending exceeds_limit is_positive_price apply_price
  approve_found actor row s =
      if not (is_pending row)
      then refuse approve row (already_decided row.id row.status) s
      else if exceeds_limit (number_or_zero row.change_percent)
      then refuse approve row (change_too_large (number_or_zero row.change_percent)) s
      else if not (is_positive_price row.suggested_price)
      then refuse approve row (invalid_suggested_price row.id) s
      else apply_price actor row s

  unfoldable pub approve_suggestion :
      Text → Option PricingActor → PricingState → PricingState × Result PricingError Number
  unfolding find_suggestion to_safe_actor_id approve_found
  approve_suggestion id actor s = elim (find_suggestion id s.rows) [
    | none ↦ (s, throw (suggestion_not_found id))
    | some row ↦ approve_found (to_safe_actor_id actor) row s
  ]

  abbrev pub rejected_row : Text → PriceSuggestion → PriceSuggestion
  rejected_row actor row = record row {
    status = lit "rejected";
    rejected_at = some e.clock;
    rejected_by = some actor;
  }

  -- `rejectSuggestion` on a suggestion that was found
  unfoldable pub reject_found :
      Text → PriceSuggestion → PricingState → PricingState × Result PricingError (Unit {0})
  unfolding is_pending replace_suggestion
  reject_found actor row s =
      if not (is_pending row)
      then refuse reject row (already_decided row.id row.status) s
      else if e.saves s (rejected_row actor row)
      then (
        note reject row.id success
            (record s { rows = replace_suggestion (rejected_row actor row) s.rows }),
        ok tt,
      )
      else (note reject row.id failure s, throw suggestion_not_saved)

  unfoldable pub reject_suggestion :
      Text → Option PricingActor → PricingState → PricingState × Result PricingError (Unit {0})
  unfolding find_suggestion to_safe_actor_id reject_found
  reject_suggestion id actor s = elim (find_suggestion id s.rows) [
    | none ↦ (s, throw (suggestion_not_found id))
    | some row ↦ reject_found (to_safe_actor_id actor) row s
  ]
