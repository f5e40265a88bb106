-- ===== src/Pricing.antt =====
-- src/pricing/pricing.service.ts and src/pricing/price-suggestion.entity.ts: suggestions for the
-- prices of products. The table is the list of its rows, oldest first.
-- The database, the catalog and the configuration are parameters; a column of type decimal is read
-- back as a number. The fixed fields of a request, the `updatedAt` column and the log are left out.
use orders_microservice.Base.Text.{
  text_or, is_digit, is_upper, is_empty, is_lower, text_or_empty, trim, Text, text_eq, lit,
}
use orders_microservice.Base.{
  map, take, ◌*◌, ltb, not, ◌==◌, Option, Result, Bool, List, ℕ, none, some, [], ◌∷◌, ok, throw,
  if◌then◌else◌, true, false, ◌&&◌, ◌||◌,
}
use Prim.Native.Nat.{◌^◌}
use orders_microservice.Json.{Number, finite, infinite, nan}
use orders_microservice.World.{Outcome, success, rejected, failure}
pub mod Response
pub mod Generate
pub mod Decide
pub mod Decisions
pub mod Table
pub mod Generated
pub mod Changes
pub mod Runs
pub mod Safe
pub mod Listing

pub record PriceSuggestion : Type 0 where
  pub id : Text
  pub product_id : Text
  pub product_name : Text
  pub current_price : Number
  pub suggested_price : Number
  pub change_percent : Number
  pub rationale : Option Text
  pub status : Text
  pub approved_at : Option ℕ
  pub approved_by : Option Text
  pub rejected_at : Option ℕ
  pub rejected_by : Option Text
  pub created_at : ℕ

pub record PricingActor : Type 0 where
  pub sub : Option Text
  pub email : Option Text

pub data PricingOperation : Type 0 where
  generate approve reject : PricingOperation

pub record PricingAudit : Type 0 where
  pub operation : PricingOperation
  pub resource_id : Text
  pub outcome : Outcome

-- the data of a request to the catalog
pub record PriceUpdate : Type 0 where
  pub product_id : Text
  pub base_price : Number

-- what `publishPricingPriceChanged` of src/orders/order-events.service.ts is called with
pub record PriceChanged : Type 0 where
  pub product_id : Text
  pub product_name : Text
  pub old_price : Number
  pub new_price : Number
  pub change_percent : Number
  pub approved_at : ℕ
  pub suggestion_id : Text

-- `requests` are the updates sent to the catalog and `accepted` those that it answered without an
-- error; these, the events and the audit entries are newest first.
pub record PricingState : Type 0 where
  pub rows : List PriceSuggestion
  pub requests : List PriceUpdate
  pub accepted : List PriceUpdate
  pub events : List PriceChanged
  pub audits : List PricingAudit

pub record PricingEnv : Type 0 where
  pub saves : PricingState → PriceSuggestion → Bool
  pub catalog_service_url : Text
  pub catalog_service_token : Text
  pub update_ok : PricingState → PriceUpdate → Bool
  pub clock : ℕ

pub data PricingError : Type 0 where
  suggestion_not_found : Text → PricingError
  already_decided : (id status : Text) → PricingError
  change_too_large : Number → PricingError
  invalid_suggested_price : Text → PricingError
  catalog_url_missing catalog_token_missing : PricingError
  catalog_update_failed : Text → PricingError
  suggestion_not_saved : PricingError

abbrev pub zero_number : Number
zero_number = finite false 0 0 0

-- `Number(x || 0)` for a number
abbrev pub number_or_zero : Number → Number
number_or_zero nan = zero_number
number_or_zero (infinite negative) = infinite negative
number_or_zero (finite negative m up down) =
    if m == 0 then zero_number else finite negative m up down

-- `Math.abs(n) > 30`
unfoldable pub exceeds_limit : Number → Bool
exceeds_limit nan = false
exceeds_limit (infinite _) = true
exceeds_limit (finite _ m up down) = ltb (30 * 2 ^ down) (m * 2 ^ up)

-- `Number.isFinite(n) && n > 0`
unfoldable pub is_positive_price : Number → Bool
is_positive_price (finite negative m _ _) = not negative && not (m == 0)
is_positive_price _ = false

-- a character that the actor's identifier keeps
unfoldable pub is_safe_unit : ℕ → Bool
is_safe_unit c =
    is_lower c
    || is_upper c
    || is_digit c
    || c == b'@'
    || c == b'.'
    || c == b'_'
    || c == b':'
    || c == b'-'

abbrev pub safe_unit : ℕ → ℕ
safe_unit c = if is_safe_unit c then c else b'_'

abbrev pub unknown_admin : Text
unknown_admin = lit "unknown-admin"

abbrev pub raw_actor : Option PricingActor → Text
raw_actor none = unknown_admin
raw_actor (some actor) =
    text_or (text_or_empty actor.sub) (text_or (text_or_empty actor.email) unknown_admin)

unfoldable pub to_safe_actor_id : Option PricingActor → Text
unfolding trim is_safe_unit
to_safe_actor_id actor = text_or (take 200 (map safe_unit (trim (raw_actor actor)))) unknown_admin

unfoldable pub find_suggestion : Text → List PriceSuggestion → Option PriceSuggestion
unfolding text_eq
find_suggestion id [] = none
find_suggestion id (r ∷ rs) = if text_eq r.id id then some r else find_suggestion id rs

-- an update by the primary key
unfoldable pub replace_suggestion : PriceSuggestion → List PriceSuggestion → List PriceSuggestion
unfolding text_eq
replace_suggestion row [] = []
replace_suggestion row (r ∷ rs) =
    if text_eq r.id row.id then row ∷ rs else r ∷ replace_suggestion row rs

abbrev pub note : PricingOperation → Text → Outcome → PricingState → PricingState
note operation id outcome s = record s {
  audits = record { operation = operation; resource_id = id; outcome = outcome } ∷ s.audits;
}

unfoldable pub is_pending : PriceSuggestion → Bool
unfolding text_eq
is_pending row = text_eq row.status (lit "pending")

abbrev pub price_update : PriceSuggestion → PriceUpdate
price_update row = record { product_id = row.product_id; base_price = row.suggested_price }
