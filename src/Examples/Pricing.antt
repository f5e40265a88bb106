-- ===== src/Examples/Pricing.antt =====
-- The theorems on price suggestions, at a product with one suggestion.
use orders_microservice.Base.{
  length, Option, none, some, [], ◌∷◌, true, false, refl, ◌≤◌, ◌≡◌, ◌+◌, ℕ,
}
use orders_microservice.Pricing.Changes.{IsDecidedAt, IsValid}
use orders_microservice.Pricing.Decide.{approve_suggestion, reject_suggestion, rejected_row}
use orders_microservice.Pricing.Generate.{
  has_open, is_open, load_candidate_products, GenerateEnv, generate_suggestions,
}
use orders_microservice.Pricing.Safe.{parse_ai_suggestion-IsUsable, IsUsable}
use orders_microservice.Pricing.{
  is_pending, find_suggestion, PricingActor, PricingEnv, PricingState, PriceSuggestion,
}
use orders_microservice.Pricing.Generated.{generate_suggestions_lem}
use orders_microservice.Pricing.Listing.{list_suggestions-IsPage, list_suggestions, IsPage}
use orders_microservice.Pricing.Runs.{
  PricingRuns-IsDecidedAt, approves, generates, done, then_run, PricingRuns, PricingRuns-IsValid,
}
use orders_microservice.Base.Text.{lit, text_eq}
use orders_microservice.Pricing.Response.{SuggestionResponse, parse_ai_suggestion}
use orders_microservice.Pricing.Decisions.{approve_suggestion_lem, Approval}
use orders_microservice.Json.{Value, Number, finite, nan, num, text, obj, field, end}

abbrev crowns : ℕ → Number
crowns n = finite false n 0 0

abbrev suggestion : PriceSuggestion
suggestion = record {
  id = lit "s1";
  product_id = lit "p1";
  product_name = lit "Kettle";
  current_price = crowns 100;
  suggested_price = crowns 110;
  change_percent = crowns 10;
  rationale = none;
  status = lit "pending";
  approved_at = none;
  approved_by = none;
  rejected_at = none;
  rejected_by = none;
  created_at = 1;
}

abbrev shop : PricingState
shop = record { rows = suggestion ∷ []; requests = []; accepted = []; events = []; audits = [] }

abbrev obliging : PricingEnv
obliging = record {
  saves = λ s row. true;
  catalog_service_url = lit "http://catalog";
  catalog_service_token = lit "token";
  update_ok = λ s update. true;
  clock = 5;
}

abbrev ai_answer : Value
ai_answer = obj (
    field (lit "suggestedPrice") (num (crowns 55))
      (field (lit "rationale") (text (lit "Sells  well")) end))

abbrev generator : GenerateEnv
generator = record {
  pricing = obliging;
  sold_products = some (
      record {
        product_id = some (lit "p2");
        product_name = some (lit "Mug");
        current_price = some (crowns 50);
      }
      ∷ []);
  finds = λ s id. true;
  complete = λ s product. some ai_answer;
  to_number = λ v. nan;
  parse_json = λ s. none;
  change_percent = λ suggested current. crowns 10;
  stored_price = λ n. n;
  new_id = λ s. lit "s2";
}

abbrev manager : Option PricingActor
manager = some (record { sub = some (lit "anna novak"); email = none })

approve_suggestion_lem_example :
    let (s', r) = approve_suggestion obliging (lit "s1") manager shop in
    Approval obliging (lit "s1") manager shop s' r
approve_suggestion_lem_example = approve_suggestion_lem obliging (lit "s1") manager shop

abbrev generated_shop : PricingState
unfolding generate_suggestions
generated_shop = (generate_suggestions generator shop).0

abbrev approved_shop : PricingState
unfolding approve_suggestion
approved_shop = (approve_suggestion obliging (lit "s2") manager generated_shop).0

abbrev two_runs : PricingRuns shop approved_shop
unfolding generate_suggestions approve_suggestion
two_runs = then_run (then_run done (generates generator)) (approves obliging (lit "s2") manager)

shop-IsValid : IsValid shop
unfolding text_eq is_open has_open
shop-IsValid = record { single = (refl, tt); priced = (λ is. cc, tt) }

PricingRuns-IsValid_example : IsValid approved_shop
PricingRuns-IsValid_example = PricingRuns-IsValid two_runs shop-IsValid

abbrev rejected_shop : PricingState
unfolding reject_suggestion
rejected_shop = (reject_suggestion obliging (lit "s1") manager shop).0

abbrev turned_down : PriceSuggestion
turned_down = rejected_row obliging (lit "anna_novak") suggestion

abbrev retried_shop : PricingState
unfolding approve_suggestion
retried_shop = (approve_suggestion obliging (lit "s1") manager rejected_shop).0

turned_down_lem : IsDecidedAt (lit "s1") turned_down rejected_shop
unfolding reject_suggestion find_suggestion is_pending
turned_down_lem = (refl, refl)

PricingRuns-IsDecidedAt_example : IsDecidedAt (lit "s1") turned_down retried_shop
unfolding approve_suggestion
PricingRuns-IsDecidedAt_example =
    PricingRuns-IsDecidedAt {s = rejected_shop} {s' = retried_shop} (lit "s1") turned_down
      (then_run done (approves obliging (lit "s1") manager)) turned_down_lem

generate_suggestions_lem_example :
    let (s', counts) = generate_suggestions generator shop in
    (counts.generated + counts.skipped ≡ length (load_candidate_products generator))
    × (counts.generated + counts.skipped ≤ 50)
    × (length s'.rows ≡ length shop.rows + counts.generated)
    × (s'.accepted ≡ shop.accepted)
    × (s'.events ≡ shop.events)
generate_suggestions_lem_example = generate_suggestions_lem generator shop

abbrev read_answer : SuggestionResponse
read_answer = record { suggested_price = crowns 55; rationale = lit "Sells well" }

parse_ai_suggestion-IsUsable_example : IsUsable read_answer
unfolding parse_ai_suggestion text_eq
parse_ai_suggestion-IsUsable_example =
    parse_ai_suggestion-IsUsable (λ v. nan) (λ s. none) ai_answer {parsed = read_answer} refl

list_suggestions-IsPage_example : IsPage (list_suggestions (lit "5") (lit " Pending") shop)
list_suggestions-IsPage_example = list_suggestions-IsPage (lit "5") (lit " Pending") shop
