-- ===== src/Pricing/Generate.antt =====
-- src/pricing/pricing.service.ts: generating suggestions for the products sold last. The query for
-- the products, the AI service and the arithmetic on prices are parameters; a call that throws
-- answers nothing.
use orders_microservice.Base.Text.{text_or, is_empty, lit, non_empty, text_eq, text_or_empty, Text}
use orders_microservice.Base.{
  take, map, filter, not, Option, Bool, List, ℕ, none, some, [], ◌∷◌, if◌then◌else◌, true, false,
  ◌&&◌, ◌||◌, ◌+◌, ◌++◌,
}
use orders_microservice.Pricing.{
  number_or_zero, zero_number, generate, is_positive_price, note, PricingState, PriceSuggestion,
  PricingEnv,
}
use orders_microservice.Pricing.Response.{SuggestionResponse, parse_ai_suggestion}
use orders_microservice.Json.{Number, Value}
use orders_microservice.World.{success}

-- a row of the query's result
pub record CandidateRow : Type 0 where
  pub product_id : Option Text
  pub product_name : Option Text
  pub current_price : Option Number

pub record Candidate : Type 0 where
  pub product_id : Text
  pub product_name : Text
  pub current_price : Number

-- `stored_price` is the number that a column of scale 2 gives back.
pub record GenerateEnv : Type 0 where
  pub pricing : PricingEnv
  pub sold_products : Option (List CandidateRow)
  pub finds : PricingState → Text → Bool
  pub complete : PricingState → Candidate → Option Value
  pub to_number : Value → Number
  pub parse_json : Text → Option Value
  pub change_percent : (suggested current : Number) → Number
  pub stored_price : Number → Number
  pub new_id : PricingState → Text

abbrev pub max_limit : ℕ
max_limit = 50

abbrev pub to_candidate : CandidateRow → Candidate
to_candidate row = record {
  product_id = text_or_empty row.product_id;
  product_name = text_or (text_or_empty row.product_name) (lit "Unknown product");
  current_price = elim row.current_price [ none ↦ zero_number | some n ↦ number_or_zero n ];
}

abbrev pub is_candidate : Candidate → Bool
is_candidate c = not (is_empty c.product_id) && is_positive_price c.current_price

-- `In(['pending', 'approved'])`
unfoldable pub is_open : PriceSuggestion → Bool
unfolding text_eq
is_open row = text_eq row.status (lit "pending") || text_eq row.status (lit "approved")

unfoldable pub has_open : Text → List PriceSuggestion → Bool
unfolding text_eq is_open
has_open product_id [] = false
has_open product_id (r ∷ rs) =
    (text_eq r.product_id product_id && is_open r) || has_open product_id rs

pub record Generated : Type 0 where
  pub generated : ℕ
  pub skipped : ℕ

module _ (g : GenerateEnv) where
  unfoldable pub load_candidate_products : List Candidate
  unfolding is_positive_price
  load_candidate_products = elim g.sold_products [
    | none ↦ []
    | some rows ↦ filter is_candidate (map to_candidate (take max_limit rows))
  ]

  unfoldable pub new_suggestion : Candidate → SuggestionResponse → PricingState → PriceSuggestion
  new_suggestion product parsed s = record {
    id = g.new_id s;
    product_id = product.product_id;
    product_name = product.product_name;
    current_price = g.stored_price product.current_price;
    suggested_price = g.stored_price parsed.suggested_price;
    change_percent = g.change_percent parsed.suggested_price product.current_price;
    rationale = non_empty parsed.rationale;
    status = lit "pending";
    approved_at = none;
    approved_by = none;
    rejected_at = none;
    rejected_by = none;
    created_at = g.pricing.clock;
  }

  -- the state after one product, and whether a suggestion was generated for it
  unfoldable pub generate_one : Candidate → PricingState → PricingState × Bool
  unfolding has_open parse_ai_suggestion new_suggestion
  generate_one product s =
      if not (g.finds s product.product_id) || has_open product.product_id s.rows
      then (s, false)
      else elim (g.complete s product) [
        | none ↦ (s, false)
        | some answer ↦ elim (parse_ai_suggestion g.to_number g.parse_json answer) [
          | none ↦ (s, false)
          | some parsed ↦
              let row = new_suggestion product parsed s in
              if g.pricing.saves s row
              then (record s { rows = s.rows ++ row ∷ [] }, true)
              else (s, false)
        ]
      ]

  abbrev pub count_one : Bool → Generated → Generated
  count_one true c = record c { generated = c.generated + 1 }
  count_one false c = record c { skipped = c.skipped + 1 }

  -- the loop, with the counts so far
  unfoldable pub generate_all : List Candidate → Generated → PricingState → PricingState × Generated
  unfolding generate_one
  generate_all [] counts s = (s, counts)
  generate_all (p ∷ ps) counts s =
      let (s', done) = generate_one p s in generate_all ps (count_one done counts) s'

  unfoldable pub generate_suggestions : PricingState → PricingState × Generated
  unfolding generate_all load_candidate_products
  generate_suggestions s =
      let (s', counts) =
        generate_all load_candidate_products (record { generated = 0; skipped = 0 }) s in
      (note generate [] success s', counts)
