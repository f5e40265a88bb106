-- ===== src/Pricing/Response.antt =====
-- src/pricing/pricing.service.ts: what is read out of the AI service's answer. `JSON.parse` and
-- `Number` are parameters; a text that `JSON.parse` refuses is nothing.
use orders_microservice.Base.{
  take, ◌==◌, leb, or_else, Option, Bool, List, ℕ, none, some, [], ◌∷◌, if◌then◌else◌, true, false,
  ◌||◌,
}
use orders_microservice.Base.Text.{is_empty, lit, is_space, trim, Text}
use orders_microservice.Json.{get, prop, Number, Value, num, text, obj, arr}
use orders_microservice.Pricing.{is_positive_price}

pub record SuggestionResponse : Type 0 where
  pub suggested_price : Number
  pub rationale : Text

-- `/[\u0000-\u001f\u007f]/`
unfoldable pub is_control : ℕ → Bool
is_control c = leb c 0x1f || c == 0x7f

-- `replace(/[…]+/g, ' ')`: a run of units that pass the test becomes one space; `inside` says
-- whether the unit before was in a run.
unfoldable pub collapse : (ℕ → Bool) → Bool → Text → Text
collapse test inside [] = []
collapse test inside (c ∷ s) =
    let rest = collapse test (test c) s in
    if test c then (if inside then rest else b' ' ∷ rest) else c ∷ rest

abbrev pub max_rationale_length : ℕ
max_rationale_length = 280

unfoldable pub to_bounded_rationale : Text → Text
unfolding collapse is_control is_space trim
to_bounded_rationale value =
    take max_rationale_length (trim (collapse is_space false (collapse is_control false value)))

module _ (to_number : Value → Number) (parse_json : Text → Option Value) where
  abbrev pub as_number : Value → Number
  as_number (num n) = n
  as_number value = to_number value

  unfoldable pub with_price : Number → Value → Option SuggestionResponse
  unfolding is_positive_price to_bounded_rationale
  with_price price (text rationale) =
      if is_positive_price price
      then some (record { suggested_price = price; rationale = to_bounded_rationale rationale })
      else none
  with_price price _ = none

  unfoldable pub try_parse_suggestion_payload : Value → Option SuggestionResponse
  unfolding with_price get
  try_parse_suggestion_payload payload =
      with_price (as_number (prop (lit "suggestedPrice") payload)) (prop (lit "rationale") payload)

  -- one round of the loop over the texts; `JSON.parse` may give null, whose fields cannot be read
  unfoldable pub parse_candidate : Value → Option SuggestionResponse
  unfolding try_parse_suggestion_payload trim
  parse_candidate (text candidate) =
      if is_empty (trim candidate) then none else elim (parse_json candidate) [
        | none ↦ none
        | some payload ↦ try_parse_suggestion_payload payload
      ]
  parse_candidate _ = none

  unfoldable pub first_parsed : List Value → Option SuggestionResponse
  unfolding parse_candidate
  first_parsed [] = none
  first_parsed (v ∷ vs) = or_else (parse_candidate v) (first_parsed vs)

  abbrev pub text_candidates : Value → List Value
  text_candidates answer =
      prop (lit "text") answer
      ∷ prop (lit "content") answer
      ∷ prop (lit "result") answer
      ∷ prop (lit "response") answer
      ∷ []

  abbrev pub is_object : Value → Bool
  is_object (obj _) = true
  is_object (arr _) = true
  is_object _ = false

  unfoldable pub parse_ai_suggestion : Value → Option SuggestionResponse
  unfolding try_parse_suggestion_payload first_parsed get
  parse_ai_suggestion answer =
      if is_object answer
      then or_else (try_parse_suggestion_payload answer) (first_parsed (text_candidates answer))
      else none
