-- ===== src/Pricing/Safe.antt =====
-- What src/pricing/pricing.service.ts lets through from the AI service and from an actor's token.
use orders_microservice.Base.Text.{
  text_or, lit, is_empty, is_space, Text, push_trimmed, trim, trim_end, trim_start,
}
use orders_microservice.Base.{
  all_sound, take-All, length-take-le, take, All-map, Bool-cases, if_both, map, All, length,
  or_else, Bool, List, Option, ℕ, ◌≡◌, ◌≢◌, ◌≤◌, refl, none, some, [], ◌∷◌, true, false, arith, inl,
  inr,
}
use orders_microservice.Pricing.Response.{
  text_candidates, is_object, as_number, first_parsed, is_control, parse_ai_suggestion,
  parse_candidate, try_parse_suggestion_payload, with_price, SuggestionResponse, collapse,
  to_bounded_rationale,
}
use orders_microservice.Json.{prop, Value, Number, undefined, null, bool, num, text, arr, obj}
use orders_microservice.Pricing.{
  raw_actor, unknown_admin, PricingActor, is_positive_price, safe_unit, is_safe_unit,
  to_safe_actor_id,
}
use mathlib.Core.Path.{subst}

-- no unit of the text is a control character
abbrev pub IsPlain : Text → Type 0
IsPlain s = All (λ c. is_control c ≡ false) s

collapse-All {ℓ} :
    (P : ℕ → Type ℓ) (test : ℕ → Bool) (inside : Bool) (s : Text)
    → P b' '
    → All (λ c. test c ≡ false → P c) s
    → All P (collapse test inside s)
unfolding collapse
collapse-All P test inside [] blank h = tt
collapse-All P test inside (c ∷ s) blank h =
    let rest = collapse-All P test (test c) s blank h.1 in
    elim (Bool-cases (test c)) [
      | inl yes' ↦ rw yes' (if_both (All P) inside (rw yes' at rest) (blank, rw yes' at rest))
      | inr no' ↦ rw no' (h.0 no', rw no' at rest)
    ]

trim_start-All {ℓ} : (P : ℕ → Type ℓ) (s : Text) → All P s → All P (trim_start s)
unfolding trim_start
trim_start-All P [] h = tt
trim_start-All P (c ∷ s) h = if_both (All P) (is_space c) (trim_start-All P s h.1) h

push_trimmed-All {ℓ} :
    (P : ℕ → Type ℓ) (c : ℕ) (s : Text) → P c → All P s → All P (push_trimmed c s)
unfolding push_trimmed
push_trimmed-All P c [] p h = if_both (All P) (is_space c) tt (p, tt)
push_trimmed-All P c (d ∷ s) p h = (p, h)

trim_end-All {ℓ} : (P : ℕ → Type ℓ) (s : Text) → All P s → All P (trim_end s)
unfolding trim_end
trim_end-All P [] h = tt
trim_end-All P (c ∷ s) h = push_trimmed-All P c (trim_end s) h.0 (trim_end-All P s h.1)

trim-All {ℓ} : (P : ℕ → Type ℓ) (s : Text) → All P s → All P (trim s)
unfolding trim
trim-All P s h = trim_end-All P (trim_start s) (trim_start-All P s h)

-- a rationale that fits, without control characters
pub record IsBounded (s : Text) : Type 0 where
  pub short : length s ≤ 280
  pub plain : IsPlain s

All-id : (test : ℕ → Bool) (s : Text) → All (λ c. test c ≡ false → test c ≡ false) s
All-id test [] = tt
All-id test (c ∷ s) = ((λ h. h), All-id test s)

to_bounded_rationale-IsBounded : (value : Text) → IsBounded (to_bounded_rationale value)
unfolding to_bounded_rationale is_control
to_bounded_rationale-IsBounded value =
    let plain =
      collapse-All (λ c. is_control c ≡ false) is_control false value refl
        (All-id is_control value) in
    let spaced =
      collapse-All (λ c. is_control c ≡ false) is_space false (collapse is_control false value) refl
        (All-map (λ c. is_control c ≡ false) (λ c. is_space c ≡ false → is_control c ≡ false)
          (collapse is_control false value) (λ c h _. h) plain) in
    let text' = trim (collapse is_space false (collapse is_control false value)) in
    record {
      short = length-take-le 280 text';
      plain =
          take-All (λ c. is_control c ≡ false) 280 text'
            (trim-All (λ c. is_control c ≡ false)
              (collapse is_space false (collapse is_control false value)) spaced);
    }

-- a usable suggestion
pub record IsUsable (parsed : SuggestionResponse) : Type 0 where
  pub positive : is_positive_price parsed.suggested_price ≡ true
  pub bounded : IsBounded parsed.rationale

-- of an answer that may be missing
abbrev AllOf : Option SuggestionResponse → Type 0
AllOf none = Unit
AllOf (some parsed) = IsUsable parsed

or_else-AllOf : (a b : Option SuggestionResponse) → AllOf a → AllOf b → AllOf (or_else a b)
or_else-AllOf none b p q = q
or_else-AllOf (some a) b p q = p

module _ (to_number : Value → Number) (parse_json : Text → Option Value) where
  with_price-AllOf : (price : Number) (v : Value) → AllOf (with_price to_number parse_json price v)
  unfolding with_price
  with_price-AllOf price (text s) = elim (Bool-cases (is_positive_price price)) [
    | inl good ↦ rw good (record { positive = good; bounded = to_bounded_rationale-IsBounded s })
    | inr bad ↦ rw bad tt
  ]
  with_price-AllOf price undefined = tt
  with_price-AllOf price null = tt
  with_price-AllOf price (bool _) = tt
  with_price-AllOf price (num _) = tt
  with_price-AllOf price (arr _) = tt
  with_price-AllOf price (obj _) = tt

  try_parse-AllOf : (v : Value) → AllOf (try_parse_suggestion_payload to_number parse_json v)
  unfolding try_parse_suggestion_payload
  try_parse-AllOf v =
      with_price-AllOf (as_number to_number parse_json (prop (lit "suggestedPrice") v))
        (prop (lit "rationale") v)

  parsed_text :
      (o : Option Value)
      → AllOf
          (elim o [ none ↦ none | some v ↦ try_parse_suggestion_payload to_number parse_json v ])
  parsed_text none = tt
  parsed_text (some v) = try_parse-AllOf v

  parse_candidate-AllOf : (v : Value) → AllOf (parse_candidate to_number parse_json v)
  unfolding parse_candidate
  parse_candidate-AllOf (text s) = if_both AllOf (is_empty (trim s)) tt (parsed_text (parse_json s))
  parse_candidate-AllOf undefined = tt
  parse_candidate-AllOf null = tt
  parse_candidate-AllOf (bool _) = tt
  parse_candidate-AllOf (num _) = tt
  parse_candidate-AllOf (arr _) = tt
  parse_candidate-AllOf (obj _) = tt

  first_parsed-AllOf : (vs : List Value) → AllOf (first_parsed to_number parse_json vs)
  unfolding first_parsed
  first_parsed-AllOf [] = tt
  first_parsed-AllOf (v ∷ vs) =
      or_else-AllOf (parse_candidate to_number parse_json v) (first_parsed to_number parse_json vs)
        (parse_candidate-AllOf v) (first_parsed-AllOf vs)

  parse_ai_suggestion-AllOf : (v : Value) → AllOf (parse_ai_suggestion to_number parse_json v)
  unfolding parse_ai_suggestion
  parse_ai_suggestion-AllOf v =
      if_both AllOf (is_object to_number parse_json v)
        (or_else-AllOf (try_parse_suggestion_payload to_number parse_json v)
          (first_parsed to_number parse_json (text_candidates to_number parse_json v))
          (try_parse-AllOf v) (first_parsed-AllOf (text_candidates to_number parse_json v)))
        tt

  -- Whatever the AI service answers, a suggestion that is read out of it has a price that is finite
  -- and more than zero, and a rationale of at most 280 units without control characters.
  pub parse_ai_suggestion-IsUsable :
      (answer : Value) {parsed : SuggestionResponse}
      → parse_ai_suggestion to_number parse_json answer ≡ some parsed
      → IsUsable parsed
  parse_ai_suggestion-IsUsable answer h = subst AllOf h (parse_ai_suggestion-AllOf answer)

safe_unit_safe : (c : ℕ) → is_safe_unit (safe_unit c) ≡ true
unfolding is_safe_unit
safe_unit_safe c = elim (Bool-cases (is_safe_unit c)) [
  | inl good ↦ rw (good, is_safe_unit) good
  | inr bad ↦ rw (bad, is_safe_unit) refl
]

map-safe_unit-All : (s : Text) → All (λ c. is_safe_unit c ≡ true) (map safe_unit s)
map-safe_unit-All [] = tt
map-safe_unit-All (c ∷ s) = (safe_unit_safe c, map-safe_unit-All s)

-- an identifier for the records
pub record IsSafeActor (s : Text) : Type 0 where
  pub given : s ≢ []
  pub short : length s ≤ 200
  pub safe : All (λ c. is_safe_unit c ≡ true) s

or_unknown :
    (s : Text)
    → length s ≤ 200
    → All (λ c. is_safe_unit c ≡ true) s
    → IsSafeActor (text_or s unknown_admin)
unfolding is_safe_unit
or_unknown [] short safe = record {
  given = ground arith;
  short = omega arith;
  safe = all_sound is_safe_unit unknown_admin refl;
}
or_unknown (c ∷ s) short safe = record { given = cc; short = short; safe = safe }

-- Whoever decides on a suggestion, the identifier that is stored for it is not empty, has 200 units
-- at most, and has none but ASCII letters, digits and `@._:-`.
pub to_safe_actor_id-IsSafeActor :
    (actor : Option PricingActor) → IsSafeActor (to_safe_actor_id actor)
unfolding to_safe_actor_id
to_safe_actor_id-IsSafeActor actor =
    let cleaned = map safe_unit (trim (raw_actor actor)) in
    or_unknown (take 200 cleaned) (length-take-le 200 cleaned) (
      take-All (λ c. is_safe_unit c ≡ true) 200 cleaned
        (map-safe_unit-All (trim (raw_actor actor))))
