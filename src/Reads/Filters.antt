-- ===== src/Reads/Filters.antt =====
-- The filters of a lifecycle read in src/orders/order-lifecycle.ts. `new Date` and `Number` are
-- parameters.
use orders_microservice.Base.{
  leb, not, throw_if, ltb, Option, Result, Bool, ℕ, none, some, ok, throw, if◌then◌else◌, ◌>>=◌,
  ◌>>◌, false, ◌&&◌,
}
use orders_microservice.Json.{is_negative, whole_part, is_integer, Number}
use orders_microservice.Lifecycle.Derive.{normalize_optional_string}
use orders_microservice.Base.Text.{to_lower_case, is_empty, Text, lit}
use orders_microservice.Lifecycle.{
  normalize_order_lifecycle_stage, OrderLifecycleStage, LifecycleError,
}

-- an absent filter is the empty text
pub record OrderLifecycleReadFilters : Type 0 where
  pub channel : Text
  pub status : Text
  pub lifecycle_stage : Text
  pub payment_status : Text
  pub from_date : Text
  pub to_date : Text
  pub limit : Text

pub record NormalizedOrderLifecycleReadFilters : Type 0 where
  pub channel : Option Text
  pub status : Option Text
  pub lifecycle_stage : Option OrderLifecycleStage
  pub payment_status : Option Text
  pub from_date : Option ℕ
  pub to_date : Option ℕ
  pub limit : ℕ

pub data ReadError : Type 0 where
  invalid_date : (field : Text) → ReadError
  from_after_to invalid_limit : ReadError
  invalid_stage : LifecycleError → ReadError
  subject_required : ReadError
  order_not_found : Text → ReadError

pub record Readers : Type 0 where
  pub parse_date : Text → Option ℕ
  pub to_number : Text → Number

unfoldable pub normalize_optional_key : Text → Option Text
unfolding normalize_optional_string to_lower_case
normalize_optional_key value = elim (normalize_optional_string (some value)) [
  | none ↦ none
  | some s ↦ some (to_lower_case s)
]

-- `from && to && from.getTime() > to.getTime()`
abbrev pub is_after : Option ℕ → Option ℕ → Bool
is_after (some a) (some b) = ltb b a
is_after _ _ = false

-- the error of the stage's name, as an error of the read
abbrev pub stage_of :
    Result LifecycleError (Option OrderLifecycleStage)
    → Result ReadError (Option OrderLifecycleStage)
stage_of (ok stage) = ok stage
stage_of (throw e) = throw (invalid_stage e)

-- `Number.isInteger(n) && n >= 1 && n <= 250`
unfoldable pub is_limit : Number → Bool
is_limit n = is_integer n && not (is_negative n) && leb 1 (whole_part n) && leb (whole_part n) 250

module _ (r : Readers) where
  unfoldable pub normalize_optional_date : Text → Text → Result ReadError (Option ℕ)
  normalize_optional_date value name =
      if is_empty value
      then ok none
      else elim (r.parse_date value) [ none ↦ throw (invalid_date name) | some d ↦ ok (some d) ]

  unfoldable pub normalize_limit : Text → Result ReadError ℕ
  unfolding is_limit
  normalize_limit value =
      if is_empty value
      then ok 100
      else if is_limit (r.to_number value)
      then ok (whole_part (r.to_number value))
      else throw invalid_limit

  unfoldable pub normalize_order_lifecycle_read_filters :
      OrderLifecycleReadFilters → Result ReadError NormalizedOrderLifecycleReadFilters
  unfolding normalize_optional_date normalize_limit normalize_optional_key
      normalize_order_lifecycle_stage
  normalize_order_lifecycle_read_filters filters = do
    from_date ← normalize_optional_date filters.from_date (lit "from")
    to_date ← normalize_optional_date filters.to_date (lit "to")
    throw_if (is_after from_date to_date) from_after_to
    stage ← stage_of (normalize_order_lifecycle_stage filters.lifecycle_stage)
    limit ← normalize_limit filters.limit
    ok (record {
      channel = normalize_optional_key filters.channel;
      status = normalize_optional_key filters.status;
      lifecycle_stage = stage;
      payment_status = normalize_optional_key filters.payment_status;
      from_date = from_date;
      to_date = to_date;
      limit = limit;
    })
