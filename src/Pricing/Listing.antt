-- ===== src/Pricing/Listing.antt =====
-- src/pricing/pricing.service.ts: the list of suggestions. A repository's `order` is a sort, which
-- leaves rows of equal instants as they were.
use orders_microservice.Base.{
  take, newest_first-IsNewestFirst, take-IsNewestFirst, filter-All, IsNewestFirst, newest_first-All,
  true, inr, ◌≡◌, All, inl, take-All, Option-cases, arith, length, length-take-le, none, some, Bool,
  List, filter, if◌then◌else◌, newest_first, ℕ, ◌≤◌,
}
use orders_microservice.Base.ParseInt.{clamp, parse_signed}
use orders_microservice.Base.Text.{lit, is_empty, to_lower_case, Text, text_eq, trim, trim_start}
use orders_microservice.Pricing.Generate.{max_limit}
use orders_microservice.Pricing.{PriceSuggestion, PricingState}

unfoldable pub clamped_limit : Text → ℕ
unfolding trim_start parse_signed
clamped_limit limit = elim (parse_signed (trim_start limit)) [
  | none ↦ max_limit
  | some n ↦ clamp max_limit n
]

unfoldable pub normalized_status : Text → Text
unfolding trim to_lower_case
normalized_status status =
    if is_empty (trim status) then lit "pending" else to_lower_case (trim status)

abbrev pub suggested_at : PriceSuggestion → ℕ
suggested_at row = row.created_at

pub record SuggestionPage : Type 0 where
  pub items : List PriceSuggestion
  pub total : ℕ
  pub limit : ℕ
  pub status : Text

abbrev pub has_status : Text → PriceSuggestion → Bool
has_status status row = text_eq row.status status

-- the columns of a row are passed on, with its prices as numbers and its dates as texts
unfoldable pub list_suggestions : Text → Text → PricingState → SuggestionPage
unfolding clamped_limit normalized_status newest_first text_eq
list_suggestions limit status s =
    let wanted = normalized_status status in
    let found = filter (has_status wanted) s.rows in
    record {
      items = take (clamped_limit limit) (newest_first suggested_at found);
      total = length found;
      limit = clamped_limit limit;
      status = wanted;
    }

clamp_between : (n : ℕ) → (1 ≤ clamp max_limit n) × (clamp max_limit n ≤ max_limit)
clamp_between n = (ground arith, ground arith)

clamped_limit_between : (limit : Text) → (1 ≤ clamped_limit limit) × (clamped_limit limit ≤ 50)
unfolding clamped_limit
clamped_limit_between limit = elim (Option-cases (parse_signed (trim_start limit))) [
  | inl unread ↦ rw (unread, clamped_limit) (omega arith, omega arith)
  | inr (n, read) ↦ rw (read, clamped_limit) (clamp_between n)
]

-- a page of the list
pub record IsPage (page : SuggestionPage) : Type 0 where
  pub bounded : (1 ≤ page.limit) × (page.limit ≤ 50)
  pub short : length page.items ≤ page.limit
  pub alike : All (λ row. text_eq row.status page.status ≡ true) page.items
  pub newest : IsNewestFirst suggested_at page.items

-- Whatever limit and status are asked for, the list has a limit from one to fifty, no more items than
-- its limit, items of its status only, and the newest first.
pub list_suggestions-IsPage :
    (limit status : Text) (s : PricingState) → IsPage (list_suggestions limit status s)
unfolding list_suggestions
list_suggestions-IsPage limit status s =
    let wanted = normalized_status status in
    let found = filter (has_status wanted) s.rows in
    record {
      bounded = clamped_limit_between limit;
      short = length-take-le (clamped_limit limit) (newest_first suggested_at found);
      alike =
          take-All (λ row. text_eq row.status wanted ≡ true) (clamped_limit limit)
            (newest_first suggested_at found)
            (newest_first-All suggested_at (λ row. text_eq row.status wanted ≡ true) found
              (filter-All (has_status wanted) s.rows));
      newest =
          take-IsNewestFirst suggested_at (clamped_limit limit) (newest_first suggested_at found)
            (newest_first-IsNewestFirst suggested_at found);
    }
