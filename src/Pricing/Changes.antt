-- ===== src/Pricing/Changes.antt =====
-- The changes that the operations of src/pricing/pricing.service.ts make to the table, and what holds
-- across each.
use orders_microservice.Pricing.{
  replace_suggestion, find_suggestion, price_update, PriceUpdate, is_pending, PriceSuggestion,
  PricingState,
}
use orders_microservice.Pricing.Generate.{has_open, is_open}
use orders_microservice.Pricing.Table.{
  append-All, append-IsSingle, find_suggestion-append, replace_suggestion-All,
  find_suggestion-replace_suggestion, replace_suggestion-IsSingle, IsSingle,
}
use orders_microservice.Base.{
  All, All-map, Bool, List, ◌≡◌, some, [], ◌∷◌, ◌++◌, true, false, arith,
}
use orders_microservice.Base.Text.{lit, Text, text_eq}

-- the catalog accepted the price of the suggestion
pub data IsAccepted (u : PriceUpdate) : List PriceUpdate → Type 0 where
  newest : (us : List PriceUpdate) → IsAccepted u (u ∷ us)
  earlier : {v : PriceUpdate} {us : List PriceUpdate} → IsAccepted u us → IsAccepted u (v ∷ us)

abbrev pub is_approved : PriceSuggestion → Bool
is_approved row = text_eq row.status (lit "approved")

abbrev pub IsPriced : List PriceUpdate → PriceSuggestion → Type 0
IsPriced accepted row = is_approved row ≡ true → IsAccepted (price_update row) accepted

-- each product has one open suggestion at most, and the catalog accepted each approved price
pub record IsValid (s : PricingState) : Type 0 where
  pub single : IsSingle s.rows
  pub priced : All (IsPriced s.accepted) s.rows

-- what an operation does to the table, in steps
pub data Change (s s' : PricingState) : Type 0 where
  same : s'.rows ≡ s.rows → s'.accepted ≡ s.accepted → Change s s'
  charged : (u : PriceUpdate) → s'.rows ≡ s.rows → s'.accepted ≡ u ∷ s.accepted → Change s s'
  granted :
      (new old : PriceSuggestion)
      → find_suggestion new.id s.rows ≡ some old
      → is_pending old ≡ true
      → new.product_id ≡ old.product_id
      → s'.rows ≡ replace_suggestion new s.rows
      → s'.accepted ≡ price_update new ∷ s.accepted
      → Change s s'
  turned_down :
      (new old : PriceSuggestion)
      → find_suggestion new.id s.rows ≡ some old
      → is_pending old ≡ true
      → new.product_id ≡ old.product_id
      → is_approved new ≡ false
      → s'.rows ≡ replace_suggestion new s.rows
      → s'.accepted ≡ s.accepted
      → Change s s'
  inserted :
      (row : PriceSuggestion)
      → has_open row.product_id s.rows ≡ false
      → is_approved row ≡ false
      → s'.rows ≡ s.rows ++ row ∷ []
      → s'.accepted ≡ s.accepted
      → Change s s'

pending_open : (row : PriceSuggestion) → is_pending row ≡ true → is_open row ≡ true
unfolding is_pending is_open
pending_open row h = ground (arith, h)

IsPriced-more :
    (u : PriceUpdate) (accepted : List PriceUpdate) (row : PriceSuggestion)
    → IsPriced accepted row
    → IsPriced (u ∷ accepted) row
IsPriced-more u accepted row h is = earlier (h is)

unapproved :
    (accepted : List PriceUpdate) (row : PriceSuggestion)
    → is_approved row ≡ false
    → IsPriced accepted row
unapproved accepted row isnt is = cc

pub Change-IsValid : {s s' : PricingState} → Change s s' → IsValid s → IsValid s'
Change-IsValid {s} {s'} (same rows accepted) v = record {
  single = rw rows v.single;
  priced = rw (rows, accepted) v.priced;
}
Change-IsValid {s} {s'} (charged u rows accepted) v = record {
  single = rw rows v.single;
  priced =
      rw (rows, accepted)
        (All-map (IsPriced s.accepted) (IsPriced (u ∷ s.accepted)) s.rows
          (λ row. IsPriced-more u s.accepted row) v.priced);
}
Change-IsValid {s} {s'} (granted new old was pending alike rows accepted) v = record {
  single =
      rw rows
        (replace_suggestion-IsSingle s.rows new old was alike (pending_open old pending) v.single);
  priced =
      rw (rows, accepted)
        (replace_suggestion-All (IsPriced (price_update new ∷ s.accepted)) s.rows new
          (λ _. newest s.accepted)
          (All-map (IsPriced s.accepted) (IsPriced (price_update new ∷ s.accepted)) s.rows
            (λ row. IsPriced-more (price_update new) s.accepted row) v.priced));
}
Change-IsValid {s} {s'} (turned_down new old was pending alike isnt rows accepted) v = record {
  single =
      rw rows
        (replace_suggestion-IsSingle s.rows new old was alike (pending_open old pending) v.single);
  priced =
      rw (rows, accepted)
        (replace_suggestion-All (IsPriced s.accepted) s.rows new (unapproved s.accepted new isnt)
          v.priced);
}
Change-IsValid {s} {s'} (inserted row alone isnt rows accepted) v = record {
  single = rw rows (append-IsSingle s.rows row alone v.single);
  priced =
      rw (rows, accepted)
        (append-All (IsPriced s.accepted) s.rows row (unapproved s.accepted row isnt) v.priced);
}

-- a decided suggestion of the table
abbrev pub IsDecidedAt : Text → PriceSuggestion → PricingState → Type 0
IsDecidedAt id row s = (find_suggestion id s.rows ≡ some row) × (is_pending row ≡ false)

pub Change-IsDecidedAt :
    {s s' : PricingState} (id : Text) (row : PriceSuggestion)
    → Change s s'
    → IsDecidedAt id row s
    → IsDecidedAt id row s'
Change-IsDecidedAt id row (same rows accepted) h = rw rows h
Change-IsDecidedAt id row (charged u rows accepted) h = rw rows h
Change-IsDecidedAt {s} {s'} id row (granted new old was pending alike rows accepted) h = (
  rw rows (find_suggestion-replace_suggestion is_pending id s.rows new old row was pending h.0 h.1),
  h.1,
)
Change-IsDecidedAt {s} {s'} id row (turned_down new old was pending alike isnt rows accepted) h = (
  rw rows (find_suggestion-replace_suggestion is_pending id s.rows new old row was pending h.0 h.1),
  h.1,
)
Change-IsDecidedAt {s} {s'} id row (inserted new alone isnt rows accepted) h =
    (rw rows (find_suggestion-append id s.rows (new ∷ []) h.0), h.1)

-- the changes of one operation, one after the other
pub data Changes : PricingState → PricingState → Type 0 where
  unchanged : {s : PricingState} → Changes s s
  more : {s t u : PricingState} → Change s t → Changes t u → Changes s u
