-- ===== src/Pricing/Runs.antt =====
-- What any number of runs of the operations of src/pricing/pricing.service.ts leave of the table.
use orders_microservice.Pricing.Changes.{
  unchanged, granted, Change-IsDecidedAt, Change-IsValid, charged, inserted, turned_down, more,
  same, Change, Changes, IsDecidedAt, IsValid,
}
use orders_microservice.Pricing.Decide.{
  approved_row, rejected_row, reject_suggestion, approve_suggestion,
}
use orders_microservice.Json.{Number}
use orders_microservice.Pricing.Generated.{added, generate_one_lem, passed_over, OneProduct}
use orders_microservice.Pricing.Decisions.{
  refused, not_stored, stored, reject_suggestion_lem, approve_suggestion_lem, Approval, Rejection,
}
use orders_microservice.Pricing.{
  to_safe_actor_id, PricingError, PricingActor, find_suggestion, price_update, PricingEnv,
  PriceSuggestion, PricingState,
}
use orders_microservice.Pricing.Generate.{
  count_one, load_candidate_products, generate_one, Generated, GenerateEnv, Candidate, generate_all,
  generate_suggestions,
}
use orders_microservice.Pricing.Table.{find_suggestion_id}
use orders_microservice.Base.Text.Laws.{text_eq_iff}
use mathlib.Core.Path.{subst}
use orders_microservice.Base.{Result, Bool, List, Option, ◌≡◌, refl, sym, ap, some, [], ◌∷◌}
use orders_microservice.Base.Text.{Text, text_eq}

-- One run of an operation, with the state that it leaves: the database and the services answer each
-- run as they like.
pub data PricingRun (s : PricingState) : PricingState → Type 0 where
  approves :
      (e : PricingEnv) (id : Text) (actor : Option PricingActor)
      → PricingRun s (approve_suggestion e id actor s).0
  rejects :
      (e : PricingEnv) (id : Text) (actor : Option PricingActor)
      → PricingRun s (reject_suggestion e id actor s).0
  generates : (g : GenerateEnv) → PricingRun s (generate_suggestions g s).0

pub data PricingRuns (s : PricingState) : PricingState → Type 0 where
  done : PricingRuns s s
  then_run : {t u : PricingState} → PricingRuns s t → PricingRun t u → PricingRuns s u

-- the suggestion that was found is the one that an update replaces
found_id :
    (id : Text) (s : PricingState) (row : PriceSuggestion)
    → find_suggestion id s.rows ≡ some row
    → find_suggestion row.id s.rows ≡ some row
found_id id s row h =
    subst (λ x. find_suggestion x s.rows ≡ some row)
      (sym ((text_eq_iff row.id id).0 (find_suggestion_id id s.rows h))) h

Approval-Change :
    (e : PricingEnv) (id : Text) (actor : Option PricingActor) (s s' : PricingState)
    (r : Result PricingError Number)
    → Approval e id actor s s' r
    → Change s s'
Approval-Change e id actor s s' _ (refused error rows accepted events) = same rows accepted
Approval-Change e id actor s s' _ (not_stored row fit rows accepted events) =
    charged (price_update row) rows accepted
Approval-Change e id actor s s' _ (stored row fit rows accepted events) =
    granted (approved_row e (to_safe_actor_id actor) row) row (found_id id s row fit.at_hand.found)
      fit.at_hand.pending refl rows accepted

Rejection-Change :
    (e : PricingEnv) (id : Text) (actor : Option PricingActor) (s s' : PricingState)
    (r : Result PricingError (Unit {0}))
    → Rejection e id actor s s' r
    → Change s s'
unfolding text_eq
Rejection-Change e id actor s s' _ (refused error rows accepted events) = same rows accepted
Rejection-Change e id actor s s' _ (stored row there rows accepted events) =
    turned_down (rejected_row e (to_safe_actor_id actor) row) row (found_id id s row there.found)
      there.pending refl refl rows accepted

Changes-then : {s t u : PricingState} → Changes s t → Changes t u → Changes s u
Changes-then unchanged d = d
Changes-then (more c cs) d = more c (Changes-then cs d)

OneProduct-Changes :
    {product : Candidate} {s s' : PricingState} {found : Bool}
    → OneProduct product s s' found
    → Changes s s'
unfolding text_eq
OneProduct-Changes (passed_over e) =
    more (same (ap (λ x. x.rows) e) (ap (λ x. x.accepted) e)) unchanged
OneProduct-Changes {product} {s} (added row new e) =
    more
      (inserted row (rw new.same_product new.alone) (rw new.pending refl) (ap (λ x. x.rows) e)
        (ap (λ x. x.accepted) e))
      unchanged

generate_all-Changes :
    (g : GenerateEnv) (products : List Candidate) (counts : Generated) (s : PricingState)
    → Changes s (generate_all g products counts s).0
unfolding generate_all
generate_all-Changes g [] counts s = unchanged
generate_all-Changes g (p ∷ ps) counts s =
    let (s1, found) = generate_one g p s in
    Changes-then (OneProduct-Changes (generate_one_lem g p s))
      (generate_all-Changes g ps (count_one g found counts) s1)

PricingRun-Changes : {s s' : PricingState} → PricingRun s s' → Changes s s'
unfolding generate_suggestions
PricingRun-Changes {s} (approves e id actor) =
    let (s', r) = approve_suggestion e id actor s in
    more (Approval-Change e id actor s s' r (approve_suggestion_lem e id actor s)) unchanged
PricingRun-Changes {s} (rejects e id actor) =
    let (s', r) = reject_suggestion e id actor s in
    more (Rejection-Change e id actor s s' r (reject_suggestion_lem e id actor s)) unchanged
PricingRun-Changes {s} (generates g) =
    Changes-then
      (generate_all-Changes g (load_candidate_products g) (record { generated = 0; skipped = 0 }) s)
      (more (same refl refl) unchanged)

Changes-IsValid : {s s' : PricingState} → Changes s s' → IsValid s → IsValid s'
Changes-IsValid unchanged v = v
Changes-IsValid (more c cs) v = Changes-IsValid cs (Change-IsValid c v)

Changes-IsDecidedAt :
    {s s' : PricingState} (id : Text) (row : PriceSuggestion)
    → Changes s s'
    → IsDecidedAt id row s
    → IsDecidedAt id row s'
Changes-IsDecidedAt id row unchanged h = h
Changes-IsDecidedAt id row (more c cs) h =
    Changes-IsDecidedAt id row cs (Change-IsDecidedAt id row c h)

-- Any number of approvals, rejections and generations, one after the other and whatever the database
-- and the services answer, keep it so that each product has one pending or approved suggestion at
-- most, and that the catalog accepted the price of each approved one.
pub PricingRuns-IsValid : {s s' : PricingState} → PricingRuns s s' → IsValid s → IsValid s'
PricingRuns-IsValid done v = v
PricingRuns-IsValid (then_run r last) v =
    Changes-IsValid (PricingRun-Changes last) (PricingRuns-IsValid r v)

-- A suggestion that is not pending is found unchanged after any number of approvals, rejections and
-- generations.
pub PricingRuns-IsDecidedAt :
    {s s' : PricingState} (id : Text) (row : PriceSuggestion)
    → PricingRuns s s'
    → IsDecidedAt id row s
    → IsDecidedAt id row s'
PricingRuns-IsDecidedAt id row done h = h
PricingRuns-IsDecidedAt id row (then_run r last) h =
    Changes-IsDecidedAt id row (PricingRun-Changes last) (PricingRuns-IsDecidedAt id row r h)
