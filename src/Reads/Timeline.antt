-- ===== src/Reads/Timeline.antt =====
-- The timeline of src/orders/order-lifecycle.ts.
use orders_microservice.Base.{
  length-append, ℕ, Option-cases, ◌≤◌, Bool-cases, length, take, or_neither, any, Bool, List,
  Option, [], ◌∷◌, ◌++◌, true, false, refl, ◌≡◌, inl, inr, ◌||◌, arith,
}
use orders_microservice.Reads.{
  current_entry, current_entries, fulfilled_entries, is_paid, build_lifecycle_timeline,
  ordered_entry, paid_entries, has_stage, TimelineEntry,
}
use orders_microservice.Lifecycle.Labels.{is_fulfilled}
use orders_microservice.Base.Text.{Text}
use orders_microservice.Lifecycle.Derive.{OrderLifecycleState}
use mathlib.Core.List.{append-nil}
use orders_microservice.Entities.{Order}
use orders_microservice.Lifecycle.{OrderLifecycleStage}

-- no stage stands in the list twice
abbrev pub IsDistinct : List TimelineEntry → Type 0
IsDistinct [] = Unit
IsDistinct (e ∷ es) = (any (has_stage e.lifecycle_stage) es ≡ false) × IsDistinct es

any-append {ℓ} :
    {A : Type ℓ} (p : A → Bool) (xs ys : List A) → any p (xs ++ ys) ≡ (any p xs || any p ys)
any-append p [] ys = refl
any-append p (x ∷ xs) ys = ground (arith, any-append p xs ys)

append-IsDistinct :
    (entries : List TimelineEntry) (new : TimelineEntry)
    → IsDistinct entries
    → any (has_stage new.lifecycle_stage) entries ≡ false
    → IsDistinct (entries ++ new ∷ [])
append-IsDistinct [] new h alone = (refl, tt)
append-IsDistinct (e ∷ es) new h alone =
    let (first, rest) =
      or_neither (has_stage new.lifecycle_stage e) (any (has_stage new.lifecycle_stage) es) alone in
    (
      ground (arith, any-append (has_stage e.lifecycle_stage) es (new ∷ []), h.0, first),
      append-IsDistinct es new h.1 rest,
    )

-- what a timeline tells of an order and its current stage
pub record IsTimeline (order : Order) (stage : OrderLifecycleStage) (entries : List TimelineEntry)
    : Type 0 where
  pub begins : take 1 entries ≡ ordered_entry order ∷ []
  pub current : any (has_stage stage) entries ≡ true
  pub distinct : IsDistinct entries
  pub payment :
      is_paid order ≡ true → any (has_stage OrderLifecycleStage.paid_not_delivered) entries ≡ true
  pub short : length entries ≤ 4

-- the entries before the current stage
abbrev past_entries : Order → List TimelineEntry
past_entries order = ordered_entry order ∷ (paid_entries order ++ fulfilled_entries order)

-- the facts about the past that the current stage does not change
record IsPast (order : Order) (entries : List TimelineEntry) : Type 0 where
  begins : take 1 entries ≡ ordered_entry order ∷ []
  distinct : IsDistinct entries
  payment :
      is_paid order ≡ true → any (has_stage OrderLifecycleStage.paid_not_delivered) entries ≡ true
  short : length entries ≤ 3

-- one entry of the stage, or none
data Optional (stage : OrderLifecycleStage) : List TimelineEntry → Type 0 where
  absent : Optional stage []
  present :
      (status source : Text) (at : Option ℕ)
      → Optional stage (
          record { lifecycle_stage = stage; status = status; occurred_at = at; source = source }
          ∷ [])

past_lem :
    (order : Order) (p f : List TimelineEntry)
    → Optional OrderLifecycleStage.paid_not_delivered p
    → Optional OrderLifecycleStage.warehouse_fulfillment_requested f
    → (is_paid order ≡ true → any (has_stage OrderLifecycleStage.paid_not_delivered) p ≡ true)
    → IsPast order (ordered_entry order ∷ (p ++ f))
past_lem order _ _ absent absent h = record {
  begins = refl;
  distinct = (refl, tt);
  payment = h;
  short = omega arith;
}
past_lem order _ _ absent (present s u t) h = record {
  begins = refl;
  distinct = (refl, (refl, tt));
  payment = λ settled. let e = h settled in cc;
  short = omega arith;
}
past_lem order _ _ (present s u t) absent h = record {
  begins = refl;
  distinct = (refl, (refl, tt));
  payment = λ _. refl;
  short = omega arith;
}
past_lem order _ _ (present s u t) (present s' u' t') h = record {
  begins = refl;
  distinct = (refl, (refl, (refl, tt)));
  payment = λ _. refl;
  short = omega arith;
}

paid_entries-Optional :
    (order : Order)
    → Optional OrderLifecycleStage.paid_not_delivered (paid_entries order)
      × (is_paid order ≡ true
          → any (has_stage OrderLifecycleStage.paid_not_delivered) (paid_entries order) ≡ true)
unfolding paid_entries
paid_entries-Optional order = elim (Bool-cases (is_paid order)) [
  | inl settled ↦ rw (settled, paid_entries) (present _ _ _, λ _. refl)
  | inr unsettled ↦ rw (unsettled, paid_entries) (absent, λ h. h)
]

fulfilled_entries-Optional :
    (order : Order)
    → Optional OrderLifecycleStage.warehouse_fulfillment_requested (fulfilled_entries order)
unfolding fulfilled_entries
fulfilled_entries-Optional order = elim (Option-cases order.warehouse_handoff) [
  | inl no_handoff ↦ rw (no_handoff, fulfilled_entries) absent
  | inr (handoff, given) ↦ elim (Bool-cases (is_fulfilled handoff.status)) [
    | inl fulfilled ↦ rw (given, fulfilled_entries) (rw fulfilled (present _ _ _))
    | inr other ↦ rw (given, fulfilled_entries) (rw other absent)
  ]
]

past_entries-IsPast : (order : Order) → IsPast order (past_entries order)
past_entries-IsPast order =
    past_lem order (paid_entries order) (fulfilled_entries order) (paid_entries-Optional order).0
      (fulfilled_entries-Optional order) (paid_entries-Optional order).1

-- Whatever the stored order, its timeline begins with the ordering, has the current stage, no stage
-- twice, the payment where the order is paid, and four entries at most.
pub build_lifecycle_timeline-IsTimeline :
    (order : Order) (state : OrderLifecycleState)
    → IsTimeline order state.lifecycle_stage (build_lifecycle_timeline order state)
unfolding build_lifecycle_timeline current_entries
build_lifecycle_timeline-IsTimeline order state =
    let past = past_entries-IsPast order in
    let entries = past_entries order in
    elim (Bool-cases (any (has_stage state.lifecycle_stage) entries)) [
      | inl there ↦
          rw (there, append-nil entries)
            (record {
              begins = past.begins;
              current = there;
              distinct = past.distinct;
              payment = past.payment;
              short = omega (arith, past.short);
            })
      | inr missing ↦
          let new = current_entry order state in
          rw missing (record {
            begins = past.begins;
            current =
                ground (arith, any-append (has_stage state.lifecycle_stage) entries (new ∷ []));
            distinct = append-IsDistinct entries new past.distinct missing;
            payment = λ settled. ground (
              arith,
              past.payment settled,
              any-append (has_stage OrderLifecycleStage.paid_not_delivered) entries (new ∷ []),
            );
            short = omega (arith, past.short, length-append entries (new ∷ []));
          })
    ]
