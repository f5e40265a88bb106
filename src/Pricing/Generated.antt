-- ===== src/Pricing/Generated.antt =====
-- What `generateSuggestions` of src/pricing/pricing.service.ts adds, and what it reads out of the
-- AI service's answer.
use orders_microservice.Base.{
  length-take-le, length-map, take, map, length-filter-le, or_neither, Option-cases, not,
  Bool-cases, length-append, ◌∙◌, length, Bool, List, ℕ, ◌≡◌, ◌≤◌, ◌+◌, refl, [], ◌∷◌, ◌++◌, true,
  false, arith, ◌||◌, inl, inr,
}
use orders_microservice.Pricing.Generate.{
  to_candidate, is_candidate, max_limit, count_one, new_suggestion, Generated, generate_all,
  generate_one, generate_suggestions, has_open, load_candidate_products, Candidate, GenerateEnv,
}
use orders_microservice.Pricing.Response.{parse_ai_suggestion}
use orders_microservice.Base.Text.{lit}
use orders_microservice.Pricing.{PriceSuggestion, PricingState}

-- a new suggestion, for a product that has none that is open
pub record IsNew (product : Candidate) (s : PricingState) (row : PriceSuggestion) : Type 0 where
  pub same_product : row.product_id ≡ product.product_id
  pub alone : has_open product.product_id s.rows ≡ false
  pub pending : row.status ≡ lit "pending"

pub data OneProduct (product : Candidate) (s s' : PricingState) : Bool → Type 0 where
  passed_over : s' ≡ s → OneProduct product s s' false
  added :
      (row : PriceSuggestion)
      → IsNew product s row
      → s' ≡ record s { rows = s.rows ++ row ∷ [] }
      → OneProduct product s s' true

module _ (g : GenerateEnv) where
  pub generate_one_lem :
      (product : Candidate) (s : PricingState)
      → let (s', done) = generate_one g product s in OneProduct product s s' done
  unfolding generate_one new_suggestion
  generate_one_lem product s =
      elim (Bool-cases (not (g.finds s product.product_id) || has_open product.product_id s.rows)) [
        | inl skip ↦ rw skip (passed_over refl)
        | inr go ↦
            let (_, alone) =
              or_neither (not (g.finds s product.product_id)) (has_open product.product_id s.rows)
                go in
            elim (Option-cases (g.complete s product)) [
              | inl silent ↦ rw (go, silent) (passed_over refl)
              | inr (answer, said) ↦
                  elim (Option-cases (parse_ai_suggestion g.to_number g.parse_json answer)) [
                    | inl unread ↦ rw (go, said, unread) (passed_over refl)
                    | inr (parsed, read) ↦
                        let row = new_suggestion g product parsed s in
                        elim (Bool-cases (g.pricing.saves s row)) [
                          | inl kept ↦
                              rw (go, said, read, kept)
                                (added row
                                  (record { same_product = refl; alone = alone; pending = refl })
                                  refl)
                          | inr lost ↦ rw (go, said, read, lost) (passed_over refl)
                        ]
                  ]
            ]
      ]

  -- the counts cover the products, and the table has grown by as many rows as were generated
  pub record Counts (before after : Generated) (products : ℕ) (s s' : PricingState) : Type 0 where
    pub processed : after.generated + after.skipped ≡ before.generated + before.skipped + products
    pub grown : length s'.rows + before.generated ≡ length s.rows + after.generated
    pub same_accepted : s'.accepted ≡ s.accepted
    pub same_events : s'.events ≡ s.events

  count_one_lem :
      (product : Candidate) (done : Bool) (counts : Generated) (s s' : PricingState)
      → OneProduct product s s' done
      → Counts counts (count_one g done counts) 1 s s'
  count_one_lem product _ counts s s' (passed_over same) = rw same (record {
    processed = omega arith;
    grown = omega arith;
    same_accepted = refl;
    same_events = refl;
  })
  count_one_lem product _ counts s s' (added row new same) = rw same (record {
    processed = omega arith;
    grown = omega (arith, length-append s.rows (row ∷ []));
    same_accepted = refl;
    same_events = refl;
  })

  generate_all-Counts :
      (products : List Candidate) (counts : Generated) (s : PricingState)
      → let (s', after) = generate_all g products counts s in
        Counts counts after (length products) s s'
  unfolding generate_all
  generate_all-Counts [] counts s = record {
    processed = omega arith;
    grown = omega arith;
    same_accepted = refl;
    same_events = refl;
  }
  generate_all-Counts (p ∷ ps) counts s =
      let (s1, done) = generate_one g p s in
      let first = count_one_lem p done counts s s1 (generate_one_lem p s) in
      let rest = generate_all-Counts ps (count_one g done counts) s1 in
      record {
        processed = omega (arith, first.processed, rest.processed);
        grown = omega (arith, first.grown, rest.grown);
        same_accepted = rest.same_accepted ∙ first.same_accepted;
        same_events = rest.same_events ∙ first.same_events;
      }

  pub load_candidate_products-le : length (load_candidate_products g) ≤ max_limit
  unfolding load_candidate_products
  load_candidate_products-le = elim (Option-cases g.sold_products) [
    | inl failed ↦ rw (failed, load_candidate_products) (omega arith)
    | inr (rows, found) ↦
        rw (found, load_candidate_products)
          (omega (
            arith,
            length-filter-le is_candidate (map to_candidate (take max_limit rows)),
            length-map to_candidate (take max_limit rows),
            length-take-le max_limit rows,
          ))
  ]

  -- Each of at most fifty products is counted as generated or as skipped, the table grows by as many
  -- rows as are counted as generated, and no price in the catalog and no event comes of it.
  pub generate_suggestions_lem :
      (s : PricingState)
      → let (s', counts) = generate_suggestions g s in
        (counts.generated + counts.skipped ≡ length (load_candidate_products g))
        × (counts.generated + counts.skipped ≤ 50)
        × (length s'.rows ≡ length s.rows + counts.generated)
        × (s'.accepted ≡ s.accepted)
        × (s'.events ≡ s.events)
  unfolding generate_suggestions
  generate_suggestions_lem s =
      let c =
        generate_all-Counts (load_candidate_products g) (record { generated = 0; skipped = 0 }) s in
      (
        omega (arith, c.processed),
        omega (arith, c.processed, load_candidate_products-le),
        omega (arith, c.grown),
        c.same_accepted,
        c.same_events,
      )
