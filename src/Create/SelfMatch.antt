-- ===== src/Create/SelfMatch.antt =====
-- An order that was made from a request matches it, by `isMatchingCreateOrderReplay` of
-- src/orders/create-order.dto.ts: the comparisons are reflexive.
use orders_microservice.Create.Parts.{whole_number, NormalizedItem}
use orders_microservice.Create.Replay.{
  or_zero, comparable, option_eq, same_money, same_text, same_address, same_bundle, same_customer,
  same_field, same_rows,
}
use Prim.Native.Nat.{◌^◌}
use orders_microservice.Base.{
  arith, All, ◌<◌, ◌≡◌, List, Option, ℕ, Bool, refl, none, some, [], ◌∷◌, true,
}
use orders_microservice.Base.Text.{text_eq, Text}
use orders_microservice.Base.Text.Laws.{text_eq_refl}
use orders_microservice.Json.{number_eq, is_finite, Number, nan, infinite, finite}
use orders_microservice.Create.Request.{NormalizedCreateOrder}
use orders_microservice.Entities.{Address, BundleEvidence, Customer}
use orders_microservice.Create.Bundles.{texts_eq}
use orders_microservice.Create.Fields.{Arithmetic}

pub option_eq_refl {ℓ} :
    {A : Type ℓ} (p : A → A → Bool) (o : Option A)
    → ((x : A) → p x x ≡ true)
    → option_eq p o o ≡ true
option_eq_refl p none h = refl
option_eq_refl p (some x) h = h x

pub same_text_refl : (s : Option Text) → same_text s s ≡ true
unfolding same_text
same_text_refl s = option_eq_refl text_eq (comparable s) text_eq_refl

same_field_refl : (s : Option Text) → same_field s s ≡ true
unfolding same_field
same_field_refl s = option_eq_refl text_eq s text_eq_refl

pub same_customer_refl : (c : Customer) → same_customer c c ≡ true
unfolding same_customer
same_customer_refl c =
    rw
      (
        same_field_refl c.auth_user_id,
        same_field_refl c.subject,
        same_field_refl c.name,
        same_field_refl c.email,
        same_field_refl c.phone,
      )
      refl

pub same_address_refl : (c : Address) → same_address c c ≡ true
unfolding same_address
same_address_refl c =
    rw
      (
        same_field_refl c.name,
        same_field_refl c.street,
        same_field_refl c.city,
        same_field_refl c.postal_code,
        same_field_refl c.country,
        same_field_refl c.company_name,
        same_field_refl c.company_id,
        same_field_refl c.tax_id,
        same_field_refl c.vat_id,
        same_field_refl c.email,
      )
      refl

texts_eq_refl : (ts : List Text) → texts_eq ts ts ≡ true
unfolding texts_eq
texts_eq_refl [] = refl
texts_eq_refl (t ∷ ts) = rw (text_eq_refl t, texts_eq_refl ts) refl

same_bundle_refl : (c : BundleEvidence) → same_bundle c c ≡ true
unfolding same_bundle
same_bundle_refl c =
    rw
      (
        text_eq_refl c.contract_version,
        text_eq_refl c.bundle_id,
        texts_eq_refl c.product_ids,
        same_field_refl c.discount_policy_ref,
        same_field_refl c.free_shipping_policy_ref,
        same_field_refl c.server_total_source,
      )
      refl

pub same_bundles_refl : (cs : List BundleEvidence) → same_rows same_bundle cs cs ≡ true
unfolding same_rows
same_bundles_refl [] = refl
same_bundles_refl (c ∷ cs) = rw (same_bundle_refl c, same_bundles_refl cs) refl

number_eq_refl : (n : Number) → is_finite n ≡ true → number_eq n n ≡ true
number_eq_refl nan h = cc
number_eq_refl (infinite b) h = cc
number_eq_refl (finite b m up down) h = ground arith

-- What doubles do with the amounts that a column holds, ten digits with two decimals, and with the
-- quantities of an integer column: they are read back as they were stored, and rounding to
-- hundredths leaves a number.
pub record IsExact (a : Arithmetic) : Type 0 where
  pub read_back : (k : ℕ) → k < 10 ^ 10 → a.to_hundredths (a.from_hundredths k) ≡ k
  pub amount_finite :
      (k : ℕ) → k < 10 ^ 10 → is_finite (a.round_money (or_zero (a.from_hundredths k))) ≡ true
  pub quantity_finite :
      (q : ℕ) → q < 2 ^ 31 → is_finite (a.round_money (or_zero (whole_number q))) ≡ true

abbrev pub IsAmount : Arithmetic → Number → Type 0
IsAmount a n = (k : ℕ) × (k < 10 ^ 10) × (n ≡ a.from_hundredths k)

abbrev pub IsPricedItem : Arithmetic → NormalizedItem → Type 0
IsPricedItem a item =
    (item.quantity < 2 ^ 31) × IsAmount a item.unit_price × IsAmount a item.total_price

-- a request whose amounts and quantities the columns can hold
pub record IsPriced (a : Arithmetic) (n : NormalizedCreateOrder) : Type 0 where
  pub subtotal : IsAmount a n.order.subtotal
  pub shipping_cost : IsAmount a n.order.shipping_cost
  pub tax_amount : IsAmount a n.order.tax_amount
  pub total : IsAmount a n.order.total
  pub items : All (IsPricedItem a) n.items

module _ (a : Arithmetic) (exact : IsExact a) where
  pub stored_amount :
      (n : Number) → IsAmount a n → same_money a (a.from_hundredths (a.to_hundredths n)) n ≡ true
  unfolding same_money
  stored_amount n (k, small, e) =
      rw e (rw (exact.read_back k small) (number_eq_refl _ (exact.amount_finite k small)))

  pub stored_quantity : (q : ℕ) → q < 2 ^ 31 → same_money a (whole_number q) (whole_number q) ≡ true
  unfolding same_money
  stored_quantity q small = number_eq_refl _ (exact.quantity_finite q small)
