-- ===== src/Admin/Diagnostics.antt =====
-- src/admin/admin.service.ts: the diagnostics and the summary of the keys by which a repeated request
-- is found. `LOWER` is the database's, and a parameter.
use orders_microservice.Base.{
  count_one_more, map, length, filter, take, group_into, is_some, ltb, newest_first, not, Option,
  Result, Bool, List, ℕ, none, some, [], ◌∷◌, ◌++◌, ok, throw, if◌then◌else◌, ◌&&◌, ◌||◌,
}
use orders_microservice.Admin.Dashboard.{sort_texts}
use orders_microservice.Sales.{unique, unique_from}
use orders_microservice.Events.{truthy}
use orders_microservice.Reads.Stored.{created_date}
use orders_microservice.Admin.{item_count, get_source_meta, text_or, SourceMeta}
use orders_microservice.Base.Text.{is_empty, to_lower_case, text_or_empty, trim, Text, text_eq, lit}
use orders_microservice.Reads.Queries.{if_given}
use orders_microservice.Entities.{Order}

pub record IdempotencyDiagnosticFilters : Type 0 where
  pub contract_version : Option Text
  pub channel : Option Text
  pub channel_account_id : Option Text
  pub external_order_id : Option Text

pub data DiagnosticsError : Type 0 where
  unsupported_order_contract : Text → DiagnosticsError
  channel_and_external_id_required : DiagnosticsError

pub data DiagnosticOutcome : Type 0 where
  no_match single_match multiple_matches : DiagnosticOutcome

pub record KeyMatch : Type 0 where
  pub id : Text
  pub state : Text
  pub source : SourceMeta
  pub item_count : ℕ
  pub total : ℕ
  pub currency : Text
  pub created_at : Option ℕ
  pub updated_at : Option ℕ

pub record IdempotencyDiagnostics : Type 0 where
  pub channel : Text
  pub channel_account_id : Option Text
  pub external_order_id : Text
  pub outcome : DiagnosticOutcome
  pub duplicate_risk : Bool
  pub account_scopes : List Text
  pub matches : List KeyMatch

unfoldable pub key_match : Order → KeyMatch
unfolding get_source_meta
key_match order = record {
  id = order.id;
  state = order.status;
  source = get_source_meta order;
  item_count = item_count order.items;
  total = order.total;
  currency = order.currency;
  created_at = order.created_at;
  updated_at = order.updated_at;
}

abbrev pub match_outcome : List Order → DiagnosticOutcome
match_outcome [] = no_match
match_outcome (o ∷ []) = single_match
match_outcome (o ∷ o' ∷ os) = multiple_matches

abbrev pub trimmed : Option Text → Option Text
trimmed none = none
trimmed (some s) = some (trim s)

module _ (lower : Text → Text) where
  unfoldable pub has_diagnosed_key : Text → Option Text → Text → Order → Bool
  unfolding text_eq
  has_diagnosed_key channel account external_id order =
      text_eq (lower order.channel) channel
      && is_some order.external_order_id
      && text_eq (text_or_empty order.external_order_id) external_id
      && if_given account (λ a. text_eq (text_or_empty order.channel_account_id) a)

  unfoldable pub find_key_matches : Text → Option Text → Text → List Order → List Order
  unfolding has_diagnosed_key newest_first
  find_key_matches channel account external_id rows =
      take 25
        (newest_first created_date (filter (has_diagnosed_key channel account external_id) rows))

  unfoldable pub get_idempotency_diagnostics :
      IdempotencyDiagnosticFilters → List Order → Result DiagnosticsError IdempotencyDiagnostics
  unfolding trim to_lower_case text_eq find_key_matches key_match sort_texts unique_from
  get_idempotency_diagnostics filters rows =
      let version =
        trim (text_or (text_or_empty filters.contract_version) (lit "orders.create.v1")) in
      let channel = to_lower_case (trim (text_or_empty filters.channel)) in
      let external_id = trim (text_or_empty filters.external_order_id) in
      let account = trimmed filters.channel_account_id in
      let found = find_key_matches channel account external_id rows in
      if not (text_eq version (lit "orders.create.v1"))
      then throw (unsupported_order_contract version)
      else if is_empty channel || is_empty external_id
      then throw channel_and_external_id_required
      else ok (record {
        channel = channel;
        channel_account_id = truthy account;
        external_order_id = external_id;
        outcome = match_outcome found;
        duplicate_risk = ltb 1 (length found);
        account_scopes = sort_texts (unique (map (λ o. text_or_empty o.channel_account_id) found));
        matches = map key_match found;
      })

abbrev pub has_external_id : Order → Bool
has_external_id order = not (is_empty (text_or_empty order.external_order_id))

-- the three parts of a key, joined by `|`
abbrev pub joined_key : Order → Text
joined_key order =
    order.channel
    ++ lit "|"
    ++ text_or_empty order.channel_account_id
    ++ lit "|"
    ++ text_or_empty order.external_order_id

abbrev pub account_scope : Order → Text
account_scope order =
    text_or order.channel (lit "unknown")
    ++ lit ":"
    ++ text_or (text_or_empty order.channel_account_id) (lit "default")

pub record IdempotencySummary : Type 0 where
  pub orders_with_external_id : ℕ
  pub channel_account_scopes : ℕ
  pub duplicate_key_groups : ℕ

abbrev pub is_repeated : Text × ℕ → Bool
is_repeated group = ltb 1 group.1

unfoldable pub get_idempotency_summary : List Order → IdempotencySummary
unfolding group_into unique_from
get_idempotency_summary orders =
    let keyed = filter has_external_id orders in
    record {
      orders_with_external_id = length keyed;
      channel_account_scopes = length (unique (map account_scope keyed));
      duplicate_key_groups =
          length (filter is_repeated (group_into joined_key count_one_more 0 [] keyed));
    }
