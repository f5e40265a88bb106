-- ===== src/Status/Approval.antt =====
-- src/orders/status-transitions.ts: the approval that a cancellation needs.
use orders_microservice.Base.{
  Bool, true, false, not, ◌&&◌, ◌||◌, List, [], ◌∷◌, Option, none, some, ℕ, Result, ok, throw,
  ◌>>=◌, ◌>>◌, throw_if, if◌then◌else◌, leb, ltb, all, filter, length, or_else, is_some, ◌==◌,
}
use orders_microservice.Base.Text.{
  Text, lit, trim, to_upper_case, is_empty, text_eq, has_control, has_bearer, is_upper, is_lower,
  is_digit, text_or_empty,
}
use orders_microservice.Status.{OrderStatus}

pub data CancellationSideEffectKey : Type 0 where
  payment warehouse notification crm channel : CancellationSideEffectKey

-- `Partial<Record<CancellationSideEffectKey, boolean>>`
pub record SideEffects : Type 0 where
  pub payment : Option Bool
  pub warehouse : Option Bool
  pub notification : Option Bool
  pub crm : Option Bool
  pub channel : Option Bool

pub record OrderStatusApprovalInput : Type 0 where
  pub approved : Option Bool
  pub approval_type : Option Text
  pub approved_by : Option Text
  pub reason_code : Option Text
  pub side_effects_handled : Option SideEffects
  pub idempotency_key : Option Text

pub record OrderStatusActorContext : Type 0 where
  pub sub : Option Text
  pub email : Option Text

-- `clock` is what `new Date()` reads.
pub record OrderStatusTransitionContext : Type 0 where
  pub approval : Option OrderStatusApprovalInput
  pub actor : Option OrderStatusActorContext
  pub now : Option ℕ
  pub clock : ℕ

-- The literal fields `approved`, `approvalType` and the five acknowledgements are constant in the
-- source and are not stored here.
pub record OrderStatusApprovalAudit : Type 0 where
  pub approved_by : Text
  pub actor_id : Option Text
  pub actor_email : Option Text
  pub reason_code : Text
  pub idempotency_key : Option Text
  pub previous_status : OrderStatus
  pub requested_status : OrderStatus
  pub resulting_status : OrderStatus
  pub approved_at : ℕ

-- One constructor for each `throw`.
pub data StatusError : Type 0 where
  refund_like_order : StatusError
  unrecognized_order_status unrecognized_current_status : Text → StatusError
  terminal_correction : StatusError
  invalid_transition : OrderStatus → OrderStatus → StatusError
  needs_approved needs_human needs_actor needs_reason_code bad_reason_code : StatusError
  bad_idempotency_key : StatusError
  needs_acknowledgements : List CancellationSideEffectKey → StatusError
  items_not_shipped items_not_delivered : StatusError

unfoldable pub sanitize_actor_value : Option Text → Option Text
sanitize_actor_value none = none
sanitize_actor_value (some value) =
    let sanitized = trim value in
    if is_empty value
      || is_empty sanitized
      || ltb 200 (length sanitized)
      || has_control sanitized
      || has_bearer sanitized
    then none
    else some sanitized

abbrev pub is_reason_head : ℕ → Bool
is_reason_head c = is_upper c || is_digit c

abbrev pub is_reason_unit : ℕ → Bool
is_reason_unit c = is_upper c || is_digit c || c == b'_' || c == b'-'

-- `SAFE_REASON_CODE_PATTERN`
unfoldable pub safe_reason_code : Text → Bool
safe_reason_code [] = false
safe_reason_code (c ∷ s) =
    is_reason_head c && all is_reason_unit s && leb 2 (length s) && leb (length s) 79

abbrev pub is_key_head : ℕ → Bool
is_key_head c = is_upper c || is_lower c || is_digit c

abbrev pub is_key_unit : ℕ → Bool
is_key_unit c =
    is_upper c || is_lower c || is_digit c || c == b'_' || c == b'.' || c == b':' || c == b'-'

-- `SAFE_IDEMPOTENCY_KEY_PATTERN`
unfoldable pub safe_idempotency_key : Text → Bool
safe_idempotency_key [] = false
safe_idempotency_key (c ∷ s) =
    is_key_head c && all is_key_unit s && leb 7 (length s) && leb (length s) 159

unfoldable pub normalize_reason_code : Option Text → Result StatusError Text
normalize_reason_code none = throw needs_reason_code
normalize_reason_code (some code) = do
  throw_if (is_empty code) needs_reason_code
  let normalized = to_upper_case (trim code)
  throw_if (not (safe_reason_code normalized)) bad_reason_code
  ok normalized

unfoldable pub normalize_idempotency_key : Option Text → Result StatusError (Option Text)
normalize_idempotency_key none = ok none
normalize_idempotency_key (some value) =
    let normalized = trim value in
    if is_empty value
    then ok none
    else if not (safe_idempotency_key normalized) || has_bearer normalized
    then throw bad_idempotency_key
    else ok (some normalized)

-- `sideEffects?.[key]`
unfoldable pub acknowledged : Option SideEffects → CancellationSideEffectKey → Option Bool
acknowledged none key = none
acknowledged (some e) CancellationSideEffectKey.payment = e.payment
acknowledged (some e) CancellationSideEffectKey.warehouse = e.warehouse
acknowledged (some e) CancellationSideEffectKey.notification = e.notification
acknowledged (some e) CancellationSideEffectKey.crm = e.crm
acknowledged (some e) CancellationSideEffectKey.channel = e.channel

-- `value === true`
abbrev pub is_true : Option Bool → Bool
is_true (some true) = true
is_true _ = false

abbrev pub required_cancellation_side_effects : List CancellationSideEffectKey
required_cancellation_side_effects =
    CancellationSideEffectKey.payment ∷ CancellationSideEffectKey.warehouse
    ∷ CancellationSideEffectKey.notification ∷ CancellationSideEffectKey.crm
    ∷ CancellationSideEffectKey.channel ∷ []

abbrev pub missing_side_effects : Option SideEffects → List CancellationSideEffectKey
missing_side_effects effects =
    filter (λ key. not (is_true (acknowledged effects key))) required_cancellation_side_effects

unfoldable pub validate_cancellation_side_effects :
    Option SideEffects → Result StatusError (Unit {0})
unfolding acknowledged
validate_cancellation_side_effects effects =
    throw_if (not (is_empty (missing_side_effects effects)))
      (needs_acknowledgements (missing_side_effects effects))

abbrev pub actor_sub : Option OrderStatusActorContext → Option Text
actor_sub none = none
actor_sub (some a) = a.sub

abbrev pub actor_email : Option OrderStatusActorContext → Option Text
actor_email none = none
actor_email (some a) = a.email

-- `approvedBy`: the actor's address, else its id, else what the request says
abbrev pub approver : Option Text → Option Text → Option Text → Option Text
approver email id said = sanitize_actor_value (or_else email (or_else id said))

abbrev pub is_human : Option Text → Bool
is_human none = false
is_human (some s) = text_eq s (lit "human")

abbrev pub instant : OrderStatusTransitionContext → ℕ
instant ctx = elim ctx.now [ none ↦ ctx.clock | some t ↦ t ]

unfoldable pub approve :
    OrderStatus
    → OrderStatus
    → OrderStatusTransitionContext
    → OrderStatusApprovalInput
    → Result StatusError OrderStatusApprovalAudit
approve current requested context approval =
    let actor_id = sanitize_actor_value (actor_sub context.actor) in
    let email = sanitize_actor_value (actor_email context.actor) in
    let said = approver email actor_id approval.approved_by in
    do
      throw_if (not (is_true approval.approved)) needs_approved
      throw_if (not (is_human approval.approval_type)) needs_human
      throw_if (not (is_some said)) needs_actor
      reason ← normalize_reason_code approval.reason_code
      validate_cancellation_side_effects approval.side_effects_handled
      key ← normalize_idempotency_key approval.idempotency_key
      ok (record {
        approved_by = text_or_empty said;
        actor_id = actor_id;
        actor_email = email;
        reason_code = reason;
        idempotency_key = key;
        previous_status = current;
        requested_status = requested;
        resulting_status = requested;
        approved_at = instant context;
      })

unfoldable pub validate_cancellation_approval :
    OrderStatus
    → OrderStatus
    → OrderStatusTransitionContext
    → Result StatusError OrderStatusApprovalAudit
validate_cancellation_approval current requested context = elim context.approval [
  | none ↦ throw needs_approved
  | some approval ↦ approve current requested context approval
]
