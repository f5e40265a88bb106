-- ===== src/Status/Cancellation.antt =====
-- `validateCancellationApproval` of src/orders/status-transitions.ts: what it establishes.
use orders_microservice.Base.{
  ◌≡◌, refl, ◌≢◌, ◌↔◌, ◌≤◌, List, [], ◌∷◌, Option, some, none, Bool, true, false, ok, arith, inl,
  inr, throw_if-eq-ok, length, not, All, filter-nil-All, is_some, Option-cases,
}
use orders_microservice.Base.Text.{Text, lit, has_control, has_bearer, text_or_empty, is_empty}
use orders_microservice.Base.Text.Laws.{text_eq_iff}
use orders_microservice.Status.{OrderStatus}
use orders_microservice.Status.Approval.{
  CancellationSideEffectKey, SideEffects, OrderStatusApprovalInput, OrderStatusTransitionContext,
  OrderStatusApprovalAudit, sanitize_actor_value, safe_reason_code, safe_idempotency_key,
  normalize_reason_code, normalize_idempotency_key, acknowledged, is_true, missing_side_effects,
  required_cancellation_side_effects, validate_cancellation_side_effects, actor_sub, actor_email,
  approver, is_human, approve, validate_cancellation_approval,
}

-- a value that may be stored and published as an actor
pub record IsSafeActor (s : Text) : Type 0 where
  pub non_empty : s ≢ []
  pub bounded : length s ≤ 200
  pub one_line : has_control s ≡ false
  pub no_credential : has_bearer s ≡ false

pub sanitize_actor_value-IsSafeActor :
    (value : Option Text) {s : Text} → sanitize_actor_value value ≡ some s → IsSafeActor s
unfolding sanitize_actor_value
sanitize_actor_value-IsSafeActor none h = cc
sanitize_actor_value-IsSafeActor (some value) h = ground arith

is_true_iff : (o : Option Bool) → (is_true o ≡ true) ↔ (o ≡ some true)
is_true_iff none = ground arith
is_true_iff (some true) = ground arith
is_true_iff (some false) = ground arith

not-is_true : (o : Option Bool) → not (is_true o) ≡ false → o ≡ some true
not-is_true none h = cc
not-is_true (some true) h = refl
not-is_true (some false) h = cc

is_empty_nil {ℓ} : {A : Type ℓ} (xs : List A) → not (is_empty xs) ≡ false → xs ≡ []
is_empty_nil [] h = refl
is_empty_nil (x ∷ xs) h = cc

validate_cancellation_side_effects_all :
    (effects : Option SideEffects) {u : Unit {0}}
    → validate_cancellation_side_effects effects ≡ ok u
    → (key : CancellationSideEffectKey) → acknowledged effects key ≡ some true
unfolding validate_cancellation_side_effects
validate_cancellation_side_effects_all effects h key =
    let none_missing : missing_side_effects effects ≡ [] = is_empty_nil _ (throw_if-eq-ok _ _ h) in
    let all_true =
      filter-nil-All (λ k. not (is_true (acknowledged effects k)))
        required_cancellation_side_effects none_missing in
    pick key all_true
  where
    pick :
        (k : CancellationSideEffectKey)
        → All
            (λ k. not (is_true (acknowledged effects k)) ≡ false)
            required_cancellation_side_effects
        → acknowledged effects k ≡ some true
    pick CancellationSideEffectKey.payment a = not-is_true _ a.0
    pick CancellationSideEffectKey.warehouse a = not-is_true _ a.1.0
    pick CancellationSideEffectKey.notification a = not-is_true _ a.1.1.0
    pick CancellationSideEffectKey.crm a = not-is_true _ a.1.1.1.0
    pick CancellationSideEffectKey.channel a = not-is_true _ a.1.1.1.1.0

normalize_reason_code_safe :
    (code : Option Text) {s : Text} → normalize_reason_code code ≡ ok s → safe_reason_code s ≡ true
unfolding normalize_reason_code
normalize_reason_code_safe none h = cc
normalize_reason_code_safe (some code) h = ground arith

normalize_idempotency_key_safe :
    (value : Option Text) (k : Text)
    → normalize_idempotency_key value ≡ ok (some k)
    → (safe_idempotency_key k ≡ true) × (has_bearer k ≡ false)
unfolding normalize_idempotency_key
normalize_idempotency_key_safe none k h = cc
normalize_idempotency_key_safe (some value) k h = ground arith

-- What an approval that was accepted contains, and what its audit record may publish.
pub record IsApproved (approval : OrderStatusApprovalInput) (current requested : OrderStatus)
    (audit : OrderStatusApprovalAudit) : Type 0 where
  pub approved : approval.approved ≡ some true
  pub human : approval.approval_type ≡ some (lit "human")
  pub acknowledged_all :
      (key : CancellationSideEffectKey) → acknowledged approval.side_effects_handled key ≡ some true
  pub actor : IsSafeActor audit.approved_by
  pub reason : safe_reason_code audit.reason_code ≡ true
  pub key :
      (k : Text)
      → audit.idempotency_key ≡ some k
      → (safe_idempotency_key k ≡ true) × (has_bearer k ≡ false)
  pub from : audit.previous_status ≡ current
  pub to : (audit.requested_status ≡ requested) × (audit.resulting_status ≡ requested)

is_human_iff : (o : Option Text) → not (is_human o) ≡ false → o ≡ some (lit "human")
is_human_iff none h = cc
is_human_iff (some s) h = ground (arith, text_eq_iff s (lit "human"))

safe_said :
    (said : Option Text)
    → ((s : Text) → said ≡ some s → IsSafeActor s)
    → not (is_some said) ≡ false
    → IsSafeActor (text_or_empty said)
safe_said none safe h = cc
safe_said (some s) safe h = safe s refl

approve-IsApproved :
    (current requested : OrderStatus) (context : OrderStatusTransitionContext)
    (approval : OrderStatusApprovalInput) (audit : OrderStatusApprovalAudit)
    → approve current requested context approval ≡ ok audit
    → IsApproved approval current requested audit
unfolding approve
approve-IsApproved current requested context approval audit h = record {
  approved = not-is_true approval.approved (ground arith);
  human = is_human_iff approval.approval_type (ground arith);
  acknowledged_all = λ key.
      validate_cancellation_side_effects_all approval.side_effects_handled {u = tt} (ground arith)
        key;
  actor =
      let id = sanitize_actor_value (actor_sub context.actor) in
      let email = sanitize_actor_value (actor_email context.actor) in
      let said = approver email id approval.approved_by in
      let same : audit.approved_by ≡ text_or_empty said = ground arith in
      rw same (safe_said said (λ s e. sanitize_actor_value-IsSafeActor _ e) (ground arith));
  reason = normalize_reason_code_safe approval.reason_code (ground arith);
  key = λ k e. normalize_idempotency_key_safe approval.idempotency_key k (ground arith);
  from = ground arith;
  to = ground arith;
}

-- A cancellation is accepted only with an approval in the request that is marked approved and human
-- and acknowledges all five side effects; the actor that the audit
-- stores is not empty, has 200 units at most and holds neither a control character nor a bearer
-- token, its reason code and its key match their patterns, and it names the two statuses.
pub validate_cancellation_approval-IsApproved :
    (current requested : OrderStatus) (context : OrderStatusTransitionContext)
    (audit : OrderStatusApprovalAudit)
    → validate_cancellation_approval current requested context ≡ ok audit
    → (approval : OrderStatusApprovalInput) × (context.approval ≡ some approval)
      × IsApproved approval current requested audit
unfolding validate_cancellation_approval
validate_cancellation_approval-IsApproved current requested context audit h =
    elim (Option-cases context.approval) [
      | inl absent ↦ cc
      | inr (approval, given) ↦ (
        approval,
        given,
        approve-IsApproved current requested context approval audit (ground arith),
      )
    ]
