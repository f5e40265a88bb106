-- ===== src/Access/Grants.antt =====
-- Who is let through by `canActivate` of src/auth/jwt-roles.guard.ts.
use orders_microservice.Base.{
  not-false, not-true, ◌∙◌, and_both, or_cases, or_neither, ◌&&◌, ◌||◌, sym, throw_if-eq-ok, ap,
  inr, throw_if, length, not, >>=-eq-ok, arith, inl, Bool-cases, ok_injective, ◌++◌, any, ◌≡◌, Bool,
  List, Option, none, some, ok, [], ◌∷◌, true, false, refl,
}
use orders_microservice.Base.Text.Laws.{text_eq_iff, text_eq_refl}
use orders_microservice.Access.Policy.{
  can_use_generic_authenticated_user_role, user_of_answer, insufficient_permissions, drop, is_role,
  RequestUser, authorize, AuthService, bearer_token, can_activate, is_internal_service, satisfies,
  validate_token_with_auth,
}
use orders_microservice.Base.Text.{text_eq, lit, Text, mem_text, starts_with}
use mathlib.Core.Path.{subst}
use orders_microservice.Access.Marathon.{is_marathon_only_imported_user, roles_of}
use orders_microservice.Json.{prop, is_falsy, Value, undefined, null, bool, num, text, arr, obj}

abbrev is_internal_role : Value → Bool
is_internal_role (text s) = starts_with s (lit "internal:")
is_internal_role _ = false

-- why a required role lets a user through
pub data Grants (user : Value) (role : Text) : Type 0 where
  held : any (is_role role) (roles_of user) ≡ true → Grants user role
  anyone : role ≡ lit "authenticated" → Grants user role
  person :
      role ≡ lit "authenticated:user"
      → any is_internal_role (roles_of user) ≡ false
      → is_marathon_only_imported_user user ≡ false
      → Grants user role
  service :
      role ≡ lit "authenticated:service"
      → any is_internal_role (roles_of user) ≡ true
      → Grants user role

internal_lem :
    (roles : List Value) {b : Bool}
    → is_internal_service roles ≡ ok b
    → any is_internal_role roles ≡ b
unfolding is_internal_service
internal_lem [] h = ok_injective h
internal_lem (text s ∷ rest) {b} h = elim (Bool-cases (starts_with s (lit "internal:"))) [
  | inl starts ↦ rw starts (ok_injective (rw starts at h))
  | inr other ↦ rw other (internal_lem rest (rw other at h))
]
internal_lem (undefined ∷ rest) h = cc
internal_lem (null ∷ rest) h = cc
internal_lem (bool b ∷ rest) h = cc
internal_lem (num n ∷ rest) h = cc
internal_lem (arr vs ∷ rest) h = cc
internal_lem (obj fs ∷ rest) h = cc

satisfies-Grants :
    (user : Value) (internal : Bool) (role : Text)
    → any is_internal_role (roles_of user) ≡ internal
    → satisfies user (roles_of user) internal role ≡ true
    → Grants user role
unfolding satisfies
satisfies-Grants user internal role e h =
    let has = any (is_role role) (roles_of user) in
    let open_to_all = text_eq role (lit "authenticated") in
    let allowed = can_use_generic_authenticated_user_role user internal in
    let person_role = text_eq role (lit "authenticated:user") in
    let service_role = text_eq role (lit "authenticated:service") in
    elim (or_cases (has || open_to_all || (person_role && allowed)) (service_role && internal) h) [
      | inr both ↦
          let (same, inside) = and_both service_role internal both in
          service ((text_eq_iff role (lit "authenticated:service")).0 same) (e ∙ inside)
      | inl h1 ↦ elim (or_cases (has || open_to_all) (person_role && allowed) h1) [
        | inr both ↦
            let (same, fit) = and_both person_role allowed both in
            let (outside, whole) =
              and_both (not internal) (not (is_marathon_only_imported_user user)) fit in
            person ((text_eq_iff role (lit "authenticated:user")).0 same) (e ∙ not-true outside)
              (not-true whole)
        | inl h2 ↦ elim (or_cases has open_to_all h2) [
          | inl there ↦ held there
          | inr same ↦ anyone ((text_eq_iff role (lit "authenticated")).0 same)
        ]
      ]
    ]

any_find :
    (p : Text → Bool) (ts : List Text)
    → any p ts ≡ true
    → (t : Text) × (mem_text t ts ≡ true) × (p t ≡ true)
unfolding mem_text
any_find p [] h = cc
any_find p (t ∷ ts) h = elim (Bool-cases (p t)) [
  | inl here ↦ (t, ground (arith, text_eq_refl t), here)
  | inr later ↦ let (u, there, found) = any_find p ts (rw later at h) in (u, ground arith, found)
]

starts_with-append : (s p : Text) → starts_with s p ≡ true → s ≡ p ++ drop (length p) s
unfolding starts_with
starts_with-append s [] h = refl
starts_with-append [] (d ∷ p) h = cc
starts_with-append (c ∷ s) (d ∷ p) h = ground (arith, starts_with-append s p)

bearer_token_lem :
    (header : Option Text) {token : Text}
    → bearer_token header ≡ ok token
    → header ≡ some (lit "Bearer " ++ token)
unfolding bearer_token
bearer_token_lem none h = cc
bearer_token_lem (some s) {token} h = elim (Bool-cases (starts_with s (lit "Bearer "))) [
  | inl starts ↦
      subst (λ t. some s ≡ some (lit "Bearer " ++ t)) (ok_injective (rw starts at h))
        (ap (λ (t : Text). some t) (starts_with-append s (lit "Bearer ") starts))
  | inr not_so ↦ let e = rw not_so at h in cc
]

-- the user that the auth service named for a token
pub record IsVouched (auth : AuthService) (token : Text) (user : Value) : Type 0 where
  pub payload : Value
  pub answered : auth token ≡ some (some payload)
  pub valid : is_falsy (prop (lit "valid") payload) ≡ false
  pub named : user ≡ prop (lit "user") payload
  pub present : is_falsy user ≡ false

vouched :
    (auth : AuthService) (token : Text) {user : Value} (answer : Option (Option Value))
    → auth token ≡ answer
    → user_of_answer answer ≡ ok user
    → IsVouched auth token user
unfolding user_of_answer
vouched auth token none e h = cc
vouched auth token (some none) e h = cc
vouched auth token {user} (some (some payload)) e h =
    let refused = is_falsy (prop (lit "valid") payload) || is_falsy (prop (lit "user") payload) in
    elim (Bool-cases refused) [
      | inl bad ↦ let wrong = rw bad at h in cc
      | inr good ↦
          let (valid, present) =
            or_neither (is_falsy (prop (lit "valid") payload))
              (is_falsy (prop (lit "user") payload)) good in
          let same : prop (lit "user") payload ≡ user = ok_injective (rw good at h) in
          record {
            payload = payload;
            answered = e;
            valid = valid;
            named = sym same;
            present = subst (λ v. is_falsy v ≡ false) same present;
          }
    ]

abbrev pub IsLetThrough :
    AuthService → Option (List Text) → Option Text → Option RequestUser → Type 0
IsLetThrough auth policy header u =
    (required : List Text) × (token : Text) × (user : Value) × (role : Text) × (policy
      ≡ some required)
    × (header ≡ some (lit "Bearer " ++ token))
    × IsVouched auth token user
    × (mem_text role required ≡ true)
    × Grants user role
    × (r : RequestUser) × (u ≡ some r)
    × (r.roles ≡ roles_of user)

-- A request that is let through on a route that is not public has a route with a policy and a bearer
-- token for which the auth service vouched, and one of the policy's roles grants it: the user has
-- the role, or the role is open to everyone who is authenticated, or to persons who neither hold an
-- internal role nor were imported for the marathon application alone, or to holders of an internal
-- role. The user that is put on the request has the roles that the auth service gave.
pub can_activate-Grants :
    (auth : AuthService) (policy : Option (List Text)) (header : Option Text)
    (u : Option RequestUser)
    → can_activate auth false policy header ≡ ok u
    → IsLetThrough auth policy header u
unfolding can_activate authorize validate_token_with_auth
can_activate-Grants auth none header u h = cc
can_activate-Grants auth (some []) header u h = cc
can_activate-Grants auth (some (first ∷ rest)) header u h =
    let required = first ∷ rest in
    let (r, e, h0) = >>=-eq-ok (authorize auth required header) _ h in
    let (token, e1, h1) = >>=-eq-ok (bearer_token header) _ e in
    let (user, e2, h2) = >>=-eq-ok (user_of_answer (auth token)) _ h1 in
    let (internal, e3, h3) = >>=-eq-ok (is_internal_service (roles_of user)) _ h2 in
    let unmet = not (any (satisfies user (roles_of user) internal) required) in
    let (x, e4, h4) = >>=-eq-ok (throw_if unmet insufficient_permissions) _ h3 in
    let met : any (satisfies user (roles_of user) internal) required ≡ true =
      not-false (throw_if-eq-ok unmet insufficient_permissions e4) in
    let (role, known, granted) = any_find (satisfies user (roles_of user) internal) required met in
    (
      required,
      token,
      user,
      role,
      refl,
      bearer_token_lem header e1,
      vouched auth token (auth token) refl e2,
      known,
      satisfies-Grants user internal role (internal_lem (roles_of user) e3) granted,
      r,
      sym (ok_injective h0),
      ap (λ (q : RequestUser). q.roles) (sym (ok_injective h4)),
    )
