-- ===== src/Access/Policy.antt =====
-- src/auth/jwt-roles.guard.ts: `canActivate` and the call to the auth service.
use orders_microservice.Json.{or_value, prop, get, Value, is_falsy, text}
use orders_microservice.Base.{
  throw_if, ◌||◌, any, ◌&&◌, Option, Result, not, suc, Bool, List, ℕ, if◌then◌else◌, none, some, ok,
  throw, [], ◌∷◌, true, false, ◌>>=◌, ◌>>◌,
}
use Prim.Native.Nat.{zero}
use orders_microservice.Access.Marathon.{roles_of, is_marathon_only_imported_user}
use orders_microservice.Base.Text.{lit, Text, starts_with, text_eq}

-- `role_not_text` is the TypeError of a role without `startsWith`.
pub data GuardError : Type 0 where
  missing_policy missing_header validation_failed invalid_token : GuardError
  insufficient_permissions role_not_text : GuardError

-- Nothing when the call fails, and nothing for an answer that is not ok. A body that is not JSON is
-- null.
abbrev pub AuthService : Type 0
AuthService = Text → Option (Option Value)

-- the user that is put on the request
pub record RequestUser : Type 0 where
  pub sub : Value
  pub email : Value
  pub roles : List Value

unfoldable pub user_of_answer : Option (Option Value) → Result GuardError Value
unfolding is_falsy get
user_of_answer none = throw validation_failed
user_of_answer (some none) = throw invalid_token
user_of_answer (some (some payload)) =
    let user = prop (lit "user") payload in
    if is_falsy (prop (lit "valid") payload) || is_falsy user then throw invalid_token else ok user

unfoldable pub validate_token_with_auth : AuthService → Text → Result GuardError Value
unfolding user_of_answer
validate_token_with_auth auth token = user_of_answer (auth token)

-- `userRoles.some((role) => role.startsWith('internal:'))`
unfoldable pub is_internal_service : List Value → Result GuardError Bool
unfolding starts_with
is_internal_service [] = ok false
is_internal_service (text s ∷ rest) =
    let later = is_internal_service rest in
    if starts_with s (lit "internal:") then ok true else later
is_internal_service (_ ∷ rest) = throw role_not_text

abbrev pub is_role : Text → Value → Bool
is_role role (text s) = text_eq s role
is_role role _ = false

-- `canUseGenericAuthenticatedUserRole`
abbrev pub can_use_generic_authenticated_user_role : Value → Bool → Bool
can_use_generic_authenticated_user_role user internal =
    not internal && not (is_marathon_only_imported_user user)

-- one required role
unfoldable pub satisfies : Value → List Value → Bool → Text → Bool
unfolding text_eq is_marathon_only_imported_user
satisfies user roles internal role =
    any (is_role role) roles
    || text_eq role (lit "authenticated")
    || (text_eq role (lit "authenticated:user")
        && can_use_generic_authenticated_user_role user internal)
    || (text_eq role (lit "authenticated:service") && internal)

abbrev pub drop : ℕ → Text → Text
drop zero s = s
drop (suc n) [] = []
drop (suc n) (c ∷ s) = drop n s

-- the token of `Bearer <token>`
unfoldable pub bearer_token : Option Text → Result GuardError Text
unfolding starts_with
bearer_token none = throw missing_header
bearer_token (some header) =
    if starts_with header (lit "Bearer ") then ok (drop 7 header) else throw missing_header

-- the part of `canActivate` on a route with a policy
unfoldable pub authorize : AuthService → List Text → Option Text → Result GuardError RequestUser
unfolding bearer_token validate_token_with_auth is_internal_service satisfies
authorize auth required header = do
  token ← bearer_token header
  user ← validate_token_with_auth auth token
  let roles = roles_of user
  internal ← is_internal_service roles
  throw_if (not (any (satisfies user roles internal) required)) insufficient_permissions
  ok (record {
    sub = or_value (prop (lit "sub") user) (prop (lit "id") user);
    email = prop (lit "email") user;
    roles = roles;
  })

-- `canActivate`, with the route's two decorations; a public route sets no user
unfoldable pub can_activate :
    AuthService → Bool → Option (List Text) → Option Text → Result GuardError (Option RequestUser)
unfolding authorize
can_activate auth true policy header = ok none
can_activate auth false none header = throw missing_policy
can_activate auth false (some []) header = throw missing_policy
can_activate auth false (some (role ∷ rest)) header = do
  user ← authorize auth (role ∷ rest) header
  ok (some user)
