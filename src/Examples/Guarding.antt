-- ===== src/Examples/Guarding.antt =====
-- The theorem on the guard, at an administrator's token.
use orders_microservice.Base.{◌≡◌, refl, some, [], ◌∷◌, true, false, ok}
use orders_microservice.Access.Marathon.{is_marathon_only_imported_user}
use orders_microservice.Json.{
  is_falsy, get, Value, undefined, bool, text, arr, obj, nil, cons, end, field,
}
use orders_microservice.Base.Text.{text_eq, starts_with, lit, Text}
use orders_microservice.Access.Policy.{
  satisfies, is_internal_service, user_of_answer, validate_token_with_auth, bearer_token, authorize,
  AuthService, RequestUser, can_activate,
}
use orders_microservice.Access.Grants.{can_activate-Grants, IsLetThrough}

abbrev admin_role : Text
admin_role = lit "internal:orders-microservice:admin"

abbrev admin : Value
admin = obj (
    field (lit "sub") (text (lit "u1"))
      (field (lit "roles") (arr (cons (text admin_role) nil)) end))

abbrev vouching : AuthService
vouching =
    λ token. some (some (obj (field (lit "valid") (bool true) (field (lit "user") admin end))))

abbrev admin_user : RequestUser
admin_user = record { sub = text (lit "u1"); email = undefined; roles = text admin_role ∷ [] }

admin-activated :
    can_activate vouching false (some (admin_role ∷ [])) (some (lit "Bearer t"))
    ≡ ok (some admin_user)
unfolding can_activate authorize bearer_token validate_token_with_auth user_of_answer
    is_internal_service satisfies starts_with text_eq get is_falsy is_marathon_only_imported_user
admin-activated = refl

can_activate-Grants_example :
    IsLetThrough vouching (some (admin_role ∷ [])) (some (lit "Bearer t")) (some admin_user)
can_activate-Grants_example =
    can_activate-Grants vouching (some (admin_role ∷ [])) (some (lit "Bearer t")) (some admin_user)
      admin-activated
