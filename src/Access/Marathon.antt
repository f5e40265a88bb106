-- ===== src/Access/Marathon.antt =====
-- src/auth/jwt-roles.guard.ts: users that were imported for one application only.
use orders_microservice.Base.{
  ◌+◌, not, ◌&&◌, any, leb, ◌||◌, ℕ, Bool, List, if◌then◌else◌, [], ◌∷◌, true, false,
}
use orders_microservice.Json.{
  Fields, elements, Items, prop, Value, get, undefined, null, bool, num, text, arr, obj, nil, cons,
  end, field,
}
use orders_microservice.Base.Text.{
  is_empty, lit, includes, trim, Text, starts_with, text_eq, to_lower_case,
}

unfoldable pub ends_with : Text → Text → Bool
unfolding text_eq
ends_with [] p = is_empty p
ends_with (c ∷ s) p = text_eq (c ∷ s) p || ends_with s p

unfoldable pub is_marathon_scoped_role : Text → Bool
unfolding text_eq trim to_lower_case starts_with includes
is_marathon_scoped_role role =
    let normalized = to_lower_case (trim role) in
    text_eq normalized (lit "marathon")
    || text_eq normalized (lit "app:marathon:user")
    || starts_with normalized (lit "app:marathon:")
    || starts_with normalized (lit "internal:marathon:")
    || includes normalized (lit ":marathon:")

unfoldable pub is_non_marathon_access_role : Text → Bool
unfolding is_marathon_scoped_role
is_non_marathon_access_role role =
    let normalized = to_lower_case (trim role) in
    if is_empty normalized
      || text_eq normalized (lit "authenticated")
      || text_eq normalized (lit "authenticated:user")
    then false
    else not (is_marathon_scoped_role normalized)

-- `key.toLowerCase().includes('marathon')`
abbrev pub names_marathon : Text → Bool
names_marathon s = includes (to_lower_case s) (lit "marathon")

unfoldable mutual
  unfolding to_lower_case includes

  pub contains_marathon_marker : ℕ → Value → Bool
  contains_marathon_marker depth (text s) = leb depth 4 && names_marathon s
  contains_marathon_marker depth (arr values) = leb depth 4 && some_marker (depth + 1) values
  contains_marathon_marker depth (obj entries) =
      leb depth 4 && some_entry_marker (depth + 1) entries
  contains_marathon_marker depth undefined = false
  contains_marathon_marker depth null = false
  contains_marathon_marker depth (bool b) = false
  contains_marathon_marker depth (num n) = false

  pub some_marker : ℕ → Items → Bool
  some_marker depth nil = false
  some_marker depth (cons v vs) = contains_marathon_marker depth v || some_marker depth vs

  pub some_entry_marker : ℕ → Fields → Bool
  some_entry_marker depth end = false
  some_entry_marker depth (field key v entries) =
      names_marathon key || contains_marathon_marker depth v || some_entry_marker depth entries

-- `hasPreferenceValue`
unfoldable mutual
  pub has_preference_value : Value → Bool
  has_preference_value undefined = false
  has_preference_value null = false
  has_preference_value (bool b) = b
  has_preference_value (num n) = true
  has_preference_value (text s) = true
  has_preference_value (arr values) = some_preference values
  has_preference_value (obj entries) = some_entry_preference entries

  pub some_preference : Items → Bool
  some_preference nil = false
  some_preference (cons v vs) = has_preference_value v || some_preference vs

  pub some_entry_preference : Fields → Bool
  some_entry_preference end = false
  some_entry_preference (field key v entries) =
      has_preference_value v || some_entry_preference entries

unfoldable pub is_application_preference_key : Text → Bool
unfolding starts_with includes ends_with
is_application_preference_key key =
    starts_with key (lit "app:")
    || includes key (lit "microservice")
    || ends_with key (lit "-service")
    || ends_with key (lit "_service")

-- `containsNonMarathonPreferenceMarker`
unfoldable mutual
  unfolding to_lower_case includes has_preference_value is_application_preference_key

  pub contains_non_marathon_preference_marker : ℕ → Value → Bool
  contains_non_marathon_preference_marker depth (arr values) =
      leb depth 4 && some_preference_marker (depth + 1) values
  contains_non_marathon_preference_marker depth (obj entries) =
      leb depth 4 && some_entry_preference_marker (depth + 1) entries
  contains_non_marathon_preference_marker depth undefined = false
  contains_non_marathon_preference_marker depth null = false
  contains_non_marathon_preference_marker depth (bool b) = false
  contains_non_marathon_preference_marker depth (num n) = false
  contains_non_marathon_preference_marker depth (text s) = false

  pub some_preference_marker : ℕ → Items → Bool
  some_preference_marker depth nil = false
  some_preference_marker depth (cons v vs) =
      contains_non_marathon_preference_marker depth v || some_preference_marker depth vs

  pub some_entry_preference_marker : ℕ → Fields → Bool
  some_entry_preference_marker depth end = false
  some_entry_preference_marker depth (field key v entries) =
      (not (names_marathon key)
        && ((is_application_preference_key (to_lower_case key) && has_preference_value v)
            || contains_non_marathon_preference_marker depth v))
      || some_entry_preference_marker depth entries

-- the roles that are strings
abbrev pub text_roles : List Value → List Text
text_roles [] = []
text_roles (text s ∷ rest) = s ∷ text_roles rest
text_roles (_ ∷ rest) = text_roles rest

-- `Array.isArray(user.roles) ? user.roles : []`
abbrev pub roles_of : Value → List Value
roles_of user = elim (prop (lit "roles") user) [ arr values ↦ elements values | _ ↦ [] ]

unfoldable pub is_marathon_only_imported_user : Value → Bool
unfolding get is_marathon_scoped_role is_non_marathon_access_role contains_marathon_marker
    contains_non_marathon_preference_marker
is_marathon_only_imported_user user =
    let roles = text_roles (roles_of user) in
    let preferences = prop (lit "perApplicationPreferences") user in
    let has_marker =
      any is_marathon_scoped_role roles
      || contains_marathon_marker 0 (prop (lit "source") user)
      || contains_marathon_marker 0 preferences in
    let has_access =
      any is_non_marathon_access_role roles
      || contains_non_marathon_preference_marker 0 preferences in
    has_marker && not has_access
