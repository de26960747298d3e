-- ===== src/Examples/Access.antt =====
-- Requests with the key of project p1, hashed by a function that marks it.
use langopen.Prelude.{
  none, ◌≡◌, refl, String, true, false, none, some, [], ◌∷◌, ◌==◌, if◌then◌else◌,
}
use langopen.Prelude.Text.{codes, trim_space, codes_eq, has_prefix, drop_prefix}
use langopen.Contracts.{ProjectRole, developer, project_role, is_valid_project_role}
use langopen.Auth.{Request, KeyStore, validate_api_key, rank}
use langopen.Auth.Data
use langopen.Auth.Control
use langopen.Auth.Gate.{served-Authorised, Authorised, control_served-Grants, Grants}

abbrev hashed : String → String
hashed key = if key == "secret" then "h1" else "h0"

abbrev store : KeyStore
store = record {
  reachable = true;
  rows = record { project_id = "p1"; key_hash = "h1"; revoked = false } ∷ [];
}

abbrev post : String → String → String → Request
post method path role = record {
  method = method;
  path = codes path;
  api_key = " secret";
  auth_scheme = "";
  project_role = role;
}

abbrev create : Request
create = post "POST" "/api/v1/threads" "developer"

abbrev rotate : Request
rotate = post "POST" "/internal/v1/api-keys" ""

served-Authorised_example :
    (given : ProjectRole) × (some developer ≡ some given)
    × Authorised hashed (some store) create (some "p1") given
unfolding Data.is_public Data.auth_middleware trim_space is_valid_project_role Data.role_at_least
    Data.required_data_role_for Data.checked_key validate_api_key rank codes_eq has_prefix
    drop_prefix project_role
served-Authorised_example =
    served-Authorised hashed (some store) create (some "p1") (some developer) refl refl

control_served-Grants_example :
    (p : String) × (some "p1" ≡ some p) × Grants hashed store (trim_space " secret") p
unfolding Control.is_public Control.rbac_middleware trim_space is_valid_project_role
    Control.role_at_least Control.required_role_for Control.checked_key Control.checked_role
    validate_api_key rank codes_eq has_prefix project_role Control.is_key_path
control_served-Grants_example = control_served-Grants hashed store rotate (some "p1") none refl refl
