-- ===== src/Auth/Control.antt =====
-- `rbacMiddleware`, `requiredRoleFor`, `roleAtLeast` and `resolveProjectID` of the control plane
-- (services/control-plane/internal/httpapi/httpapi.go).
use langopen.Prelude.{String, Bool, ◌&&◌, ◌||◌, not, Option, none, some, ◌==◌, leb, if◌then◌else◌}
use langopen.Prelude.Text.{Codes, codes, codes_eq, has_prefix, trim_space}
use langopen.Contracts.{
  ProjectRole, viewer, developer, operator, admin, project_role, is_valid_project_role,
}
use langopen.Auth.{Request, Verdict, serve, refuse, KeyStore, validate_api_key, rank, or_admin}

developer_path : Codes → Bool
developer_path path =
    has_prefix path (codes "/internal/v1/deployments")
    || has_prefix path (codes "/v2/deployments")
    || has_prefix path (codes "/internal/v1/builds")
    || has_prefix path (codes "/internal/v1/sources/validate")
    || has_prefix path (codes "/v1/integrations/github")
    || has_prefix path (codes "/internal/v1/secrets/")

unfoldable pub is_key_path : Codes → Bool
is_key_path path = has_prefix path (codes "/internal/v1/api-keys")

unfoldable pub required_role_for : String → Codes → ProjectRole
unfolding is_key_path developer_path codes_eq
required_role_for method path =
    if method == "GET" || method == "HEAD"
    then viewer
    else if is_key_path path
    then admin
    else if codes_eq path (codes "/internal/v1/policies/runtime")
    then operator
    else if developer_path path
    then developer
    else admin

unfoldable pub role_at_least : ProjectRole → ProjectRole → Bool
unfolding rank
role_at_least actual required = leb (rank required) (rank actual)

unfoldable pub is_public : Codes → Bool
unfolding codes_eq
is_public path = codes_eq path (codes "/healthz") || codes_eq path (codes "/metrics")

-- What follows the test of the key.
unfoldable pub checked_role : Request → Option String → Verdict
checked_role r project =
    let role = project_role (or_admin (trim_space r.project_role)) in
    if not (is_valid_project_role role)
    then refuse 400 "invalid_role"
    else if not (role_at_least role (required_role_for r.method r.path))
    then refuse 403 "forbidden"
    else serve project none

unfoldable pub checked_key : (String → String) → KeyStore → Request → Verdict
checked_key hash store r =
    let api_key = trim_space r.api_key in
    if api_key == ""
    then refuse 401 "missing_api_key"
    else elim (validate_api_key hash store api_key) [
      | none ↦ refuse 401 "invalid_api_key"
      | some project ↦ checked_role r (some project)
    ]

-- Without a database no key is asked for.
unfoldable pub rbac_middleware : (String → String) → Option KeyStore → Request → Verdict
rbac_middleware hash pg r =
    if is_public r.path
    then serve none none
    else elim pg [ none ↦ checked_role r none | some store ↦ checked_key hash store r ]

-- `resolveProjectID`: the project of a request body against the key's (`""` where there is none).
unfoldable pub resolve_project_id : String → String → Option String
resolve_project_id authorized requested =
    let requested = trim_space requested in
    if authorized == ""
    then some requested
    else if not (requested == "") && not (requested == authorized)
    then none
    else some authorized
