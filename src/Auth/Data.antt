-- ===== src/Auth/Data.antt =====
-- `authMiddleware`, `requiredDataRoleFor` and `roleAtLeast` of the API server.
use langopen.Prelude.{String, Bool, ◌&&◌, ◌||◌, not, Option, none, some, ◌==◌, leb, if◌then◌else◌}
use langopen.Prelude.Text.{Codes, codes, codes_eq, has_prefix, drop_prefix, trim_space}
use langopen.Contracts.{ProjectRole, viewer, developer, admin, project_role, is_valid_project_role}
use langopen.Auth.{Request, Verdict, serve, refuse, KeyStore, validate_api_key, rank, or_admin}

abbrev strip_version : Codes → Codes
strip_version path =
    if has_prefix path (codes "/api/v1") then drop_prefix path (codes "/api/v1") else path

-- The prefixes that ask for a developer.
developer_path : Codes → Bool
developer_path path =
    has_prefix path (codes "/store/items")
    || has_prefix path (codes "/assistants")
    || has_prefix path (codes "/threads")
    || has_prefix path (codes "/runs")
    || has_prefix path (codes "/crons")
    || has_prefix path (codes "/a2a/")
    || has_prefix path (codes "/mcp")

unfoldable pub is_read : String → Bool
is_read method = method == "GET" || method == "HEAD"

unfoldable pub is_system_path : Codes → Bool
is_system_path path = has_prefix (strip_version path) (codes "/system")

unfoldable pub required_data_role_for : String → Codes → ProjectRole
unfolding is_read is_system_path developer_path
required_data_role_for method path =
    if is_read method
    then viewer
    else if is_system_path path
    then viewer
    else if developer_path (strip_version path)
    then developer
    else admin

unfoldable pub role_at_least : ProjectRole → ProjectRole → Bool
unfolding rank
role_at_least actual required = leb (rank required) (rank actual)

-- The paths that need no key.
unfoldable pub is_public : Codes → Bool
unfolding codes_eq
is_public path =
    codes_eq path (codes "/healthz")
    || codes_eq path (codes "/metrics")
    || codes_eq path (codes "/docs")
    || codes_eq path (codes "/openapi.json")

unfoldable pub checked_key : (String → String) → Option KeyStore → String → ProjectRole → Verdict
checked_key hash none key role = serve none (some role)
checked_key hash (some store) key role = elim (validate_api_key hash store key) [
  | none ↦ refuse 401 "invalid_api_key"
  | some project ↦ serve (some project) (some role)
]

-- `pg` is `none` where the server runs without a database.
unfoldable pub auth_middleware : (String → String) → Option KeyStore → Request → Verdict
auth_middleware hash pg r =
    let api_key = trim_space r.api_key in
    let scheme = trim_space r.auth_scheme in
    let role = project_role (or_admin (trim_space r.project_role)) in
    if is_public r.path
    then serve none none
    else if api_key == ""
    then refuse 401 "missing_api_key"
    else if not (scheme == "") && not (scheme == "langsmith-api-key")
    then refuse 400 "invalid_auth_scheme"
    else if not (is_valid_project_role role)
    then refuse 400 "invalid_role"
    else if not (role_at_least role (required_data_role_for r.method r.path))
    then refuse 403 "forbidden"
    else checked_key hash pg api_key role
