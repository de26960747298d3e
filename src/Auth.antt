-- ===== src/Auth.antt =====
-- Who may call the two HTTP services: `authMiddleware` of the API server (Auth/Data) and
-- `rbacMiddleware` of the control plane (Auth/Control). Shared here: requests, verdicts, API keys.
pub mod Data
pub mod Control
pub mod Gate
pub mod Keys
pub mod Lifetime
use langopen.Prelude.{
  ℕ, ◌≤◌, String, Bool, true, false, ◌&&◌, Option, none, some, List, [], ◌∷◌, ◌==◌, if◌then◌else◌,
  find,
}
use langopen.Contracts.{ProjectRole, viewer, developer, operator, admin, other_role}

-- What the middlewares read of a request: the path by its characters' numbers, absent headers "".
pub record Request : Type 0 where
  pub method : String
  pub path : List ℕ
  pub api_key : String
  pub auth_scheme : String
  pub project_role : String

-- `next.ServeHTTP`, with the project and the role put into the context, or `WriteError`.
pub data Verdict : Type 0 where
  serve : Option String → Option ProjectRole → Verdict
  refuse : ℕ → String → Verdict

pub record ApiKeyRow : Type 0 where
  pub project_id : String
  pub key_hash : String
  pub revoked : Bool

-- The database as `validateAPIKey` meets it: the table, or a failing query.
pub record KeyStore : Type 0 where
  pub reachable : Bool
  pub rows : List ApiKeyRow

abbrev pub is_live_key : String → ApiKeyRow → Bool
is_live_key hash row = row.key_hash == hash && (if row.revoked then false else true)

abbrev pub project_of : Option ApiKeyRow → Option String
project_of none = none
project_of (some row) = some row.project_id

-- `validateAPIKey` after its test of `pg`; `hash` is `hashAPIKey`, and `none` is any error.
unfoldable pub validate_api_key : (String → String) → KeyStore → String → Option String
validate_api_key hash store key =
    if store.reachable then project_of (find (is_live_key (hash key)) store.rows) else none

-- The ranks of `roleAtLeast`; a role that is not in its map has rank 0.
unfoldable pub rank : ProjectRole → ℕ
rank viewer = 1
rank developer = 2
rank operator = 3
rank admin = 4
rank (other_role _) = 0

-- `role == ""` becomes the admin role.
abbrev pub or_admin : String → String
or_admin role = if role == "" then "admin" else role
