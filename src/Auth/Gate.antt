-- ===== src/Auth/Gate.antt =====
-- What a request that is served has shown, for both middlewares.
use langopen.Prelude.{
  ℕ, ◌≤◌, String, ◌≡◌, refl, ◌≢◌, ◌⊎◌, inl, inr, true, false, Option, none, some, List, ◌||◌, Memᴰ,
  arith, eq_iff, find, find-mem, Option-cases, ◌==◌,
}
use langopen.Prelude.Text.{trim_space}
use langopen.Contracts.{ProjectRole, developer, admin, project_role, is_valid_project_role}
use langopen.Auth.{
  Request, serve, ApiKeyRow, KeyStore, is_live_key, validate_api_key, rank, or_admin,
}
use langopen.Auth.Data
use native.Mathlib.Nat.{le_trans}
use langopen.Auth.Control

-- A row of the table that makes `key` a key of `project`.
pub record Grants (hash : String → String) (store : KeyStore) (key project : String) : Type 0 where
  pub row : ApiKeyRow
  pub stored : Memᴰ row store.rows
  pub matches : row.key_hash ≡ hash key
  pub live : row.revoked ≡ false
  pub owner : row.project_id ≡ project

found-Grants :
    (hash : String → String) (store : KeyStore) (key project : String)
    → validate_api_key hash store key ≡ some project
    → Grants hash store key project
unfolding validate_api_key
found-Grants hash store key project h =
    elim (Option-cases (find (is_live_key (hash key)) store.rows)) [
      | inl e ↦ ground (arith, e)
      | inr (row, e) ↦
          let (m, live) = find-mem (is_live_key (hash key)) store.rows row e in
          record {
            row = row;
            stored = m;
            matches = ground (arith, live, eq_iff row.key_hash (hash key));
            live = ground (arith, live);
            owner = ground (arith, e, h);
          }
    ]

-- The project of a request that is served: none without a database, else that of a live key.
abbrev ProjectOf : (String → String) → Option KeyStore → String → Option String → Type 0
ProjectOf hash none key none = Unit
ProjectOf hash none key (some _) = ⊥
ProjectOf hash (some store) key none = ⊥
ProjectOf hash (some store) key (some project) = Grants hash store key project

-- What the API server asks of a request that is not public.
pub record Authorised (hash : String → String) (pg : Option KeyStore) (r : Request)
    (project : Option String) (role : ProjectRole) : Type 0 where
  pub keyed : trim_space r.api_key ≢ ""
  pub scheme : (trim_space r.auth_scheme ≡ "") ⊎ (trim_space r.auth_scheme ≡ "langsmith-api-key")
  pub stated : role ≡ project_role (or_admin (trim_space r.project_role))
  pub known : is_valid_project_role role ≡ true
  pub ranked : rank (Data.required_data_role_for r.method r.path) ≤ rank role
  pub owned : ProjectOf hash pg (trim_space r.api_key) project

checked-ProjectOf :
    (hash : String → String) (pg : Option KeyStore) (key : String) (role₀ : ProjectRole)
    (project : Option String) (role : Option ProjectRole)
    → Data.checked_key hash pg key role₀ ≡ serve project role
    → ProjectOf hash pg key project × (role ≡ some role₀)
unfolding Data.checked_key
checked-ProjectOf hash none key role₀ none role h = ground arith
checked-ProjectOf hash none key role₀ (some p) role h = ground arith
checked-ProjectOf hash (some store) key role₀ none role h =
    elim (Option-cases (validate_api_key hash store key)) [
      | inl e ↦ cc (rw (e, Data.checked_key) at h)
      | inr (p, e) ↦ cc (rw (e, Data.checked_key) at h)
    ]
checked-ProjectOf hash (some store) key role₀ (some p) role h =
    elim (Option-cases (validate_api_key hash store key)) [
      | inl e ↦ cc (rw (e, Data.checked_key) at h)
      | inr (q, e) ↦ (found-Grants hash store key p (ground (arith, e, h)), ground (arith, e, h))
    ]

abbrev stated_role : Request → ProjectRole
stated_role r = project_role (or_admin (trim_space r.project_role))

-- The tests before the key is looked up.
record Passed (r : Request) : Type 0 where
  keyed : (trim_space r.api_key == "") ≡ false
  scheme :
      ((trim_space r.auth_scheme == "") ≡ true)
      ⊎ ((trim_space r.auth_scheme == "langsmith-api-key") ≡ true)
  known : is_valid_project_role (stated_role r) ≡ true
  ranked : Data.role_at_least (stated_role r) (Data.required_data_role_for r.method r.path) ≡ true

served_Passed :
    (hash : String → String) (pg : Option KeyStore) (r : Request) (project : Option String)
    (role : Option ProjectRole)
    → Data.is_public r.path ≡ false
    → Data.auth_middleware hash pg r ≡ serve project role
    → Passed r
      × (Data.checked_key hash pg (trim_space r.api_key) (stated_role r) ≡ serve project role)
unfolding Data.auth_middleware
served_Passed hash pg r project role shut h = ground arith

-- A request that is not public and is served carries a key, a scheme that is absent or the known
-- one, and a known role that ranks at least as high as its method and path ask for; and with a
-- database its project is that of an unrevoked row for the key's hash.
pub served-Authorised :
    (hash : String → String) (pg : Option KeyStore) (r : Request) (project : Option String)
    (role : Option ProjectRole)
    → Data.is_public r.path ≡ false
    → Data.auth_middleware hash pg r ≡ serve project role
    → (given : ProjectRole) × (role ≡ some given) × Authorised hash pg r project given
unfolding Data.role_at_least
served-Authorised hash pg r project role shut h =
    let (passed, checked) = served_Passed hash pg r project role shut h in
    let (owned, same) = checked-ProjectOf hash pg _ _ project role checked in
    (
      stated_role r,
      same,
      record {
        keyed = λ e. cc ((eq_iff _ _).1 e, passed.keyed);
        scheme = elim passed.scheme [
          | inl e ↦ inl ((eq_iff _ _).0 e)
          | inr e ↦ inr ((eq_iff _ _).0 e)
        ];
        stated = refl;
        known = passed.known;
        ranked = ground (arith, passed.ranked);
        owned = owned;
      },
    )

required_for_writes :
    (method : String) (path : List ℕ)
    → Data.is_read method ≡ false
    → Data.is_system_path path ≡ false
    → rank developer ≤ rank (Data.required_data_role_for method path)
unfolding Data.required_data_role_for rank
required_for_writes method path w e = ground arith

-- A served request that is not public and neither reads (GET, HEAD) nor goes to a `/system` path
-- was made with the rank of a developer at least.
pub writes_need_developer :
    (hash : String → String) (pg : Option KeyStore) (r : Request) (project : Option String)
    (role : Option ProjectRole)
    → Data.is_public r.path ≡ false
    → Data.is_read r.method ≡ false
    → Data.is_system_path r.path ≡ false
    → Data.auth_middleware hash pg r ≡ serve project role
    → (given : ProjectRole) × (role ≡ some given) × (rank developer ≤ rank given)
writes_need_developer hash pg r project role shut writes elsewhere h =
    let (given, same, auth) = served-Authorised hash pg r project role shut h in
    (given, same, le_trans (required_for_writes r.method r.path writes elsewhere) auth.ranked)

served_with_key :
    (hash : String → String) (store : KeyStore) (r : Request) (project : Option String)
    (role : Option ProjectRole)
    → Control.is_public r.path ≡ false
    → Control.rbac_middleware hash (some store) r ≡ serve project role
    → (p : String) × (project ≡ some p)
      × (validate_api_key hash store (trim_space r.api_key) ≡ some p)
      × (Control.role_at_least (stated_role r) (Control.required_role_for r.method r.path) ≡ true)
unfolding Control.rbac_middleware Control.checked_key Control.checked_role
served_with_key hash store r project role shut h =
    elim (Option-cases (validate_api_key hash store (trim_space r.api_key))) [
      | inl e ↦ ground (arith, e)
      | inr (p, e) ↦ (p, ground (arith, e), e, ground (arith, e))
    ]

-- The control plane, with a database: a served request that is not public carries the key of an
-- unrevoked row and is given that row's project.
pub control_served-Grants :
    (hash : String → String) (store : KeyStore) (r : Request) (project : Option String)
    (role : Option ProjectRole)
    → Control.is_public r.path ≡ false
    → Control.rbac_middleware hash (some store) r ≡ serve project role
    → (p : String) × (project ≡ some p) × Grants hash store (trim_space r.api_key) p
control_served-Grants hash store r project role shut h =
    let (p, same, valid, ranked) = served_with_key hash store r project role shut h in
    (p, same, found-Grants hash store (trim_space r.api_key) p valid)

top_rank : (given : ProjectRole) → rank admin ≤ rank given → given ≡ admin
unfolding rank
top_rank given h = ground arith

key_path_role :
    (method : String) (path : List ℕ)
    → (method == "GET" || method == "HEAD") ≡ false
    → Control.is_key_path path ≡ true
    → Control.required_role_for method path ≡ admin
unfolding Control.required_role_for
key_path_role method path w k = ground arith

-- The control plane, with a database: whoever changes anything under `/internal/v1/api-keys` has
-- stated the role of an admin (a role that is left out counts as that).
pub key_changes_need_admin :
    (hash : String → String) (store : KeyStore) (r : Request) (project : Option String)
    (role : Option ProjectRole)
    → Control.is_public r.path ≡ false
    → (r.method == "GET" || r.method == "HEAD") ≡ false
    → Control.is_key_path r.path ≡ true
    → Control.rbac_middleware hash (some store) r ≡ serve project role
    → project_role (or_admin (trim_space r.project_role)) ≡ admin
key_changes_need_admin hash store r project role shut writes keys h =
    let (p, same, valid, ranked) = served_with_key hash store r project role shut h in
    top_rank (stated_role r) (
      unfold Control.role_at_least in
      ground (arith, ranked, key_path_role r.method r.path writes keys))

-- The control plane, for a key with a project: what a body asks for resolves to the key's project, or
-- is refused, and then it is not blank and not that project.
pub resolved_own :
    (authorized requested : String)
    → authorized ≢ ""
    → (Control.resolve_project_id authorized requested ≡ some authorized)
      ⊎ ((Control.resolve_project_id authorized requested ≡ none)
          × ((trim_space requested == "") ≡ false)
          × ((trim_space requested == authorized) ≡ false))
unfolding Control.resolve_project_id
resolved_own authorized requested named = ground (arith, eq_iff authorized "", named)
