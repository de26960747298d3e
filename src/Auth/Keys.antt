-- ===== src/Auth/Keys.antt =====
-- The handlers of services/control-plane/internal/httpapi/httpapi.go that list, create and revoke
-- API keys. SHA-256, the random bytes, the new id and the clock are parameters; the audit log is
-- left out. `authorized` is the project of the key that the request came with, "" without one.
use Prim.Native.String.{◌++◌}
use langopen.Prelude.{
  ℕ, String, Bool, true, false, ◌&&◌, ◌||◌, not, Option, none, some, List, [], ◌∷◌, ◌==◌, map, keep,
  take, any, leb, if◌then◌else◌,
}
use langopen.Prelude.Text.{trim_space}
use langopen.Auth.{ApiKeyRow, KeyStore}
use langopen.Auth.Control.{resolve_project_id}

-- A row of `api_keys`, or an entry of the list that stands in for it.
pub record KeyRow : Type 0 where
  pub id : String
  pub project_id : String
  pub name : String
  pub key_hash : String
  pub created_at : ℕ
  pub revoked_at : Option ℕ

-- The table, the projects that it may refer to, and whether statements get through.
pub record KeyTable : Type 0 where
  pub rows : List KeyRow
  pub projects : List String
  pub reachable : Bool

-- `a.pg`, and `a.state.APIKeys`.
pub record KeyState : Type 0 where
  pub table : Option KeyTable
  pub memory : List KeyRow

-- A new key is shown once, with the text that the client keeps.
pub data KeyAnswer : Type 0 where
  keys_listed : List KeyRow → KeyAnswer
  key_created : KeyRow → String → KeyAnswer
  key_revoked : String → KeyAnswer
  key_refused : ℕ → String → KeyAnswer

abbrev pub is_revoked : Option ℕ → Bool
is_revoked none = false
is_revoked (some t) = true

-- The columns that `validateAPIKey` reads.
abbrev pub live_columns : KeyRow → ApiKeyRow
live_columns row = record {
  project_id = row.project_id;
  key_hash = row.key_hash;
  revoked = is_revoked row.revoked_at;
}

abbrev pub as_store : KeyTable → KeyStore
as_store t = record { reachable = t.reachable; rows = map live_columns t.rows }

abbrev pub or_default_project : String → String
or_default_project project_id = if project_id == "" then "proj_default" else project_id

abbrev pub scope_violation : KeyAnswer
scope_violation = key_refused 403 "project_scope_violation"

abbrev pub of_project : String → KeyRow → Bool
of_project project_id row = row.project_id == project_id

-- ORDER BY created_at DESC.
abbrev pub place_key : KeyRow → List KeyRow → List KeyRow
place_key row [] = row ∷ []
place_key row (r ∷ rs) =
    let later = place_key row rs in
    if leb r.created_at row.created_at then row ∷ r ∷ rs else r ∷ later

abbrev pub newest_keys : List KeyRow → List KeyRow
newest_keys [] = []
newest_keys (r ∷ rs) = place_key r (newest_keys rs)

abbrev pub list_keys : String → Option KeyTable → List KeyRow → KeyAnswer
list_keys project_id none memory = keys_listed (keep (of_project project_id) memory)
list_keys project_id (some t) memory =
    if t.reachable
    then keys_listed (take 500 (newest_keys (keep (of_project project_id) t.rows)))
    else key_refused 500 "db_query_failed"

abbrev pub list_resolved : Option String → KeyState → KeyAnswer
list_resolved none s = scope_violation
list_resolved (some project_id) s = list_keys (or_default_project project_id) s.table s.memory

-- The handler `listAPIKeys`.
unfoldable pub list_api_keys : String → String → KeyState → KeyAnswer
list_api_keys authorized requested s = list_resolved (resolve_project_id authorized requested) s

-- `generateAPIKey`; `encode` is the base64 of the bytes that were drawn, `none` a failing draw.
abbrev pub generated : Option String → Option String
generated none = none
generated (some encoded) = some ("lko_" ++ encoded)

-- INSERT, with the constraints of the table.
unfoldable pub insert_key : KeyRow → KeyTable → Option KeyTable
insert_key row t =
    if not t.reachable
    then none
    else if any (λ r. r.id == row.id) t.rows
    then none
    else if any (λ p. p == row.project_id) t.projects
    then some (record t { rows = row ∷ t.rows })
    else none

abbrev pub inserted : KeyRow → String → Option KeyTable → KeyState → KeyAnswer × KeyState
inserted row raw none s = (key_refused 400 "db_insert_failed", s)
inserted row raw (some t) s = (key_created row raw, record s { table = some t })

abbrev pub store_key : KeyRow → String → Option KeyTable → KeyState → KeyAnswer × KeyState
store_key row raw none s = (key_created row raw, record s { memory = row ∷ s.memory })
store_key row raw (some t) s = inserted row raw (insert_key row t) s

abbrev pub new_key : String → ℕ → String → String → String → KeyRow
new_key key_id now project_id name key_hash = record {
  id = key_id;
  project_id = or_default_project project_id;
  name = if trim_space name == "" then "api-key" else trim_space name;
  key_hash = key_hash;
  created_at = now;
  revoked_at = none;
}

module _ (hash : String → String) (key_id : String) (now : ℕ) where
  abbrev pub create_generated : String → String → Option String → KeyState → KeyAnswer × KeyState
  create_generated project_id name none s = (key_refused 500 "api_key_generation_failed", s)
  create_generated project_id name (some raw) s =
      store_key (new_key key_id now project_id name (hash raw)) raw s.table s

  abbrev pub create_resolved :
      Option String → String → Option String → KeyState → KeyAnswer × KeyState
  create_resolved none name drawn s = (scope_violation, s)
  create_resolved (some project_id) name drawn s =
      create_generated project_id name (generated drawn) s

  -- The handler `createAPIKey`, of a request that was decoded.
  unfoldable pub create_api_key :
      String → String → String → Option String → KeyState → KeyAnswer × KeyState
  unfolding insert_key
  create_api_key authorized requested name drawn s =
      create_resolved (resolve_project_id authorized requested) name drawn s

abbrev pub is_revocable : String → String → KeyRow → Bool
is_revocable key_id project_id row =
    row.id == key_id
    && not (is_revoked row.revoked_at)
    && (project_id == "" || row.project_id == project_id)

-- UPDATE … SET revoked_at=NOW() WHERE ….
unfoldable pub revoke_rows : String → ℕ → String → List KeyRow → List KeyRow
revoke_rows key_id now project_id [] = []
revoke_rows key_id now project_id (row ∷ rows) =
    (if is_revocable key_id project_id row then record row { revoked_at = some now } else row)
    ∷ revoke_rows key_id now project_id rows

-- The loop over the list: the first entry of the id, if it is of the project.
unfoldable pub revoke_memory : String → ℕ → String → List KeyRow → Option (List KeyRow)
revoke_memory key_id now project_id [] = none
revoke_memory key_id now project_id (row ∷ rows) =
    if row.id == key_id
    then if not (project_id == "") && not (row.project_id == project_id)
      then none
      else some (record row { revoked_at = some now } ∷ rows)
    else consed row (revoke_memory key_id now project_id rows)
  where
    consed : KeyRow → Option (List KeyRow) → Option (List KeyRow)
    consed row none = none
    consed row (some rows) = some (row ∷ rows)

abbrev pub key_not_found : KeyAnswer
key_not_found = key_refused 404 "api_key_not_found"

abbrev pub revoked_memory : String → Option (List KeyRow) → KeyState → KeyAnswer × KeyState
revoked_memory key_id none s = (key_not_found, s)
revoked_memory key_id (some rows) s = (key_revoked key_id, record s { memory = rows })

module _ (now : ℕ) where
  abbrev pub revoke_stored : String → String → Option KeyTable → KeyState → KeyAnswer × KeyState
  revoke_stored key_id project_id none s =
      revoked_memory key_id (revoke_memory key_id now project_id s.memory) s
  revoke_stored key_id project_id (some t) s =
      if not t.reachable
      then (key_refused 500 "db_update_failed", s)
      else if any (is_revocable key_id project_id) t.rows
      then (
        key_revoked key_id,
        record s { table = some (record t { rows = revoke_rows key_id now project_id t.rows }) },
      )
      else (key_not_found, s)

  abbrev pub revoke_resolved : String → Option String → KeyState → KeyAnswer × KeyState
  revoke_resolved key_id none s = (scope_violation, s)
  revoke_resolved key_id (some project_id) s =
      if key_id == ""
      then (key_refused 400 "invalid_key_id", s)
      else revoke_stored key_id project_id s.table s

  -- The handler `revokeAPIKey`.
  unfoldable pub revoke_api_key : String → String → String → KeyState → KeyAnswer × KeyState
  unfolding revoke_rows revoke_memory
  revoke_api_key authorized requested raw s =
      revoke_resolved (trim_space raw) (resolve_project_id authorized requested) s
