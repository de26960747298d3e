-- ===== src/Worker/Fetch.antt =====
-- The fetch of the oldest pending run: `fetchNextPendingRun`, `loadDeploymentRuntimeEnv` and
-- `extractRuntimeEnv` of services/worker/internal/engine/engine.go. The cipher's decryption and Go's
-- `%v` are parameters; a database without the table of variables is not modelled. No lock of another
-- worker is held, since transactions run alone.
pub mod Laws
use langopen.Prelude.{
  ℕ, suc, ◌+◌, String, Bool, true, false, ◌||◌, ◌&&◌, not, Option, none, some, List, [], ◌∷◌, ◌==◌,
  if◌then◌else◌, any, find, keep,
}
use langopen.Prelude.Text.{trim_space}
use langopen.Json.{Json, null, text, object, end, field, Fields, lookup, insert}
use langopen.Contracts.{RunStatus, pending, running}
use langopen.Db.{RunRow, AssistantRow, DeploymentRow, VariableRow, Db}
use langopen.Db.Sql.{
  Error, Result, ok, err, message, Sql, pure, raise, ◌>>=◌, ◌>>◌, statement, query, query_row, exec,
  transaction,
}
use langopen.Db.Tables.{update_run, oldest}
use langopen.Worker.{or_now}
use langopen.Worker.Execute.{PendingRun}

abbrev pub is_pending : RunStatus → Bool
is_pending pending = true
is_pending _ = false

abbrev pub deployed : String → Db → Bool
deployed assistant_id d =
    any
      (λ (a : AssistantRow).
        a.id == assistant_id && any (λ (p : DeploymentRow). p.id == a.deployment_id) d.deployments)
      d.assistants

-- The `WHERE` clause with its joins.
abbrev pub fetchable : Db → RunRow → Bool
fetchable d row = is_pending row.status && deployed row.assistant_id d

-- The columns of the join that are not the run's.
pub record Target : Type 0 where
  pub graph_id : String
  pub deployment_id : String
  pub project_id : String
  pub repo_path : String
  pub repo_url : String
  pub git_ref : String

abbrev pub no_target : String → Target
no_target graph_id = record {
  graph_id = graph_id;
  deployment_id = "";
  project_id = "";
  repo_path = "";
  repo_url = "";
  git_ref = "";
}

abbrev pub target_at : String → Option DeploymentRow → Target
target_at graph_id none = no_target graph_id
target_at graph_id (some p) = record {
  graph_id = graph_id;
  deployment_id = p.id;
  project_id = p.project_id;
  repo_path = p.repo_path;
  repo_url = p.repo_url;
  git_ref = p.git_ref;
}

abbrev pub target_of : Option AssistantRow → Db → Target
target_of none d = no_target ""
target_of (some a) d =
    target_at a.graph_id (find (λ (p : DeploymentRow). p.id == a.deployment_id) d.deployments)

abbrev pub with_target : Db → RunRow → RunRow × Target
with_target d row =
    (row, target_of (find (λ (a : AssistantRow). a.id == row.assistant_id) d.assistants) d)

abbrev pub map_target : Db → Option RunRow → Option (RunRow × Target)
map_target d none = none
map_target d (some row) = some (with_target d row)

unfoldable pub next_pending : Db → Option (RunRow × Target)
next_pending d = map_target d (oldest (fetchable d) d.runs)

abbrev pub Env : Type 0
Env = List (String × String)

-- `env[key] = value`.
unfoldable pub set_env : String → String → Env → Env
set_env k v [] = (k, v) ∷ []
set_env k v ((j, w) ∷ env) = if j == k then (k, v) ∷ env else (j, w) ∷ set_env k v env

abbrev pub set_all : Env → Env → Env
set_all [] env = env
set_all ((k, v) ∷ more) env = set_all more (set_env k v env)

abbrev pub or_end : Option Json → Fields
or_end (some (object m)) = m
or_end _ = end

abbrev pub fields_of : Json → Fields
fields_of (object m) = m
fields_of _ = end

module _ (show : Json → String) where
  -- `addMap`.
  unfoldable pub add_map : Fields → Env → Env
  unfolding set_env
  add_map end env = env
  add_map (field k v m) env =
      add_map m (if trim_space k == "" then env else set_env (trim_space k) (show v) env)

  unfoldable pub extract_runtime_env : Fields → Env
  unfolding add_map lookup
  extract_runtime_env metadata =
      add_map (or_end (lookup "runtime_env" (or_end (lookup "runtime_metadata" metadata))))
        (add_map (or_end (lookup "runtime_env" metadata)) [])

-- `if strings.TrimSpace(value) != "" { if _, exists := cfg[key]; !exists { … } }`.
unfoldable pub default_to : String → String → Fields → Fields
unfolding lookup insert
default_to key value cfg = elim (lookup key cfg) [
  | some _ ↦ cfg
  | none ↦ if trim_space value == "" then cfg else insert key (text value) cfg
]

unfoldable pub with_repo : Target → Fields → Fields
unfolding default_to
with_repo t cfg = default_to "git_ref" t.git_ref (
    default_to "repo_url" t.repo_url
      (default_to "repo_path" t.repo_path (default_to "graph_target" t.graph_id cfg)))

abbrev pub configured : Target → Option Json → Json
configured t none = object (with_repo t end)
configured t (some null) = object (with_repo t end)
configured t (some (object cfg)) = object (with_repo t cfg)
configured t (some other) = other

-- `cfg` is the map that the metadata hold, so they get its new keys too.
abbrev pub shared : Target → Option Json → Fields → Fields
shared t (some (object cfg)) metadata = insert "configurable" (object (with_repo t cfg)) metadata
shared t _ metadata = metadata

abbrev pub copy_fields : Fields → Fields
copy_fields end = end
copy_fields (field k v m) =
    let rest = copy_fields m in if trim_space k == "" then rest else field k v rest

unfoldable pub runtime_metadata_of : Target → Fields → Fields
unfolding insert lookup
runtime_metadata_of t metadata = insert "graph_id" (text t.graph_id) (
    insert "repo_path" (text t.repo_path) (
      insert "git_ref" (text t.git_ref) (
        insert "repo_url" (text t.repo_url)
          (copy_fields (or_end (lookup "runtime_metadata" metadata))))))

abbrev pub or_null : Option Json → Json
or_null none = null
or_null (some v) = v

abbrev pub or_blank : Option String → String
or_blank none = ""
or_blank (some s) = s

abbrev pub env_of : Result Env → Env
env_of (ok env) = env
env_of (err e) = []

abbrev pub env_error : (Error → String) → Result Env → String
env_error describe (ok env) = ""
env_error describe (err e) = describe e

unfoldable pub pending_run :
    (Json → String) → (Error → String) → RunRow → Target → Result Env → PendingRun
unfolding with_repo runtime_metadata_of extract_runtime_env lookup insert
pending_run show describe row t loaded =
    let raw = fields_of row.metadata_json in
    let found = lookup "configurable" raw in
    let metadata = shared t found raw in
    record {
      id = row.id;
      thread_id = or_blank row.thread_id;
      assistant_id = row.assistant_id;
      stream_resumable = row.stream_resumable;
      input = row.input_json;
      command = or_null (lookup "command" metadata);
      configurable = configured t found;
      metadata = metadata;
      checkpoint_id = or_blank row.checkpoint_id;
      graph_id = t.graph_id;
      repo_path = t.repo_path;
      repo_url = t.repo_url;
      git_ref = t.git_ref;
      runtime_metadata = runtime_metadata_of t metadata;
      runtime_env = set_all (extract_runtime_env show metadata) (env_of loaded);
      deployment_id = t.deployment_id;
      project_id = t.project_id;
      env_decrypt_err = env_error describe loaded;
    }

-- The loop over the rows: blank keys are skipped, and one value that does not decrypt fails all.
unfoldable pub decrypt_all : (String → Result String) → List VariableRow → Env → Result Env
unfolding set_env
decrypt_all decrypt [] out = ok out
decrypt_all decrypt (row ∷ rows) out =
    if trim_space row.key == ""
    then decrypt_all decrypt rows out
    else elim (decrypt row.value_ciphertext) [
      | ok plain ↦ decrypt_all decrypt rows (set_env (trim_space row.key) plain out)
      | err e ↦ err e
    ]

abbrev pub returned : {A : Type 0} → Result A → Sql A
returned r c = (r, c)

pub decrypt_variables : Option (String → Result String) → String → Sql Env
unfolding decrypt_all
decrypt_variables none deployment_id = raise (message "deployment vars cipher is not configured")
decrypt_variables (some decrypt) deployment_id = do
  rows ← query (λ d. keep (λ (v : VariableRow). v.deployment_id == deployment_id) d.variables)
  returned (decrypt_all decrypt rows [])

unfoldable pub load_deployment_runtime_env : Option (String → Result String) → String → Sql Env
unfolding decrypt_variables
load_deployment_runtime_env cipher deployment_id =
    if trim_space deployment_id == "" then pure [] else decrypt_variables cipher deployment_id

-- `runtimeEnv, envErr :=`.
unfoldable pub attempt : {A : Type 0} → Sql A → Sql (Result A)
attempt m c = let (r, c') = m c in (ok r, c')

abbrev pub set_running : ℕ → RunRow → RunRow
set_running now row = record row {
  status = running;
  started_at = some (or_now row.started_at now);
  updated_at = now;
}

module _ (show : Json → String) (describe : Error → String)
    (cipher : Option (String → Result String)) where
  pub fetch_body : ℕ → Sql PendingRun
  fetch_body now = do
    found ← query_row next_pending
    loaded ← attempt (load_deployment_runtime_env cipher found.1.deployment_id)
    let run = pending_run show describe found.0 found.1 loaded
    exec (update_run run.id (set_running now))
    pure run

  unfoldable pub fetch_next_pending_run : ℕ → Sql PendingRun
  unfolding fetch_body
  fetch_next_pending_run now = transaction (fetch_body now)
