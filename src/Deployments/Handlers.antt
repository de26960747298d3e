-- ===== src/Deployments/Handlers.antt =====
-- The handlers of services/control-plane/internal/httpapi/httpapi.go that create, update and roll
-- back deployments, of requests that were decoded. New ids, the clock and the dynamic client are
-- parameters; `authorized` is the project of the key that the request came with, "" without one.
use langopen.Prelude.{
  ℕ, String, Bool, true, false, ◌&&◌, ◌||◌, not, Option, none, some, ◌==◌, any, if◌then◌else◌,
}
use langopen.Prelude.Text.{trim_space}
use langopen.Auth.Control.{resolve_project_id}
use langopen.Operator.Client.{Result, ok, failed}
use langopen.Deployments.{
  DeploymentRecord, Revision, Plane, works, Lookup, found, no_rows, lookup_failed, get_deployment,
  insert_deployment, replace_deployment, record_deployment_revision, get_deployment_revision,
  has_id,
}
use langopen.Deployments.Agents.{AgentClient, SyncConfig, sync_agent_deployment_record}

pub data DeploymentAnswer : Type 0 where
  deployment_answer : ℕ → DeploymentRecord → DeploymentAnswer
  deployment_refused : ℕ → String → DeploymentAnswer

pub record CreateRequest : Type 0 where
  pub project_id : String
  pub repo_url : String
  pub git_ref : String
  pub repo_path : String
  pub runtime_profile : String
  pub mode : String

pub record UpdateRequest : Type 0 where
  pub repo_url : Option String
  pub git_ref : Option String
  pub repo_path : Option String
  pub runtime_profile : Option String
  pub mode : Option String

-- The ids that a handler draws, and the time.
pub record Draws : Type 0 where
  pub deployment_id : String
  pub revision_row_id : String
  pub revision_id : String
  pub now : ℕ

-- The record with its fields replaced, or the error's code.
pub data Updated : Type 0 where
  updated : DeploymentRecord → Updated
  bad_field : String → Updated

abbrev pub is_none : {A : Type 0} → Option A → Bool
is_none none = true
is_none (some a) = false

abbrev pub asks_nothing : UpdateRequest → Bool
asks_nothing req =
    is_none req.repo_url
    && is_none req.git_ref
    && is_none req.repo_path
    && is_none req.runtime_profile
    && is_none req.mode

abbrev pub or_else : String → String → String
or_else default s = if s == "" then default else s

abbrev pub is_mode : String → Bool
is_mode m = m == "mode_a" || m == "mode_b"

abbrev pub scope_violation : DeploymentAnswer
scope_violation = deployment_refused 403 "project_scope_violation"

abbrev pub deployment_missing : DeploymentAnswer
deployment_missing = deployment_refused 404 "deployment_not_found"

module _ (C : AgentClient) (cfg : SyncConfig) (draws : Draws) where
  abbrev pub after_sync :
      ℕ
      → DeploymentRecord
      → Result (Unit {0})
      → Plane
      → C.Cluster
      → DeploymentAnswer × Plane × C.Cluster
  after_sync code rec (ok t) p w = (deployment_answer code rec, p, w)
  after_sync code rec (failed e) p w = (deployment_refused 502 "agent_deployment_sync_failed", p, w)

  -- What every handler does once the row is written: a revision, and the cluster.
  unfoldable pub publish :
      ℕ → String → DeploymentRecord → Plane → C.Cluster → DeploymentAnswer × Plane × C.Cluster
  publish code reason rec p w =
      let q =
        record_deployment_revision draws.revision_row_id draws.revision_id draws.now rec reason p in
      let (r, w') = sync_agent_deployment_record C cfg rec w in after_sync code rec r q w'

  abbrev pub created_in :
      DeploymentRecord → Plane → Option Plane → C.Cluster → DeploymentAnswer × Plane × C.Cluster
  created_in rec p none w = (deployment_refused 400 "db_insert_failed", p, w)
  created_in rec p (some q) w = publish 201 "create" rec q w

  abbrev pub create_record : CreateRequest → String → DeploymentRecord
  create_record req project_id = record {
    id = draws.deployment_id;
    project_id = or_else "proj_default" project_id;
    repo_url = req.repo_url;
    git_ref = or_else "main" req.git_ref;
    repo_path = or_else "/" req.repo_path;
    runtime_profile = or_else "gvisor" req.runtime_profile;
    mode = or_else "mode_a" req.mode;
    current_image_digest = "";
    created_at = draws.now;
    updated_at = draws.now;
  }

  abbrev pub create_in :
      CreateRequest → Option String → Plane → C.Cluster → DeploymentAnswer × Plane × C.Cluster
  create_in req none p w = (scope_violation, p, w)
  create_in req (some project_id) p w =
      if not (is_mode (or_else "mode_a" req.mode))
      then (deployment_refused 400 "invalid_mode", p, w)
      else let rec = create_record req project_id in created_in rec p (insert_deployment rec p) w

  -- The handler `createDeployment`.
  unfoldable pub create_deployment :
      String → CreateRequest → Plane → C.Cluster → DeploymentAnswer × Plane × C.Cluster
  unfolding publish
  create_deployment authorized req p w =
      if trim_space req.repo_url == ""
      then (deployment_refused 400 "invalid_deployment", p, w)
      else create_in req (resolve_project_id authorized req.project_id) p w

  -- The row of a record that was looked up is written.
  abbrev pub write_row :
      String → DeploymentRecord → Plane → C.Cluster → DeploymentAnswer × Plane × C.Cluster
  write_row reason rec p w =
      if not (works p)
      then (deployment_refused 500 "db_update_failed", p, w)
      else if not (any (has_id rec.id) p.deployments)
      then (deployment_missing, p, w)
      else publish 200 reason rec (record p { deployments = replace_deployment rec p.deployments })
          w

  -- One optional field: kept, replaced, or the error's code.
  abbrev pub text_field : String → Option String → Option String
  text_field old none = some old
  text_field old (some s) = if trim_space s == "" then none else some (trim_space s)

  abbrev pub mode_field : String → Option String → Option String
  mode_field old none = some old
  mode_field old (some s) = if is_mode (trim_space s) then some (trim_space s) else none

  -- The fields in their order: the first that is refused names the error.
  abbrev pub update_fields :
      DeploymentRecord
      → Option String
      → Option String
      → Option String
      → Option String
      → Option String
      → Updated
  update_fields rec none _ _ _ _ = bad_field "invalid_repo_url"
  update_fields rec (some _) none _ _ _ = bad_field "invalid_git_ref"
  update_fields rec (some _) (some _) none _ _ = bad_field "invalid_repo_path"
  update_fields rec (some _) (some _) (some _) none _ = bad_field "invalid_runtime_profile"
  update_fields rec (some _) (some _) (some _) (some _) none = bad_field "invalid_mode"
  update_fields rec (some url) (some ref) (some path) (some profile) (some mode) =
      updated (record rec {
        repo_url = url;
        git_ref = ref;
        repo_path = path;
        runtime_profile = profile;
        mode = mode;
        updated_at = draws.now;
      })

  abbrev pub write_updated : Updated → Plane → C.Cluster → DeploymentAnswer × Plane × C.Cluster
  write_updated (bad_field code) p w = (deployment_refused 400 code, p, w)
  write_updated (updated rec) p w = write_row "update" rec p w

  abbrev pub update_found :
      UpdateRequest → String → Lookup → Plane → C.Cluster → DeploymentAnswer × Plane × C.Cluster
  update_found req project_id no_rows p w = (deployment_missing, p, w)
  update_found req project_id lookup_failed p w =
      (deployment_refused 500 "deployment_lookup_failed", p, w)
  update_found req project_id (found rec) p w =
      if not (project_id == "") && not (rec.project_id == project_id)
      then (deployment_missing, p, w)
      else write_updated
          (update_fields rec (text_field rec.repo_url req.repo_url)
            (text_field rec.git_ref req.git_ref) (text_field rec.repo_path req.repo_path)
            (text_field rec.runtime_profile req.runtime_profile) (mode_field rec.mode req.mode))
          p w

  abbrev pub update_resolved :
      String
      → UpdateRequest
      → String
      → Option String
      → Plane
      → C.Cluster
      → DeploymentAnswer × Plane × C.Cluster
  update_resolved authorized req id none p w = (scope_violation, p, w)
  update_resolved authorized req id (some project_id) p w =
      if id == ""
      then (deployment_refused 400 "invalid_deployment_id", p, w)
      else if asks_nothing req
      then (deployment_refused 400 "invalid_deployment_update", p, w)
      else update_found req project_id (get_deployment authorized id p) p w

  -- The handler `updateDeployment`.
  unfoldable pub update_deployment :
      String
      → String
      → String
      → UpdateRequest
      → Plane
      → C.Cluster
      → DeploymentAnswer × Plane × C.Cluster
  unfolding publish
  update_deployment authorized requested raw_id req p w =
      update_resolved authorized req (trim_space raw_id) (resolve_project_id authorized requested) p
        w

  abbrev pub rollback_row :
      String → String → Lookup → Plane → C.Cluster → DeploymentAnswer × Plane × C.Cluster
  rollback_row authorized digest no_rows p w = (deployment_missing, p, w)
  rollback_row authorized digest lookup_failed p w =
      (deployment_refused 500 "deployment_lookup_failed", p, w)
  rollback_row authorized digest (found rec) p w =
      if is_none (resolve_project_id authorized rec.project_id)
      then (deployment_missing, p, w)
      else write_row "rollback"
          (record rec { current_image_digest = digest; updated_at = draws.now }) p w

  -- `rollbackDeploymentByDigest`.
  unfoldable pub rollback_deployment_by_digest :
      String → String → String → Plane → C.Cluster → DeploymentAnswer × Plane × C.Cluster
  unfolding publish
  rollback_deployment_by_digest authorized id digest p w =
      rollback_row authorized digest (get_deployment authorized id p) p w

  abbrev pub bad_rollback : DeploymentAnswer
  bad_rollback = deployment_refused 400 "invalid_rollback_request"

  -- The handler `rollbackDeployment`.
  unfoldable pub rollback_deployment :
      String → String → String → Plane → C.Cluster → DeploymentAnswer × Plane × C.Cluster
  unfolding rollback_deployment_by_digest
  rollback_deployment authorized raw_id raw_digest p w =
      if trim_space raw_id == ""
      then (deployment_refused 400 "invalid_deployment_id", p, w)
      else if trim_space raw_digest == ""
      then (bad_rollback, p, w)
      else rollback_deployment_by_digest authorized (trim_space raw_id) (trim_space raw_digest) p w

  -- Back to a revision: the image that it had.
  abbrev pub rollback_to :
      String
      → String
      → Option (Option Revision)
      → Plane
      → C.Cluster
      → DeploymentAnswer × Plane × C.Cluster
  rollback_to authorized id none p w = (deployment_refused 500 "revision_lookup_failed", p, w)
  rollback_to authorized id (some none) p w = (deployment_refused 404 "revision_not_found", p, w)
  rollback_to authorized id (some (some rev)) p w =
      if trim_space rev.image_digest == ""
      then (deployment_refused 400 "invalid_revision", p, w)
      else rollback_deployment_by_digest authorized id (trim_space rev.image_digest) p w

  -- The handler `rollbackDeploymentV2`.
  unfoldable pub rollback_deployment_v2 :
      String → String → String → String → Plane → C.Cluster → DeploymentAnswer × Plane × C.Cluster
  unfolding rollback_deployment_by_digest
  rollback_deployment_v2 authorized raw_id raw_revision raw_digest p w =
      let id = trim_space raw_id in
      let revision_id = trim_space raw_revision in
      let digest = trim_space raw_digest in
      if id == ""
      then (deployment_refused 400 "invalid_deployment_id", p, w)
      else if revision_id == "" && digest == ""
      then (bad_rollback, p, w)
      else if digest == ""
      then rollback_to authorized id (get_deployment_revision id revision_id p) p w
      else rollback_deployment_by_digest authorized id digest p w
