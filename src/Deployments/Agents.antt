-- ===== src/Deployments/Agents.antt =====
-- `syncAgentDeploymentRecord`, `deleteAgentDeployment` and the functions that they use, of
-- services/control-plane/internal/httpapi/httpapi.go. The dynamic client is a parameter.
use langopen.Prelude.{String, Bool, not, List, [], ◌∷◌, ◌==◌, if◌then◌else◌}
use langopen.Prelude.Text.{Codes, codes, codes_eq, to_lower, trim_codes, trim_space, has_prefix}
use langopen.Operator.Client.{not_found, no_match, other_error, Result, ok, failed}
use langopen.Deployments.{DeploymentRecord}

-- An AgentDeployment as the control plane writes it; the operator reads the specification.
pub record AgentObject : Type 0 where
  pub name : String
  pub labels : List (String × String)
  pub image : String
  pub runtime_class_name : Codes
  pub mode : String

-- The fields of `API` that steer the synchronisation; `enabled` is `syncAgentDeployment` with a
-- client.
pub record SyncConfig : Type 0 where
  pub enabled : Bool
  pub strict : Bool
  pub agent_namespace : String
  pub default_agent_image : String

pub record AgentClient : Type 1 where
  pub Cluster : Type 0
  pub get : String → String → Cluster → Result AgentObject × Cluster
  pub create : String → AgentObject → Cluster → Result (Unit {0}) × Cluster
  pub update : String → AgentObject → Cluster → Result (Unit {0}) × Cluster
  pub delete : String → String → Cluster → Result (Unit {0}) × Cluster

abbrev pub or_image : String → String → String
or_image image default = if image == "" then default else image

unfoldable pub agent_image_for_deployment : SyncConfig → DeploymentRecord → String
agent_image_for_deployment cfg dep =
    or_image (or_image (trim_space dep.current_image_digest) (trim_space cfg.default_agent_image))
      "ghcr.io/mayflower/langopen/agent-runtime:latest"

unfoldable pub runtime_class_for_profile : String → Codes
runtime_class_for_profile raw =
    let profile = trim_codes (to_lower (codes raw)) in
    if codes_eq profile []
    then codes "gvisor"
    else if has_prefix profile (codes "kata")
    then profile
    else codes "gvisor"

unfoldable pub normalize_mode : String → String
normalize_mode mode =
    if codes_eq (trim_codes (to_lower (codes mode))) (codes "mode_b") then "mode_b" else "mode_a"

unfoldable pub desired_agent : SyncConfig → DeploymentRecord → AgentObject
unfolding agent_image_for_deployment runtime_class_for_profile normalize_mode
desired_agent cfg dep = record {
  name = dep.id;
  labels = ("project_id", dep.project_id) ∷ [];
  image = agent_image_for_deployment cfg dep;
  runtime_class_name = runtime_class_for_profile dep.runtime_profile;
  mode = normalize_mode dep.mode;
}

-- `labels["project_id"] = …`.
unfoldable pub set_label : String → String → List (String × String) → List (String × String)
set_label key value [] = (key, value) ∷ []
set_label key value ((k, v) ∷ rest) =
    let later = set_label key value rest in if k == key then (k, value) ∷ rest else (k, v) ∷ later

-- `handleAgentSyncError`: only a strict service passes an error on.
unfoldable pub handle_agent_sync_error : SyncConfig → Result (Unit {0}) → Result (Unit {0})
handle_agent_sync_error cfg (ok t) = ok t
handle_agent_sync_error cfg (failed e) = if cfg.strict then failed e else ok tt

abbrev pub namespace_of : SyncConfig → String
namespace_of cfg =
    if trim_space cfg.agent_namespace == "" then "default" else trim_space cfg.agent_namespace

module _ (C : AgentClient) (cfg : SyncConfig) where
  abbrev pub handled : Result (Unit {0}) × C.Cluster → Result (Unit {0}) × C.Cluster
  handled (r, w) = (handle_agent_sync_error cfg r, w)

  abbrev pub put_agent :
      DeploymentRecord → Result AgentObject → C.Cluster → Result (Unit {0}) × C.Cluster
  put_agent dep (ok current) w = handled (
      C.update (namespace_of cfg)
        (record (desired_agent cfg dep) {
          labels = set_label "project_id" dep.project_id current.labels;
        })
        w)
  put_agent dep (failed not_found) w =
      handled (C.create (namespace_of cfg) (desired_agent cfg dep) w)
  put_agent dep (failed no_match) w = (handle_agent_sync_error cfg (failed no_match), w)
  put_agent dep (failed (other_error e)) w =
      (handle_agent_sync_error cfg (failed (other_error e)), w)

  -- `syncAgentDeploymentRecord`.
  unfoldable pub sync_agent_deployment_record :
      DeploymentRecord → C.Cluster → Result (Unit {0}) × C.Cluster
  unfolding desired_agent set_label handle_agent_sync_error
  sync_agent_deployment_record dep w =
      if not cfg.enabled
      then (ok tt, w)
      else let (r, w') = C.get (namespace_of cfg) dep.id w in put_agent dep r w'

  abbrev pub delete_result : Result (Unit {0}) → Result (Unit {0})
  delete_result (ok t) = ok tt
  delete_result (failed not_found) = ok tt
  delete_result (failed no_match) = handle_agent_sync_error cfg (failed no_match)
  delete_result (failed (other_error e)) = handle_agent_sync_error cfg (failed (other_error e))

  -- `deleteAgentDeployment`.
  unfoldable pub delete_agent_deployment : String → C.Cluster → Result (Unit {0}) × C.Cluster
  unfolding handle_agent_sync_error
  delete_agent_deployment id w =
      if not cfg.enabled
      then (ok tt, w)
      else let (r, w') = C.delete (namespace_of cfg) id w in (delete_result r, w')
