-- ===== src/Deployments.antt =====
-- The deployments of the control plane (services/control-plane/internal/httpapi/httpapi.go): this
-- file has the records and their tables, Agents what becomes of a deployment in the cluster, and
-- Handlers the handlers that create, change and roll back. The audit log is left out.
pub mod Agents
pub mod Handlers
pub mod Rollback
pub mod Revert
use langopen.Prelude.{
  ℕ, String, Bool, true, false, ◌&&◌, ◌||◌, not, Option, none, some, List, [], ◌∷◌, ◌++◌, ◌==◌, any,
  find, if◌then◌else◌,
}
use langopen.Prelude.Text.{trim_space}

pub record DeploymentRecord : Type 0 where
  pub id : String
  pub project_id : String
  pub repo_url : String
  pub git_ref : String
  pub repo_path : String
  pub runtime_profile : String
  pub mode : String
  pub current_image_digest : String
  pub created_at : ℕ
  pub updated_at : ℕ

pub record Revision : Type 0 where
  pub id : String
  pub deployment_id : String
  pub revision_id : String
  pub image_digest : String
  pub reason : String
  pub created_at : ℕ

-- The tables, or the lists that stand in for them where there is no Postgres. `reachable` is
-- whether the statements get through; the lists have no projects to refer to.
pub record Plane : Type 0 where
  pub postgres : Bool
  pub reachable : Bool
  pub projects : List String
  pub deployments : List DeploymentRecord
  pub revisions : List Revision

abbrev pub works : Plane → Bool
works p = not p.postgres || p.reachable

abbrev pub has_id : String → DeploymentRecord → Bool
has_id id rec = rec.id == id

-- What `getDeployment` answers: a record, sql.ErrNoRows, or another error.
pub data Lookup : Type 0 where
  found : DeploymentRecord → Lookup
  no_rows lookup_failed : Lookup

abbrev pub in_project : String → Option DeploymentRecord → Lookup
in_project authorized none = no_rows
in_project authorized (some rec) =
    if not (authorized == "") && not (rec.project_id == authorized) then no_rows else found rec

-- `getDeployment`; `authorized` is the project of the caller's key.
unfoldable pub get_deployment : String → String → Plane → Lookup
get_deployment authorized id p =
    if works p then in_project authorized (find (has_id id) p.deployments) else lookup_failed

-- INSERT, with the constraints of the table.
unfoldable pub insert_deployment : DeploymentRecord → Plane → Option Plane
insert_deployment rec p =
    let added = record p { deployments = p.deployments ++ rec ∷ [] } in
    if not p.postgres
    then some added
    else if not p.reachable || any (has_id rec.id) p.deployments
    then none
    else if any (λ q. q == rec.project_id) p.projects
    then some added
    else none

-- The UPDATE of the row, which the lookup has found.
unfoldable pub replace_deployment : DeploymentRecord → List DeploymentRecord → List DeploymentRecord
replace_deployment rec [] = []
replace_deployment rec (d ∷ ds) =
    let later = replace_deployment rec ds in if d.id == rec.id then rec ∷ ds else d ∷ later

abbrev pub or_update : String → String
or_update reason = if trim_space reason == "" then "update" else trim_space reason

-- `recordDeploymentRevision`, whose error the handlers drop; the new ids are parameters.
unfoldable pub record_deployment_revision :
    String → String → ℕ → DeploymentRecord → String → Plane → Plane
record_deployment_revision id revision_id now dep reason p =
    if works p
    then record p {
      revisions =
          p.revisions
          ++ record {
            id = id;
            deployment_id = dep.id;
            revision_id = revision_id;
            image_digest = trim_space dep.current_image_digest;
            reason = or_update reason;
            created_at = now;
          }
            ∷ [];
    }
    else p

abbrev pub is_revision : String → String → Revision → Bool
is_revision deployment_id revision_id r =
    r.deployment_id == deployment_id && r.revision_id == revision_id

-- `getDeploymentRevisionByRevisionID`: an error, or the revision if there is one. Ids are not
-- given twice, so that the order does not matter.
unfoldable pub get_deployment_revision : String → String → Plane → Option (Option Revision)
get_deployment_revision deployment_id revision_id p =
    if works p then some (find (is_revision deployment_id revision_id) p.revisions) else none
