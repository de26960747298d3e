-- ===== src/Builder/Handlers.antt =====
-- The handlers of services/builder/internal/api/api.go. The Kubernetes client, SHA-256, the new ids
-- and the clock are parameters; a response is its HTTP status and what it says.
use langopen.Prelude.{
  ℕ, Bool, true, false, ◌&&◌, ◌||◌, not, Option, none, some, List, [], ◌∷◌, ◌++◌, if◌then◌else◌,
}
use langopen.Prelude.Maps.{insert}
use langopen.Prelude.Text.{Codes, codes, codes_eq, trim_codes}
use langopen.Builder.Langgraph.{Files, ValidationResult}
use langopen.Builder.Validate.{validate}
use langopen.Builder.Job.{JobSpec, build_kit_job_spec}
use langopen.Builder.Api.{BuildRecord, Api, update_build_metrics, JobStatus, digest_for}

-- A row of the table `builds`.
pub record BuildRow : Type 0 where
  pub id : Codes
  pub deployment_id : Codes
  pub status : Codes
  pub commit_sha : Codes
  pub image_digest : Codes
  pub logs_ref : Codes
  pub created_at : ℕ
  pub updated_at : ℕ

-- Postgres, with statements that get through or all fail.
pub record Table : Type 0 where
  pub rows : List BuildRow
  pub reachable : Bool

-- The service: its memory, and `a.pg`.
pub record Service : Type 0 where
  pub api : Api
  pub table : Option Table

pub data Body : Type 0 where
  error_body : Codes → Body
  validation_body : ValidationResult → Body
  rejected_body : ValidationResult → Body
  job_body : JobSpec → Body
  build_body : BuildRecord → Body
  logs_body : Codes → Codes → Body

pub data Response : Type 0 where
  respond : ℕ → Body → Response

pub data Creation : Type 0 where
  created : Codes → Creation
  already_exists : Creation
  create_failed : Codes → Creation

-- `a.kube`: of a namespace and a name, the job, and the log of its first pod; and the creation of a
-- job by a prefix of its name, by the number of the attempt.
pub record Kube : Type 0 where
  pub get_job : Codes → Codes → Option JobStatus
  pub pod_log : Codes → Codes → Option Codes
  pub create_job : ℕ → Codes → Codes → JobSpec → Creation

pub record BuildRequest : Type 0 where
  pub deployment_id : Codes
  pub project_id : Codes
  pub repo_url : Codes
  pub git_ref : Codes
  pub repo_path : Codes
  pub langgraph_path : Codes
  pub image_name : Codes
  pub commit_sha : Codes

abbrev pub bad_request : Codes → Response
bad_request code = respond 400 (error_body code)

module _ (F : Files) where
  abbrev pub config_path_of : Codes → Codes → Codes
  config_path_of repo_path langgraph_path =
      if codes_eq langgraph_path []
      then F.join repo_path (codes "langgraph.json")
      else langgraph_path

  -- The handler `validate`, of a request that was decoded.
  unfoldable pub handle_validate : Codes → Codes → Response
  handle_validate repo_path langgraph_path =
      let result = validate F repo_path (config_path_of repo_path langgraph_path) in
      respond (if result.valid then 200 else 422) (validation_body result)

abbrev pub job_response : Option JobSpec → Response
job_response none = bad_request (codes "invalid_request")
job_response (some job) = respond 200 (job_body job)

-- The handler `buildJob`, of a request that was decoded.
unfoldable pub build_job : BuildRequest → Response
build_job req =
    job_response
      (build_kit_job_spec req.repo_url req.git_ref req.repo_path req.image_name req.commit_sha)

abbrev pub created_name : Creation → Option Codes
created_name (created name) = some name
created_name already_exists = none
created_name (create_failed e) = none

-- The first attempt, and the one that follows a name that is taken.
abbrev pub retry_taken : Kube → Codes → JobSpec → Creation → Option Codes
retry_taken kube namespace job (created name) = some name
retry_taken kube namespace job (create_failed e) = none
retry_taken kube namespace job already_exists =
    created_name (kube.create_job 1 namespace (job.name ++ codes "-") job)

-- `submitBuildJob`: the name that the cluster gave, or `none` for an error.
unfoldable pub submit_build_job : Option Kube → Codes → JobSpec → Option Codes
submit_build_job none namespace job = none
submit_build_job (some kube) namespace job =
    retry_taken kube namespace job (kube.create_job 0 namespace (job.name ++ codes "-") job)

-- What `triggerBuild` finds out before it writes: the status, the job's name and whether there is
-- one, or the error.
pub data Submission : Type 0 where
  submitted : Codes → Codes → Bool → Submission
  not_submitted : Response → Submission

abbrev pub queued_as : Option Codes → Submission
queued_as none = not_submitted (respond 502 (error_body (codes "build_job_submit_failed")))
queued_as (some name) = submitted (codes "queued") name true

abbrev pub submit_spec : Option Kube → Codes → Option JobSpec → Submission
submit_spec kube namespace none = not_submitted (bad_request (codes "invalid_request"))
submit_spec kube namespace (some job) = queued_as (submit_build_job kube namespace job)

unfoldable pub submit : Option Kube → BuildRequest → Api → Submission
unfolding submit_build_job
submit kube req a =
    if a.execute_jobs
    then submit_spec kube a.build_namespace
        (build_kit_job_spec req.repo_url req.git_ref req.repo_path req.image_name req.commit_sha)
    else submitted (codes "succeeded") [] false

abbrev pub join_lines : List Codes → Codes
join_lines [] = []
join_lines (l ∷ []) = l
join_lines (l ∷ m ∷ rest) = l ++ (codes "\n" ++ join_lines (m ∷ rest))

unfoldable pub first_logs : BuildRequest → Codes → BuildRecord → Codes
first_logs req namespace rec = join_lines (
    (codes "build_id=" ++ rec.id ++ codes " status=" ++ rec.status)
    ∷ codes "builder=buildkit-rootless image=moby/buildkit:rootless"
    ∷ (codes "source repo=" ++ req.repo_url ++ codes " ref=" ++ req.git_ref)
    ∷ (codes "target image="
        ++ req.image_name
        ++ codes ":"
        ++ req.commit_sha
        ++ codes " digest="
        ++ rec.image_digest)
    ∷ (if rec.job_submitted
        then codes "job_submitted namespace=" ++ namespace ++ codes " name=" ++ rec.job_name
        else codes "status=succeeded")
    ∷ [])

unfoldable pub job_ref : Codes → Codes → Codes
job_ref namespace job_name = codes "k8s://" ++ namespace ++ codes "/jobs/" ++ job_name

unfoldable pub row_of : BuildRecord → BuildRow
row_of rec = record {
  id = rec.id;
  deployment_id = rec.deployment_id;
  status = rec.status;
  commit_sha = rec.commit_sha;
  image_digest = rec.image_digest;
  logs_ref = rec.logs_ref;
  created_at = rec.created_at;
  updated_at = rec.updated_at;
}

-- A new record and its first logs, in memory.
unfoldable pub remember : BuildRecord → Codes → Api → Api
remember rec logs a =
    let b =
      update_build_metrics rec.id [] rec.status
        (record a { builds = insert rec.id rec a.builds }) in
    record b { logs = insert rec.id logs b.logs }

-- The INSERT, and the response.
abbrev pub insert_row : BuildRecord → Api → Option Table → Response × Service
insert_row rec a none = (respond 202 (build_body rec), record { api = a; table = none })
insert_row rec a (some t) =
    if t.reachable
    then (
      respond 202 (build_body rec),
      record { api = a; table = some (record t { rows = t.rows ++ row_of rec ∷ [] }) },
    )
    else (respond 500 (error_body (codes "db_insert_failed")), record { api = a; table = some t })

abbrev pub or_main : Codes → Codes
or_main git_ref = if codes_eq git_ref [] then codes "main" else git_ref

unfoldable pub new_record :
    (Codes → Codes) → Codes → ℕ → Codes → BuildRequest → Codes → Codes → Bool → BuildRecord
unfolding job_ref
new_record sum_hex build_id now namespace req status job_name job_submitted = record {
  id = build_id;
  deployment_id = req.deployment_id;
  status = status;
  commit_sha = req.commit_sha;
  image_name = req.image_name;
  image_digest = digest_for sum_hex req.image_name req.commit_sha;
  job_name = job_name;
  job_submitted = job_submitted;
  logs_ref =
      if job_submitted then job_ref namespace job_name else codes "inline://builds/" ++ build_id;
  loki_labels =
      (codes "service", codes "builder")
      ∷ (codes "build_id", build_id)
      ∷ (codes "deployment_id", req.deployment_id)
      ∷ (codes "project_id", req.project_id)
      ∷ (codes "commit_sha", req.commit_sha)
      ∷ [];
  created_at = now;
  updated_at = now;
}

abbrev pub record_submission :
    (Codes → Codes) → Codes → ℕ → BuildRequest → Service → Submission → Response × Service
record_submission sum_hex build_id now req s (not_submitted r) = (r, s)
record_submission sum_hex build_id now req s (submitted status job_name job_submitted) =
    let namespace = s.api.build_namespace in
    let rec = new_record sum_hex build_id now namespace req status job_name job_submitted in
    insert_row rec (remember rec (first_logs req namespace rec) s.api) s.table

abbrev pub lacks_names : BuildRequest → Bool
lacks_names req =
    codes_eq (trim_codes req.deployment_id) []
    || codes_eq (trim_codes req.image_name) []
    || codes_eq (trim_codes req.commit_sha) []

-- The handler `triggerBuild`, of a request that was decoded.
unfoldable pub trigger_build :
    Files → Option Kube → (Codes → Codes) → Codes → ℕ → BuildRequest → Service → Response × Service
unfolding submit
trigger_build F kube sum_hex build_id now raw s =
    let req = record raw { git_ref = or_main raw.git_ref } in
    let checked = validate F req.repo_path (config_path_of F req.repo_path req.langgraph_path) in
    if lacks_names req
    then (bad_request (codes "invalid_request"), s)
    else if not (codes_eq req.repo_path []) && not checked.valid
    then (respond 422 (rejected_body checked), s)
    else record_submission sum_hex build_id now req s (submit kube req s.api)
