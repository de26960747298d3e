-- ===== src/Builder/Api.antt =====
-- The state of services/builder/internal/api/api.go, its metrics, and how it reads a build's job.
-- Text is by the characters' numbers. A handler runs alone: the model does not interleave them.
use langopen.Prelude.{
  ℕ, zero, suc, ◌-◌, Bool, true, false, ◌&&◌, ◌||◌, not, Option, none, some, List, [], ◌∷◌, ◌++◌,
  length, ltb, if◌then◌else◌,
}
use langopen.Prelude.Int.{ℤ, succ_ℤ, pred_ℤ}
use langopen.Prelude.Maps.{lookup, insert}
use langopen.Prelude.Text.{Codes, codes, codes_eq, has_prefix, drop_prefix, trim_codes, to_lower}

pub record BuildRecord : Type 0 where
  pub id : Codes
  pub deployment_id : Codes
  pub status : Codes
  pub commit_sha : Codes
  pub image_name : Codes
  pub image_digest : Codes
  pub job_name : Codes
  pub job_submitted : Bool
  pub logs_ref : Codes
  pub loki_labels : List (Codes × Codes)
  pub created_at : ℕ
  pub updated_at : ℕ

-- The gauge of a status, and the counter of the failures, are the metrics.
pub record Api : Type 0 where
  pub execute_jobs : Bool
  pub build_namespace : Codes
  pub builds : List (Codes × BuildRecord)
  pub status : List (Codes × Codes)
  pub logs : List (Codes × Codes)
  pub gauge : Codes → ℤ
  pub failures : ℕ

abbrev pub or_none : Option Codes → Codes
or_none none = []
or_none (some s) = s

-- `a.status[buildID]`: a missing key is "".
unfoldable pub status_of : Codes → Api → Codes
unfolding lookup
status_of build_id a = or_none (lookup build_id a.status)

abbrev pub bump : (ℤ → ℤ) → Codes → (Codes → ℤ) → Codes → ℤ
bump f key gauge s = if codes_eq key s then f (gauge s) else gauge s

abbrev pub is_failure : Codes → Bool
is_failure s = codes_eq s (codes "failed") || codes_eq s (codes "failed_validation")

unfoldable pub leave_status : Codes → Api → Api
leave_status prev a = if codes_eq prev [] then a else record a { gauge = bump pred_ℤ prev a.gauge }

unfoldable pub enter_status : Codes → Codes → Api → Api
unfolding insert
enter_status build_id next a = if codes_eq next [] then a else record a {
  gauge = bump succ_ℤ next a.gauge;
  failures = if is_failure next then suc a.failures else a.failures;
  status = insert build_id next a.status;
}

abbrev pub prev_status : Codes → Codes → Api → Codes
prev_status build_id prev a = if codes_eq prev [] then status_of build_id a else prev

-- `updateBuildMetricsLocked`.
unfoldable pub update_build_metrics : Codes → Codes → Codes → Api → Api
unfolding status_of leave_status enter_status
update_build_metrics build_id prev next a =
    let before = prev_status build_id prev a in
    if codes_eq before next then a else enter_status build_id next (leave_status before a)

-- `strings.Split` at a separator that is not empty; `skip` characters of one that began are left.
abbrev pub add_first : ℕ → List Codes → List Codes
add_first c [] = (c ∷ []) ∷ []
add_first c (part ∷ parts) = (c ∷ part) ∷ parts

unfoldable pub split_from : Codes → ℕ → Codes → List Codes
split_from sep skip [] = [] ∷ []
split_from sep zero (c ∷ s) =
    let here = split_from sep zero s in
    let past = split_from sep (length sep - 1) s in
    if has_prefix (c ∷ s) sep then [] ∷ past else add_first c here
split_from sep (suc n) (c ∷ s) = split_from sep n s

abbrev pub two_parts : List Codes → Option (Codes × Codes)
two_parts (a ∷ b ∷ []) =
    let namespace = trim_codes a in
    let job_name = trim_codes b in
    if codes_eq namespace [] || codes_eq job_name [] then none else some (namespace, job_name)
two_parts _ = none

unfoldable pub parse_logs_ref : Codes → Option (Codes × Codes)
unfolding split_from
parse_logs_ref logs_ref =
    if not (has_prefix logs_ref (codes "k8s://"))
    then none
    else two_parts (split_from (codes "/jobs/") 0 (drop_prefix logs_ref (codes "k8s://")))

abbrev pub namespace_or : Codes → Option (Codes × Codes) → Codes
namespace_or fallback none = fallback
namespace_or fallback (some (namespace, job_name)) = namespace

unfoldable pub parse_k8s_job_ref : BuildRecord → Codes → Option (Codes × Codes)
parse_k8s_job_ref rec fallback =
    if not (codes_eq rec.job_name [])
    then some (namespace_or fallback (parse_logs_ref rec.logs_ref), rec.job_name)
    else parse_logs_ref rec.logs_ref

-- What is read of a Kubernetes job; of a condition, its type and its status.
pub record JobStatus : Type 0 where
  pub succeeded : ℕ
  pub failed : ℕ
  pub active : ℕ
  pub conditions : List (Codes × Codes)

abbrev pub is_condition : Codes → Codes × Codes → Bool
is_condition kind (k, status) = codes_eq k kind && codes_eq status (codes "True")

unfoldable pub condition_status : List (Codes × Codes) → Option Codes
condition_status [] = none
condition_status (c ∷ rest) =
    if is_condition (codes "Complete") c
    then some (codes "succeeded")
    else if is_condition (codes "Failed") c
    then some (codes "failed")
    else condition_status rest

abbrev pub active_status : ℕ → Option Codes → Codes
active_status active (some s) = s
active_status active none = if ltb 0 active then codes "running" else codes "queued"

-- `lookupJobStatus`, of a job that was found.
unfoldable pub job_status : JobStatus → Codes
unfolding condition_status
job_status job =
    if ltb 0 job.succeeded
    then codes "succeeded"
    else if ltb 0 job.failed
    then codes "failed"
    else active_status job.active (condition_status job.conditions)

-- `envOrDefault` and `envBoolOrDefault`, of the variable's value.
unfoldable pub env_or_default : Codes → Codes → Codes
env_or_default value fallback =
    if codes_eq (trim_codes value) [] then fallback else trim_codes value

abbrev pub one_of : Codes → List Codes → Bool
one_of value [] = false
one_of value (s ∷ rest) = codes_eq value s || one_of value rest

unfoldable pub env_bool_or_default : Codes → Bool → Bool
env_bool_or_default raw fallback =
    let value = trim_codes (to_lower raw) in
    if one_of value
      (codes "1" ∷ codes "t" ∷ codes "true" ∷ codes "yes" ∷ codes "y" ∷ codes "on" ∷ [])
    then true
    else if one_of value
        (codes "0" ∷ codes "f" ∷ codes "false" ∷ codes "no" ∷ codes "n" ∷ codes "off" ∷ [])
    then false
    else fallback

-- `digestFor`; `sum_hex` is the hexadecimal SHA-256.
unfoldable pub digest_for : (Codes → Codes) → Codes → Codes → Codes
digest_for sum_hex image_name commit_sha =
    codes "sha256:" ++ sum_hex (image_name ++ codes "@" ++ commit_sha)
