-- ===== src/Builder/Reads.antt =====
-- The handlers of services/builder/internal/api/api.go that read a build, and how the job of a
-- build brings its record up to date.
use langopen.Prelude.{ℕ, Bool, true, false, ◌||◌, Option, none, some, [], map, find, if◌then◌else◌}
use langopen.Prelude.Maps.{lookup, insert}
use langopen.Prelude.Text.{Codes, codes, codes_eq, trim_codes}
use langopen.Builder.Api.{
  BuildRecord, update_build_metrics, parse_logs_ref, parse_k8s_job_ref, JobStatus, job_status,
}
use langopen.Builder.Handlers.{
  BuildRow, Table, Service, Kube, Response, respond, error_body, build_body, logs_body, bad_request,
}

abbrev pub with_job : Option (Codes × Codes) → BuildRecord → BuildRecord
with_job none rec = rec
with_job (some (namespace, job_name)) rec = record rec { job_name = job_name; job_submitted = true }

-- `getBuildFromPostgres`, of the row that was found.
unfoldable pub record_of : BuildRow → BuildRecord
record_of row = with_job (parse_logs_ref row.logs_ref) (record {
  id = row.id;
  deployment_id = row.deployment_id;
  status = row.status;
  commit_sha = row.commit_sha;
  image_name = [];
  image_digest = row.image_digest;
  job_name = [];
  job_submitted = false;
  logs_ref = row.logs_ref;
  loki_labels = [];
  created_at = row.created_at;
  updated_at = row.updated_at;
})

abbrev pub set_row : Codes → Codes → ℕ → BuildRow → BuildRow
set_row build_id status now row =
    if codes_eq row.id build_id then record row { status = status; updated_at = now } else row

-- The UPDATE of the refresh, whose error is dropped.
abbrev pub update_row : Codes → Codes → ℕ → Option Table → Option Table
update_row build_id status now none = none
update_row build_id status now (some t) =
    if t.reachable
    then some (record t { rows = map (set_row build_id status now) t.rows })
    else some t

unfoldable pub apply_status : Codes → Codes → ℕ → BuildRecord → Service → BuildRecord × Service
apply_status job_name next now rec s =
    if codes_eq next [] || codes_eq next rec.status
    then (rec, s)
    else let fresh = record rec {
      status = next;
      job_name = job_name;
      job_submitted = true;
      updated_at = now;
    } in
      let a = update_build_metrics rec.id rec.status next s.api in
      (
        fresh,
        record {
          api = record a { builds = insert rec.id fresh a.builds };
          table = update_row rec.id next now s.table;
        },
      )

abbrev pub apply_job : Codes → Option JobStatus → ℕ → BuildRecord → Service → BuildRecord × Service
apply_job job_name none now rec s = (rec, s)
apply_job job_name (some job) now rec s = apply_status job_name (job_status job) now rec s

abbrev pub refresh_ref :
    Kube → Option (Codes × Codes) → ℕ → BuildRecord → Service → BuildRecord × Service
refresh_ref kube none now rec s = (rec, s)
refresh_ref kube (some (namespace, job_name)) now rec s =
    apply_job job_name (kube.get_job namespace job_name) now rec s

-- `refreshBuildRuntimeStatus`.
unfoldable pub refresh : Option Kube → ℕ → BuildRecord → Service → BuildRecord × Service
unfolding apply_status
refresh none now rec s = (rec, s)
refresh (some kube) now rec s =
    refresh_ref kube (parse_k8s_job_ref rec s.api.build_namespace) now rec s

abbrev pub note_status : BuildRecord → Service → Service
note_status rec s = record s { api = update_build_metrics rec.id [] rec.status s.api }

unfoldable pub show : Option Kube → ℕ → BuildRecord → Service → Response × Service
unfolding refresh
show kube now rec s =
    let (fresh, s') = refresh kube now rec s in
    (respond 200 (build_body fresh), note_status fresh s')

-- A row, a table that has none, or a query that fails.
pub data Query : Type 0 where
  found : BuildRecord → Query
  no_rows query_failed : Query

abbrev pub has_id : Codes → BuildRow → Bool
has_id build_id row = codes_eq row.id build_id

abbrev pub row_query : Option BuildRow → Query
row_query none = no_rows
row_query (some row) = found (record_of row)

-- `getBuildFromPostgres`.
unfoldable pub query_build : Codes → Table → Query
query_build build_id t =
    if t.reachable then row_query (find (has_id build_id) t.rows) else query_failed

abbrev pub not_found : Codes → Response
not_found code = respond 404 (error_body code)

abbrev pub show_query : Option Kube → ℕ → Query → Service → Response × Service
show_query kube now (found rec) s = show kube now rec s
show_query kube now no_rows s = (not_found (codes "build_not_found"), s)
show_query kube now query_failed s = (respond 500 (error_body (codes "db_query_failed")), s)

abbrev pub show_stored : Option Kube → ℕ → Codes → Option Table → Service → Response × Service
show_stored kube now build_id none s = (not_found (codes "build_not_found"), s)
show_stored kube now build_id (some t) s = show_query kube now (query_build build_id t) s

abbrev pub show_known : Option Kube → ℕ → Codes → Option BuildRecord → Service → Response × Service
show_known kube now build_id (some rec) s = show kube now rec s
show_known kube now build_id none s = show_stored kube now build_id s.table s

-- The handler `getBuild`.
unfoldable pub get_build : Option Kube → ℕ → Codes → Service → Response × Service
unfolding show query_build
get_build kube now raw s =
    let build_id = trim_codes raw in
    if codes_eq build_id []
    then (bad_request (codes "invalid_build_id"), s)
    else show_known kube now build_id (lookup build_id s.api.builds) s

abbrev pub log_of : Kube → Option (Codes × Codes) → Option Codes
log_of kube none = none
log_of kube (some (namespace, job_name)) = kube.pod_log namespace job_name

abbrev pub if_filled : Option Codes → Option Codes
if_filled none = none
if_filled (some log) = if codes_eq (trim_codes log) [] then none else some log

-- The log of a build's job, if it has one that says something.
unfoldable pub job_log : Option Kube → BuildRecord → Codes → Option Codes
job_log none rec namespace = none
job_log (some kube) rec namespace = if_filled (log_of kube (parse_k8s_job_ref rec namespace))

abbrev pub known_log : Option Kube → Option BuildRecord → Codes → Option Codes
known_log kube none namespace = none
known_log kube (some rec) namespace = job_log kube rec namespace

abbrev pub keep_log : Codes → Codes → Service → Service
keep_log build_id log s = record s { api = record s.api { logs = insert build_id log s.api.logs } }

abbrev pub ref_of : Option BuildRecord → Codes
ref_of none = []
ref_of (some rec) = rec.logs_ref

abbrev pub logs_at : Codes → Codes → Codes → Service → Response × Service
logs_at build_id logs_ref log s = (respond 200 (logs_body logs_ref log), keep_log build_id log s)

abbrev pub finish_logs : Codes → BuildRecord → Option Codes → Service → Response × Service
finish_logs build_id rec (some log) s = logs_at build_id rec.logs_ref log s
finish_logs build_id rec none s = (
  respond 200
      (logs_body rec.logs_ref (codes "logs persisted by reference only; check external log store")),
  s,
)

abbrev pub logs_query : Option Kube → ℕ → Codes → Query → Service → Response × Service
logs_query kube now build_id (found rec) s =
    let (fresh, s') = refresh kube now rec s in
    finish_logs build_id fresh (job_log kube fresh s.api.build_namespace) (note_status fresh s')
logs_query kube now build_id no_rows s = (not_found (codes "build_not_found"), s)
logs_query kube now build_id query_failed s =
    (respond 500 (error_body (codes "db_query_failed")), s)

abbrev pub stored_logs : Option Kube → ℕ → Codes → Option Table → Service → Response × Service
stored_logs kube now build_id none s = (not_found (codes "build_logs_not_found"), s)
stored_logs kube now build_id (some t) s = logs_query kube now build_id (query_build build_id t) s

abbrev pub remembered_logs : Option Kube → ℕ → Codes → Option Codes → Service → Response × Service
remembered_logs kube now build_id (some log) s = (respond 200 (logs_body [] log), s)
remembered_logs kube now build_id none s = stored_logs kube now build_id s.table s

abbrev pub current_logs : Option Kube → ℕ → Codes → Option Codes → Service → Response × Service
current_logs kube now build_id (some log) s =
    logs_at build_id (ref_of (lookup build_id s.api.builds)) log s
current_logs kube now build_id none s =
    remembered_logs kube now build_id (lookup build_id s.api.logs) s

-- The handler `getBuildLogs`.
unfoldable pub get_build_logs : Option Kube → ℕ → Codes → Service → Response × Service
unfolding job_log query_build refresh
get_build_logs kube now raw s =
    let build_id = trim_codes raw in
    if codes_eq build_id []
    then (bad_request (codes "invalid_build_id"), s)
    else current_logs kube now build_id
        (known_log kube (lookup build_id s.api.builds) s.api.build_namespace) s
