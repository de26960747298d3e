-- ===== src/Builder/Kept.antt =====
-- The handlers of services/builder/internal/api/api.go keep its memory consistent.
use langopen.Prelude.{
  ℕ, ◌≡◌, refl, sym, ◌∙◌, ap, true, false, ◌&&◌, not, Option, none, some, List, [], ◌∷◌, ltb,
  Bool-cases, inl, inr,
}
use langopen.Prelude.Maps.{lookup, insert, lookup-insert}
use langopen.Prelude.Text.{Codes, codes, codes_eq, codes_eq_refl, trim_codes}
use langopen.Builder.Langgraph.{Files}
use langopen.Builder.Validate.{validate}
use langopen.Builder.Job.{JobSpec}
use langopen.Builder.Api.{
  BuildRecord, Api, status_of, prev_status, update_build_metrics, JobStatus, job_status,
  condition_status, active_status, is_condition, parse_k8s_job_ref,
}
use langopen.Builder.Handlers.{
  Service, Table, Kube, BuildRequest, Submission, submitted, not_submitted, submit, insert_row,
  new_record, record_submission, trigger_build, lacks_names, or_main, config_path_of,
  submit_build_job, queued_as, submit_spec,
}
use langopen.Builder.Reads.{
  apply_status, apply_job, refresh_ref, refresh, note_status, show, get_build,
}
use langopen.Builder.Consistent.{
  IsConsistent, write-IsConsistent, remember-IsConsistent, update-builds,
}

-- What a submission says of its status.
abbrev HasStatus : Submission → Type 0
HasStatus (not_submitted r) = Unit
HasStatus (submitted status job_name b) = codes_eq status [] ≡ false

queued-HasStatus : (o : Option Codes) → HasStatus (queued_as o)
unfolding codes_eq
queued-HasStatus none = tt
queued-HasStatus (some name) = refl

spec-HasStatus :
    (kube : Option Kube) (namespace : Codes) (job : Option JobSpec)
    → HasStatus (submit_spec kube namespace job)
spec-HasStatus kube namespace none = tt
spec-HasStatus kube namespace (some job) = queued-HasStatus (submit_build_job kube namespace job)

submit-HasStatus :
    (kube : Option Kube) (req : BuildRequest) (a : Api) → HasStatus (submit kube req a)
unfolding submit codes_eq
submit-HasStatus kube req a = elim (Bool-cases a.execute_jobs) [
  | inl e ↦ rw e (spec-HasStatus kube a.build_namespace _)
  | inr e ↦ rw e refl
]

insert_row-api : (rec : BuildRecord) (a : Api) (t : Option Table) → (insert_row rec a t).1.api ≡ a
insert_row-api rec a none = refl
insert_row-api rec a (some t) = elim (Bool-cases t.reachable) [
  | inl e ↦ rw e refl
  | inr e ↦ rw e refl
]

record-IsConsistent :
    (sum_hex : Codes → Codes) (build_id : Codes) (now : ℕ) (req : BuildRequest) (s : Service)
    (u : Submission)
    → HasStatus u
    → IsConsistent s.api
    → IsConsistent (record_submission sum_hex build_id now req s u).1.api
unfolding new_record
record-IsConsistent sum_hex build_id now req s (not_submitted r) n h = h
record-IsConsistent sum_hex build_id now req s (submitted status job_name b) n h =
    rw (insert_row-api _ _ s.table) (remember-IsConsistent _ _ s.api n h)

-- Whatever becomes of a request for a build, the gauges count the builds of each status, and the
-- status behind them is that of the build's record.
pub trigger_build-IsConsistent :
    (F : Files) (kube : Option Kube) (sum_hex : Codes → Codes) (build_id : Codes) (now : ℕ)
    (raw : BuildRequest) (s : Service)
    → IsConsistent s.api
    → IsConsistent (trigger_build F kube sum_hex build_id now raw s).1.api
unfolding trigger_build
trigger_build-IsConsistent F kube sum_hex build_id now raw s h =
    let req : BuildRequest = record raw { git_ref = or_main raw.git_ref } in
    let config_path = config_path_of F raw.repo_path raw.langgraph_path in
    let rejected =
      not (codes_eq raw.repo_path []) && not (validate F raw.repo_path config_path).valid in
    elim (Bool-cases (lacks_names raw)) [
      | inl e ↦ rw e h
      | inr e ↦ elim (Bool-cases rejected) [
        | inl d ↦ rw (e, d) h
        | inr d ↦
            rw (e, d)
              (record-IsConsistent sum_hex build_id now req s (submit kube req s.api)
                (submit-HasStatus kube req s.api) h)
      ]
    ]

conditions-filled :
    (active : ℕ) (cs : List (Codes × Codes))
    → codes_eq (active_status active (condition_status cs)) [] ≡ false
unfolding condition_status codes_eq
conditions-filled active [] = elim (Bool-cases (ltb 0 active)) [
  | inl e ↦ rw e refl
  | inr e ↦ rw e refl
]
conditions-filled active (c ∷ cs) = elim (Bool-cases (is_condition (codes "Complete") c)) [
  | inl e ↦ rw e refl
  | inr e ↦ elim (Bool-cases (is_condition (codes "Failed") c)) [
    | inl f ↦ rw (e, f) refl
    | inr f ↦ rw (e, f) (conditions-filled active cs)
  ]
]

job_status-filled : (job : JobStatus) → codes_eq (job_status job) [] ≡ false
unfolding job_status codes_eq
job_status-filled job = elim (Bool-cases (ltb 0 job.succeeded)) [
  | inl e ↦ rw e refl
  | inr e ↦ elim (Bool-cases (ltb 0 job.failed)) [
    | inl f ↦ rw (e, f) refl
    | inr f ↦ rw (e, f) (conditions-filled job.active job.conditions)
  ]
]

-- A record that memory holds: the refresh writes it back, and leaves it there.
record IsHeld (rec : BuildRecord) (s : Service) : Type 0 where
  held : lookup rec.id s.api.builds ≡ some rec
  sane : IsConsistent s.api

held-same :
    (rec : BuildRecord) (s : Service)
    → IsHeld rec s
    → prev_status rec.id rec.status s.api ≡ status_of rec.id s.api
held-same rec s h = rw (h.sane.filled rec.id rec h.held) (sym (h.sane.statuses rec.id rec h.held))

apply_status-IsHeld :
    (job_name next : Codes) (now : ℕ) (rec : BuildRecord) (s : Service)
    → codes_eq next [] ≡ false
    → IsHeld rec s
    → let r = apply_status job_name next now rec s in IsHeld r.0 r.1
unfolding apply_status
apply_status-IsHeld job_name next now rec s n h = elim (Bool-cases (codes_eq next rec.status)) [
  | inl e ↦ rw (n, e) h
  | inr e ↦
      rw (n, e)
        (record {
          held = lookup-insert rec.id _ _;
          sane =
              write-IsConsistent
                (record rec {
                  status = next;
                  job_name = job_name;
                  job_submitted = true;
                  updated_at = now;
                })
                rec.status s.api n (held-same rec s h) h.sane _ refl refl
                (ap (insert rec.id _)
                  (update-builds rec.id rec.status next s.api n (held-same rec s h)));
        })
]

apply_job-IsHeld :
    (job_name : Codes) (o : Option JobStatus) (now : ℕ) (rec : BuildRecord) (s : Service)
    → IsHeld rec s
    → let r = apply_job job_name o now rec s in IsHeld r.0 r.1
apply_job-IsHeld job_name none now rec s h = h
apply_job-IsHeld job_name (some job) now rec s h =
    apply_status-IsHeld job_name (job_status job) now rec s (job_status-filled job) h

refresh_ref-IsHeld :
    (kube : Kube) (o : Option (Codes × Codes)) (now : ℕ) (rec : BuildRecord) (s : Service)
    → IsHeld rec s
    → let r = refresh_ref kube o now rec s in IsHeld r.0 r.1
refresh_ref-IsHeld kube none now rec s h = h
refresh_ref-IsHeld kube (some (namespace, job_name)) now rec s h =
    apply_job-IsHeld job_name (kube.get_job namespace job_name) now rec s h

refresh-IsHeld :
    (kube : Option Kube) (now : ℕ) (rec : BuildRecord) (s : Service)
    → IsHeld rec s
    → let r = refresh kube now rec s in IsHeld r.0 r.1
unfolding refresh
refresh-IsHeld none now rec s h = h
refresh-IsHeld (some kube) now rec s h =
    refresh_ref-IsHeld kube (parse_k8s_job_ref rec s.api.build_namespace) now rec s h

-- The metrics are told what they know already.
note_status-same :
    (rec : BuildRecord) (s : Service) → IsHeld rec s → (note_status rec s).api ≡ s.api
unfolding update_build_metrics status_of codes_eq
note_status-same rec s h = rw (h.sane.statuses rec.id rec h.held, codes_eq_refl rec.status) refl

-- To read a build that memory holds, whatever its job has come to, keeps memory consistent.
pub get_build-IsConsistent :
    (kube : Option Kube) (now : ℕ) (raw : Codes) (rec : BuildRecord) (s : Service)
    → IsConsistent s.api
    → lookup (trim_codes raw) s.api.builds ≡ some rec
    → IsConsistent (get_build kube now raw s).1.api
unfolding get_build show
get_build-IsConsistent kube now raw rec s h e = elim (Bool-cases (codes_eq (trim_codes raw) [])) [
  | inl d ↦ rw d h
  | inr d ↦
      rw (d, e)
        (let held : IsHeld rec s = record {
          held = ap (λ k. lookup k s.api.builds) (h.ids (trim_codes raw) rec e) ∙ e;
          sane = h;
        } in
          let r = refresh-IsHeld kube now rec s held in rw (note_status-same _ _ r) r.sane)
]
