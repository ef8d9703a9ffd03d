-- ===== src/Jobs/Queue.antt =====
-- The routes of app/api/v1/jobs.py that change a table: `queue_job` with its checks, `submit_job`
-- and `cancel_job`.
use daas_engine.Base.{
  Bool, List, Option, String, [], false, find_where, if◌then◌else◌, is_none, leb, ltb, none, not,
  some, true, ℕ, ◌&&◌, ◌++◌, ◌==◌, ◌∷◌,
}
use daas_engine.Control.Access.{OrgContext, Principal, actor_of}
use daas_engine.Control.Audit.{record_event}
use daas_engine.Control.Problem.{Result, err, ok, problem, raise_if, ◌>>◌}
use daas_engine.Control.Records.{
  AuditEvent, Job, Pipeline, Upload, UploadKind, cs2_demo, ecommerce_demo, job_cancelled,
  job_created, queued, uksc_evidence,
}
use daas_engine.Jobs.Table.{cancel, claimed, job_at, pending_jobs}

-- The settings that the jobs read: DAAS_MAINTENANCE_MODE, DAAS_MODE == "cloud", and
-- DAAS_MAX_CONCURRENT_RUNS.
pub record Settings : Type 0 where
  pub maintenance_mode : Bool
  pub cloud : Bool
  pub max_concurrent_runs : ℕ

-- The body of `POST /jobs`.
pub record JobCreate : Type 0 where
  pub pipeline : Pipeline
  pub upload_id : Option ℕ
  pub force_mock : Bool
  pub client_name : Option String
  pub period_from : Option ℕ
  pub period_to : Option ℕ

-- The tables of the job routes, and the tasks that the executor was given: job and organization.
pub record JobDb : Type 0 where
  pub jobs : List Job
  pub uploads : List Upload
  pub audit_events : List AuditEvent
  pub tasks : List (ℕ × ℕ)

abbrev pub max_pending_jobs : ℕ
max_pending_jobs = 20

-- `PIPELINE_UPLOAD_KINDS`: none where the pipeline reads no file of the client.
unfoldable pub upload_kinds : Pipeline → Option (UploadKind → Bool)
upload_kinds ecommerce_demo = some (λ k. elim k [
  | UploadKind.csv ↦ true
  | UploadKind.xlsx ↦ true
  | UploadKind.package_json ↦ false
])
upload_kinds uksc_evidence = some (λ k. elim k [
  | UploadKind.csv ↦ false
  | UploadKind.xlsx ↦ false
  | UploadKind.package_json ↦ true
])
upload_kinds cs2_demo = none

-- `"csv" in (PIPELINE_UPLOAD_KINDS[pipeline] or ())`.
unfoldable pub reads_csv : Pipeline → Bool
unfolding upload_kinds
reads_csv p = elim (upload_kinds p) [ none ↦ false | some ks ↦ ks UploadKind.csv ]

unfoldable pub check_period : JobCreate → Result (Unit {0})
unfolding reads_csv
check_period body =
    if is_none body.period_from && is_none body.period_to
    then ok tt
    else raise_if (not (reads_csv body.pipeline)) 422 "period_not_supported"

-- In the cloud the source is a file of the client or synthetic data.
unfoldable pub check_cloud_source : Settings → JobCreate → Result (Unit {0})
unfolding upload_kinds
check_cloud_source settings body =
    if settings.cloud && not body.force_mock
    then (raise_if (is_none (upload_kinds body.pipeline)) 422 "mock_required"
        >> raise_if (is_none body.upload_id) 422 "upload_required")
    else ok tt

unfoldable pub own_upload : ℕ → ℕ → Upload → Bool
own_upload org_id upload_id u = u.id == upload_id && u.org_id == org_id

unfoldable pub check_kind : (UploadKind → Bool) → Option Upload → Result (Unit {0})
check_kind kinds none = err (problem 404 "not_found")
check_kind kinds (some u) = raise_if (not (kinds u.kind)) 422 "upload_kind_mismatch"

unfoldable pub check_upload : ℕ → JobCreate → List Upload → Result (Unit {0})
unfolding upload_kinds own_upload check_kind
check_upload org_id body uploads = elim body.upload_id [
  | none ↦ ok tt
  | some u ↦ elim (upload_kinds body.pipeline) [
    | none ↦ err (problem 422 "upload_not_applicable")
    | some kinds ↦ check_kind kinds (find_where (own_upload org_id u) uploads)
  ]
]

-- What `queue_job` checks before it writes.
unfoldable pub check_job : Settings → ℕ → JobCreate → JobDb → Result (Unit {0})
unfolding check_period check_cloud_source check_upload pending_jobs
check_job settings org_id body db = do
  raise_if settings.maintenance_mode 503 "maintenance"
  check_period body
  check_cloud_source settings body
  check_upload org_id body db.uploads
  raise_if (leb max_pending_jobs (pending_jobs org_id db.jobs)) 409 "queue_full"

unfoldable pub new_job : ℕ → ℕ → JobCreate → Job
new_job id org_id body = record {
  id = id;
  org_id = org_id;
  pipeline = body.pipeline;
  status = queued;
  progress = 0;
  message = some "queued";
  run_id = none;
  upload_id = body.upload_id;
  client_name = body.client_name;
  force_mock = body.force_mock;
  started_at = none;
  finished_at = none;
  error_code = none;
  period_from = body.period_from;
  period_to = body.period_to;
}

-- `submit` of the executor.
unfoldable pub submit : Settings → ℕ → ℕ → List (ℕ × ℕ) → List (ℕ × ℕ)
submit settings job_id org_id tasks =
    if settings.maintenance_mode then tasks else tasks ++ ((job_id, org_id) ∷ [])

-- `queue_job`: the id of the new job, `id`, is given from outside.
unfoldable pub queue_job : Settings → ℕ → ℕ → ℕ → Principal → JobCreate → JobDb → Result Job × JobDb
unfolding new_job submit record_event actor_of
queue_job settings now id org_id principal body db = elim (check_job settings org_id body db) [
  | err p ↦ (err p, db)
  | ok _ ↦ (
    ok (new_job id org_id body),
    record db {
      jobs = db.jobs ++ (new_job id org_id body ∷ []);
      audit_events =
          record_event now (some org_id) (actor_of principal) job_created (some id) 0
            db.audit_events;
      tasks = submit settings id org_id db.tasks;
    },
  )
]

-- `submit_job`: maintenance, then the limit `v1_run`, whose answer is `wait`, then `queue_job`.
unfoldable pub submit_job :
    Settings → ℕ → ℕ → ℕ → OrgContext → JobCreate → JobDb → Result Job × JobDb
submit_job settings wait now id ctx body db =
    if settings.maintenance_mode
    then (err (problem 503 "maintenance"), db)
    else if ltb 0 wait
    then (err (problem 429 "rate_limited"), db)
    else queue_job settings now id ctx.org.id ctx.principal body db

-- `load_job`: a job of another organization looks like a missing one.
unfoldable pub load_job : ℕ → ℕ → List Job → Option Job
load_job org_id job_id jobs = find_where (λ (j : Job). j.id == job_id && j.org_id == org_id) jobs

-- `cancel_job`.
unfoldable pub cancel_job : ℕ → OrgContext → ℕ → JobDb → Result (Option Job) × JobDb
unfolding load_job record_event actor_of
cancel_job now ctx job_id db = elim (load_job ctx.org.id job_id db.jobs) [
  | none ↦ (err (problem 404 "not_found"), db)
  | some j ↦
      if claimed j.id db.jobs == 1
      then (
        ok (job_at j.id (cancel now j.id db.jobs)),
        record db {
          jobs = cancel now j.id db.jobs;
          audit_events =
              record_event now (some ctx.org.id) (actor_of ctx.principal) job_cancelled (some j.id)
                0 db.audit_events;
        },
      )
      else (err (problem 409 "not_cancellable"), db)
]
