-- ===== src/Control/Records/Work.antt =====
-- The work of app/control/models.py: uploads, jobs, run records, usage counters, and plans.
use daas_engine.Base.{ℕ, String, Bool, Option}

pub data UploadKind : Type 0 where
  csv xlsx package_json : UploadKind

-- The pipelines of `JobCreate.pipeline`.
pub data Pipeline : Type 0 where
  ecommerce_demo uksc_evidence cs2_demo : Pipeline

pub record Upload : Type 0 where
  pub id : ℕ
  pub org_id : ℕ
  pub kind : UploadKind
  pub filename : String
  pub bytes : ℕ
  pub sha256 : ℕ
  pub path : String
  pub created_at : ℕ
  pub retention_until : ℕ

pub data JobStatus : Type 0 where
  queued running succeeded failed cancelled : JobStatus

pub record Job : Type 0 where
  pub id : ℕ
  pub org_id : ℕ
  pub pipeline : Pipeline
  pub status : JobStatus
  pub progress : ℕ
  pub message : Option String
  pub run_id : Option ℕ
  pub upload_id : Option ℕ
  pub client_name : Option String
  pub force_mock : Bool
  pub started_at : Option ℕ
  pub finished_at : Option ℕ
  pub error_code : Option String
  pub period_from : Option ℕ
  pub period_to : Option ℕ

pub data RunStatus : Type 0 where
  success partial run_failed : RunStatus

pub record RunRecord : Type 0 where
  pub run_id : ℕ
  pub org_id : ℕ
  pub pipeline : Pipeline
  pub status : RunStatus
  pub job_id : Option ℕ
  pub sha256_html : Option ℕ
  pub sha256_md : Option ℕ
  pub sha256_json : Option ℕ
  pub period_from : Option ℕ
  pub period_to : Option ℕ
  pub report_purged_at : Option ℕ
  pub created_at : ℕ

-- The primary key is the pair of `org_id` and `period`, a month.
pub record UsageCounter : Type 0 where
  pub org_id : ℕ
  pub period : ℕ
  pub runs : ℕ
  pub upload_bytes : ℕ

pub data Plan : Type 0 where
  free pro selfhost : Plan
