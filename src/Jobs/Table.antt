-- ===== src/Jobs/Table.antt =====
-- The statements on the table `jobs` of app/control/executor.py and app/api/v1/jobs.py, each with
-- its `WHERE` clause and its row count.
use daas_engine.Base.{
  Bool, List, Option, String, count_where, false, find_where, ltb, none, prefix_of, some, true,
  update_where, ℕ, ◌&&◌, ◌==◌,
}
use daas_engine.Control.Records.{Job, JobStatus, cancelled, failed, queued, running, succeeded}

-- `status == "queued"`, and so on.
abbrev pub is_queued : JobStatus → Bool
is_queued queued = true
is_queued _ = false

abbrev pub is_running : JobStatus → Bool
is_running running = true
is_running _ = false

-- `status.in_(("queued", "running"))`.
abbrev pub is_pending : JobStatus → Bool
is_pending queued = true
is_pending running = true
is_pending _ = false

-- `TERMINAL`.
abbrev pub is_terminal : JobStatus → Bool
is_terminal succeeded = true
is_terminal failed = true
is_terminal cancelled = true
is_terminal _ = false

-- `Job.id == job_id`.
abbrev pub at_id : ℕ → Job → Bool
at_id job_id j = j.id == job_id

unfoldable pub job_at : ℕ → List Job → Option Job
job_at job_id jobs = find_where (at_id job_id) jobs

-- The count of the jobs of an organization that wait or run.
unfoldable pub pending_jobs : ℕ → List Job → ℕ
pending_jobs org_id jobs = count_where (λ (j : Job). j.org_id == org_id && is_pending j.status) jobs

-- `Job.id == job_id, Job.status == "queued"`.
unfoldable pub queued_at : ℕ → Job → Bool
queued_at job_id j = at_id job_id j && is_queued j.status

unfoldable pub started : ℕ → Job → Job
started now j = record j {
  status = running;
  started_at = some now;
  progress = 5;
  message = some "starting";
}

-- The claim of `_execute`.
unfoldable pub claim : ℕ → ℕ → List Job → List Job
unfolding queued_at started
claim now job_id jobs = update_where (queued_at job_id) (started now) jobs

unfoldable pub claimed : ℕ → List Job → ℕ
unfolding queued_at
claimed job_id jobs = count_where (queued_at job_id) jobs

unfoldable pub as_abandoned : ℕ → Job → Job
as_abandoned now j = record j {
  status = failed;
  error_code = some "abandoned";
  message = some "interrupted by restart";
  finished_at = some now;
}

-- The UPDATE of `start`.
unfoldable pub abandon : ℕ → List Job → List Job
unfolding as_abandoned
abandon now jobs = update_where (λ (j : Job). is_running j.status) (as_abandoned now) jobs

-- `Job.id == job_id, Job.status == "running", Job.progress < percent`.
unfoldable pub behind : ℕ → ℕ → Job → Bool
behind job_id percent j = at_id job_id j && (is_running j.status && ltb j.progress percent)

unfoldable pub advanced : ℕ → String → Job → Job
advanced percent message j = record j { progress = percent; message = some (prefix_of 200 message) }

-- `_progress`.
unfoldable pub set_progress : ℕ → ℕ → String → List Job → List Job
unfolding behind advanced
set_progress job_id percent message jobs =
    update_where (behind job_id percent) (advanced percent message) jobs

-- `Job.id == job_id, Job.status.in_(("queued", "running"))`.
unfoldable pub pending_at : ℕ → Job → Bool
pending_at job_id j = at_id job_id j && is_pending j.status

unfoldable pub finished : ℕ → JobStatus → Option String → String → Job → Job
finished now status error_code message j = record j {
  status = status;
  error_code = error_code;
  message = some (prefix_of 200 message);
  progress = 100;
  finished_at = some now;
}

-- `_finish`.
unfoldable pub finish : ℕ → ℕ → JobStatus → Option String → String → List Job → List Job
unfolding pending_at finished
finish now job_id status error_code message jobs =
    update_where (pending_at job_id) (finished now status error_code message) jobs

unfoldable pub as_cancelled : ℕ → Job → Job
as_cancelled now j = record j {
  status = cancelled;
  finished_at = some now;
  message = some "cancelled";
  progress = 0;
}

-- The UPDATE of `cancel_job`.
unfoldable pub cancel : ℕ → ℕ → List Job → List Job
unfolding queued_at as_cancelled
cancel now job_id jobs = update_where (queued_at job_id) (as_cancelled now) jobs

-- `jobs.upload_id` of a job whose upload is gone: ON DELETE SET NULL.
unfoldable pub without_upload : Job → Job
without_upload j = record j { upload_id = none }

-- The job has one of the uploads.
unfoldable pub has_upload : (ℕ → Bool) → Job → Bool
has_upload gone j = elim j.upload_id [ none ↦ false | some u ↦ gone u ]

-- What the foreign key does to the jobs where uploads are deleted.
unfoldable pub unlink_uploads : (ℕ → Bool) → List Job → List Job
unfolding without_upload has_upload
unlink_uploads gone jobs = update_where (has_upload gone) without_upload jobs
