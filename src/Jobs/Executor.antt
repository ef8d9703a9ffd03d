-- ===== src/Jobs/Executor.antt =====
-- `JobExecutor` of app/control/executor.py: the phases of a task between its awaits, each as a
-- change of the database and of the executor's tasks.
use daas_engine.Base.{
  Bool, List, Option, String, [], delete_where, false, find_where, if◌then◌else◌, leb, none, not,
  select_where, some, true, update_where, ℕ, ◌&&◌, ◌++◌, ◌==◌, ◌||◌, ◌∷◌,
}
use daas_engine.Control.Audit.{record_event}
use daas_engine.Control.Records.{
  Job, Pipeline, RunRecord, RunStatus, Upload, UsageCounter, by_system, failed, run_failed,
  run_finished, succeeded,
}
use daas_engine.Control.Usage.{add_usage}
use daas_engine.Jobs.Queue.{JobDb, Settings}
use daas_engine.Jobs.Table.{abandon, at_id, claim, claimed, finish, is_queued}
use daas_engine.OAuth.Clients.{before}
use daas_engine.RateLimit.Window.{after}

-- The database, and the tasks of the process by their phase. `db.tasks` wait for the lock of their
-- organization, those in `locked` hold it and wait for the semaphore, those in `entered` hold both
-- and have not claimed their job, those in `active` run it, those in `leaving` still hold both and
-- have no job to run. The jobs in `crashed` await the `_finish` of a task that failed, and those in
-- `stuck` are those for which that `_finish` failed too.
pub record World : Type 0 where
  pub db : JobDb
  pub run_records : List RunRecord
  pub usage_counters : List UsageCounter
  pub locked : List (ℕ × ℕ)
  pub entered : List (ℕ × ℕ)
  pub active : List (ℕ × ℕ)
  pub leaving : List (ℕ × ℕ)
  pub crashed : List ℕ
  pub stuck : List ℕ

-- What the runner returns, with the hashes and the period that are read off it.
pub record RunResult : Type 0 where
  pub run_id : ℕ
  pub run_status : RunStatus
  pub records_processed : ℕ
  pub error_code : Option String
  pub sha256_html : Option ℕ
  pub sha256_md : Option ℕ
  pub sha256_json : Option ℕ
  pub period_from : Option ℕ
  pub period_to : Option ℕ

-- A task of the job.
abbrev pub of_job : ℕ → ℕ × ℕ → Bool
of_job job_id t = t.0 == job_id

abbrev pub of_org : ℕ → ℕ × ℕ → Bool
of_org org_id t = t.1 == org_id

abbrev pub is_id : ℕ → ℕ → Bool
is_id job_id i = i == job_id

-- The tasks of the job go from one phase to another.
abbrev pub pass_on : ℕ → List (ℕ × ℕ) → List (ℕ × ℕ) → List (ℕ × ℕ)
pass_on job_id before after = select_where (of_job job_id) before ++ after

-- The task takes the lock of its organization.
unfoldable pub take_lock : ℕ × ℕ → World → World
take_lock t w = record w {
  db = record w.db { tasks = delete_where (of_job t.0) w.db.tasks };
  locked = t ∷ w.locked;
}

-- The task takes its place in the semaphore.
unfoldable pub take_permit : ℕ → World → World
take_permit job_id w = record w {
  locked = delete_where (of_job job_id) w.locked;
  entered = pass_on job_id w.locked w.entered;
}

-- The claim of `_execute`: the task goes on if it changed one row, and is done otherwise.
unfoldable pub begin : Settings → ℕ → ℕ → World → World
unfolding claim claimed
begin settings now job_id w =
    if settings.maintenance_mode
    then record w {
      entered = delete_where (of_job job_id) w.entered;
      leaving = pass_on job_id w.entered w.leaving;
    }
    else record w {
      db = record w.db { jobs = claim now job_id w.db.jobs };
      entered = delete_where (of_job job_id) w.entered;
      active =
          if claimed job_id w.db.jobs == 1 then pass_on job_id w.entered w.active else w.active;
      leaving =
          if claimed job_id w.db.jobs == 1 then w.leaving else pass_on job_id w.entered w.leaving;
    }

-- The end of the `async with` of `_run`: the task gives back the lock and its place.
unfoldable pub leave : ℕ → World → World
leave job_id w = record w { leaving = delete_where (of_job job_id) w.leaving }

-- The row of the job's upload, if there is one.
unfoldable pub upload_of : Job → List Upload → Option Upload
upload_of j uploads = elim j.upload_id [
  | none ↦ none
  | some u ↦ find_where (λ (r : Upload). r.id == u) uploads
]

-- Why the source cannot be read, if it cannot. `file_ok` says of the upload's file that it lies in
-- the organization's directory and is there.
unfoldable pub source_error : Settings → (Upload → Bool) → Job → List Upload → Option String
unfolding upload_of
source_error settings file_ok j uploads = elim (upload_of j uploads) [
  | some u ↦ if file_ok u then none else some "uploaded file is no longer available"
  | none ↦ if settings.cloud && not j.force_mock then some "no source file for this job" else none
]

-- The job ends for want of a source.
unfoldable pub fail_source : ℕ → ℕ → String → World → World
unfolding finish
fail_source now job_id message w = record w {
  db = record w.db {
    jobs = finish now job_id failed (some "SOURCE_UNAVAILABLE") message w.db.jobs;
  };
  active = delete_where (of_job job_id) w.active;
  leaving = pass_on job_id w.active w.leaving;
}

unfoldable pub is_run_failed : RunStatus → Bool
is_run_failed run_failed = true
is_run_failed _ = false

-- A run without records is no success.
unfoldable pub no_records : RunResult → Bool
unfolding is_run_failed
no_records r = not (is_run_failed r.run_status) && r.records_processed == 0

unfoldable pub job_failed : RunResult → Bool
unfolding is_run_failed no_records
job_failed r = is_run_failed r.run_status || no_records r

unfoldable pub result_error : RunResult → Option String
unfolding is_run_failed no_records
result_error r =
    if no_records r
    then some "no_records"
    else if is_run_failed r.run_status
    then r.error_code
    else none

unfoldable pub result_message : RunResult → String
unfolding is_run_failed no_records
result_message r =
    if is_run_failed r.run_status
    then "run failed"
    else if no_records r
    then "no records in the source"
    else "done"

unfoldable pub completed : ℕ → RunResult → Job → Job
unfolding job_failed result_error result_message
completed now r j = record j {
  status = if job_failed r then failed else succeeded;
  progress = 100;
  run_id = some r.run_id;
  error_code = result_error r;
  finished_at = some now;
  message = some (result_message r);
}

unfoldable pub run_record : ℕ → ℕ × ℕ → Pipeline → RunResult → RunRecord
run_record now t pipeline r = record {
  run_id = r.run_id;
  org_id = t.1;
  pipeline = pipeline;
  status = r.run_status;
  job_id = some t.0;
  sha256_html = r.sha256_html;
  sha256_md = r.sha256_md;
  sha256_json = r.sha256_json;
  period_from = r.period_from;
  period_to = r.period_to;
  report_purged_at = none;
  created_at = now;
}

-- The last transaction of `_execute`. The task holds its locks on, while it awaits the listeners.
unfoldable pub complete : ℕ → ℕ → ℕ × ℕ → Pipeline → RunResult → World → World
unfolding completed run_record add_usage record_event
complete now period t pipeline r w = record w {
  db = record w.db {
    jobs = update_where (at_id t.0) (completed now r) w.db.jobs;
    audit_events =
        record_event now (some t.1) by_system run_finished (some r.run_id) 0 w.db.audit_events;
  };
  run_records = w.run_records ++ (run_record now t pipeline r ∷ []);
  usage_counters =
      if job_failed r then w.usage_counters else add_usage t.1 period 1 0 w.usage_counters;
  active = delete_where (of_job t.0) w.active;
  leaving = pass_on t.0 w.active w.leaving;
}

-- The handler of `_run`, first half: the locks are given back.
unfoldable pub crash : ℕ → World → World
crash job_id w = record w {
  db = record w.db { tasks = delete_where (of_job job_id) w.db.tasks };
  locked = delete_where (of_job job_id) w.locked;
  entered = delete_where (of_job job_id) w.entered;
  active = delete_where (of_job job_id) w.active;
  leaving = delete_where (of_job job_id) w.leaving;
  crashed = job_id ∷ w.crashed;
}

-- Second half: `_finish` with `internal_error`.
unfoldable pub clean : ℕ → ℕ → World → World
unfolding finish
clean now job_id w = record w {
  db = record w.db {
    jobs = finish now job_id failed (some "internal_error") "internal error" w.db.jobs;
  };
  crashed = delete_where (is_id job_id) w.crashed;
}

-- That `_finish` raises: the job stays as it is, and no task is left for it.
unfoldable pub fail_clean : ℕ → World → World
fail_clean job_id w = record w {
  crashed = delete_where (is_id job_id) w.crashed;
  stuck = job_id ∷ w.stuck;
}

-- The tasks of the queued jobs.
unfoldable pub queued_tasks : List Job → List (ℕ × ℕ)
queued_tasks [] = []
queued_tasks (j ∷ js) =
    if is_queued j.status then (j.id, j.org_id) ∷ queued_tasks js else queued_tasks js

-- `order_by(Job.id)`.
unfoldable pub insert_task : ℕ × ℕ → List (ℕ × ℕ) → List (ℕ × ℕ)
insert_task t [] = t ∷ []
insert_task t (u ∷ us) = if leb t.0 u.0 then t ∷ (u ∷ us) else u ∷ insert_task t us

unfoldable pub sort_tasks : List (ℕ × ℕ) → List (ℕ × ℕ)
unfolding insert_task
sort_tasks [] = []
sort_tasks (t ∷ ts) = insert_task t (sort_tasks ts)

-- `stop` of the old process and `start` of the new one: no task survives, the interrupted jobs are
-- abandoned, and the queued ones are submitted again.
unfoldable pub restart : Settings → ℕ → World → World
unfolding abandon queued_tasks sort_tasks
restart settings now w =
    if settings.maintenance_mode
    then record w {
      db = record w.db { tasks = [] };
      locked = [];
      entered = [];
      active = [];
      leaving = [];
      crashed = [];
      stuck = [];
    }
    else record w {
      db = record w.db {
        jobs = abandon now w.db.jobs;
        tasks = sort_tasks (queued_tasks (abandon now w.db.jobs));
      };
      locked = [];
      entered = [];
      active = [];
      leaving = [];
      crashed = [];
      stuck = [];
    }
