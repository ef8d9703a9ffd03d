-- ===== src/Jobs/Steps.antt =====
-- The interleavings of the job routes with the executor's tasks (app/api/v1/jobs.py,
-- app/control/executor.py) as a step relation: one step is what happens between two awaits.
use daas_engine.Base.{Bool, List, String, count_where, length, ℕ, ◌+◌, ◌<◌, ◌≡◌}
use daas_engine.Control.Access.{OrgContext, Principal}
use daas_engine.Control.Records.{AuditEvent, Pipeline, Upload}
use daas_engine.Jobs.Executor.{
  RunResult, World, begin, clean, complete, crash, fail_clean, fail_source, is_id, leave, of_job,
  of_org, restart, take_lock, take_permit,
}
use daas_engine.Jobs.Orgs.{delete_org}
use daas_engine.Jobs.Queue.{JobCreate, Settings, cancel_job, queue_job}
use daas_engine.Jobs.Table.{at_id, set_progress, unlink_uploads}

-- How often a job stands among the tasks that may fail.
abbrev pub live_tasks : ℕ → World → ℕ
live_tasks i w =
    count_where (of_job i) w.db.tasks
    + count_where (of_job i) w.locked
    + count_where (of_job i) w.entered
    + count_where (of_job i) w.active
    + count_where (of_job i) w.leaving

-- How often a job stands among the tasks of the process.
abbrev pub task_count : ℕ → World → ℕ
task_count i w = live_tasks i w + count_where (is_id i) w.crashed

-- How many tasks hold the lock of an organization.
abbrev pub lock_count : ℕ → World → ℕ
lock_count o w =
    count_where (of_org o) w.locked
    + count_where (of_org o) w.entered
    + count_where (of_org o) w.active
    + count_where (of_org o) w.leaving

-- How many places of the semaphore are taken.
abbrev pub permit_count : World → ℕ
permit_count w = length w.entered + length w.active + length w.leaving

-- A task of the job runs it.
abbrev pub Holds : ℕ → World → Type 0
Holds i w = 0 < count_where (of_job i) w.active

pub data Step (s : Settings) (w : World) : World → Type 0 where
  -- a new id is new
  creates :
      (now id org : ℕ) (p : Principal) (body : JobCreate)
      → count_where (at_id id) w.db.jobs ≡ 0
      → task_count id w ≡ 0
      → Step s w (record w { db = (queue_job s now id org p body w.db).1 })
  cancels :
      (now : ℕ) (ctx : OrgContext) (id : ℕ)
      → Step s w (record w { db = (cancel_job now ctx id w.db).1 })
  -- the lock of the organization is free
  locks :
      (t : ℕ × ℕ)
      → 0 < count_where (of_job t.0) w.db.tasks
      → lock_count t.1 w ≡ 0
      → Step s w (take_lock t w)
  -- the semaphore has a place
  permits :
      (id : ℕ)
      → 0 < count_where (of_job id) w.locked
      → permit_count w < s.max_concurrent_runs
      → Step s w (take_permit id w)
  begins : (now id : ℕ) → 0 < count_where (of_job id) w.entered → Step s w (begin s now id w)
  progresses :
      (id percent : ℕ) (message : String)
      → Step s w
          (record w { db = record w.db { jobs = set_progress id percent message w.db.jobs } })
  fails_source :
      (now id : ℕ) (message : String) → Holds id w → Step s w (fail_source now id message w)
  completes :
      (now period : ℕ) (t : ℕ × ℕ) (pipeline : Pipeline) (r : RunResult)
      → Holds t.0 w
      → Step s w (complete now period t pipeline r w)
  leaves : (id : ℕ) → 0 < count_where (of_job id) w.leaving → Step s w (leave id w)
  -- a task may fail in each of its phases
  crashes : (id : ℕ) → 0 < live_tasks id w → Step s w (crash id w)
  cleans : (now id : ℕ) → 0 < count_where (is_id id) w.crashed → Step s w (clean now id w)
  fails_clean : (id : ℕ) → 0 < count_where (is_id id) w.crashed → Step s w (fail_clean id w)
  -- uploads are deleted (app/control/retention.py), whichever they are
  purges :
      (gone : ℕ → Bool) (uploads : List Upload) (trail : List AuditEvent)
      → Step s w (record w {
        db = record w.db {
          jobs = unlink_uploads gone w.db.jobs;
          uploads = uploads;
          audit_events = trail;
        };
      })

-- What the process can come to; a restart may change the settings, and an owner may delete an
-- organization.
pub data Reach (w : World) (s : Settings) : Settings → World → Type 0 where
  here : Reach w s s w
  next : {r : Settings} {v u : World} → Reach w s r v → Step r v u → Reach w s r u
  rebooted :
      {r : Settings} {v : World} (q : Settings) (now : ℕ)
      → Reach w s r v
      → Reach w s q (restart q now v)
  org_gone :
      {r : Settings} {v : World} (now : ℕ) (ctx : OrgContext)
      → Reach w s r v
      → Reach w s r (delete_org now ctx v).1
