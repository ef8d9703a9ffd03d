-- ===== src/Tests/Work.antt =====
-- The theorems on jobs, on a world with one queued job.
use daas_engine.Base.{
  ◌⊎◌, [], arith, count_where, false, find_where, none, refl, select_where, some, true, ◌<◌, ◌∷◌,
  ◌≡◌, ◌≤◌,
}
use daas_engine.Control.Access.{user}
use daas_engine.Control.Problem.{ok}
use daas_engine.Control.Records.{Job, cancelled, ecommerce_demo, success}
use daas_engine.Control.Usage.{limits_for, runs_used}
use daas_engine.Jobs.Executor.{
  RunResult, World, begin, complete, of_job, restart, take_lock, take_permit,
}
use daas_engine.Jobs.Begins.{take_lock-Inv, take_permit-Inv}
use daas_engine.Jobs.Invariant.{Inv}
use daas_engine.Jobs.Lifecycle.{Deleted, MovesTo, Reach-terminal, StaysAs, Step-Moves}
use daas_engine.Jobs.Queue.{JobCreate, Settings, new_job, queue_job}
use daas_engine.Jobs.Quota.{charged, check_plan_limit, runs}
use daas_engine.Jobs.Quota.Laws.{charged-complete, charged-queue_job}
use daas_engine.Jobs.Safety.{Reach-Inv}
use daas_engine.Jobs.Steps.{
  Reach, begins, creates, here, lock_count, next, permit_count, rebooted, task_count,
}
use daas_engine.Jobs.Steps.{
  begins, creates, here, lock_count, next, permit_count, rebooted, task_count,
}
use daas_engine.Jobs.Table.{at_id, job_at, pending_jobs}
use daas_engine.Tests.{shop}

abbrev hosted : Settings
hosted = record { maintenance_mode = false; cloud = true; max_concurrent_runs = 2 }

abbrev order : JobCreate
order = record {
  pipeline = ecommerce_demo;
  upload_id = none;
  force_mock = true;
  client_name = none;
  period_from = none;
  period_to = none;
}

abbrev empty_world : World
empty_world = record {
  db = record { jobs = []; uploads = []; audit_events = []; tasks = [] };
  run_records = [];
  usage_counters = [];
  locked = [];
  entered = [];
  active = [];
  leaving = [];
  crashed = [];
  stuck = [];
}

empty_world-Inv : Inv hosted empty_world
unfolding count_where
empty_world-Inv = record {
  keyed = λ i. omega arith;
  once = λ i. omega arith;
  active_run = tt;
  one_per_org = λ o. omega arith;
  within = omega arith;
  covered = λ h. tt;
}

abbrev with_job : World
with_job = record empty_world { db = (queue_job hosted 5 3 1 (user 10) order empty_world.db).1 }

unused : count_where (at_id 3) empty_world.db.jobs ≡ 0
unfolding count_where
unused = refl

no_task : task_count 3 empty_world ≡ 0
unfolding count_where
no_task = refl

Reach-Inv_example : Inv hosted (restart hosted 9 with_job)
Reach-Inv_example =
    Reach-Inv {s = hosted} {w = empty_world} {r = hosted} {u = restart hosted 9 with_job}
      (rebooted hosted 9 (next here (creates 5 3 1 (user 10) order unused no_task))) empty_world-Inv

abbrev done_job : Job
done_job = record (new_job 3 1 order) { status = cancelled }

abbrev after_cancel : World
after_cancel = record empty_world {
  db = record { jobs = done_job ∷ []; uploads = []; audit_events = []; tasks = [] };
}

after_cancel-Inv : Inv hosted after_cancel
unfolding count_where new_job
after_cancel-Inv = record {
  keyed = λ i. ground arith;
  once = λ i. omega arith;
  active_run = tt;
  one_per_org = λ o. omega arith;
  within = omega arith;
  covered = λ h. (λ r. absurd (cc), tt);
}

finds_done : job_at 3 after_cancel.db.jobs ≡ some done_job
unfolding job_at find_where new_job
finds_done = refl

abbrev one_restart : Reach after_cancel hosted hosted (restart hosted 9 after_cancel)
one_restart = rebooted hosted 9 here

Reach-terminal_example :
    StaysAs done_job (job_at 3 (restart hosted 9 after_cancel).db.jobs)
    ⊎ Deleted done_job.org_id after_cancel hosted hosted (restart hosted 9 after_cancel) one_restart
Reach-terminal_example = Reach-terminal 3 done_job after_cancel-Inv finds_done refl one_restart

abbrev queued_world : World
queued_world = record empty_world {
  db = record {
    jobs = new_job 3 1 order ∷ [];
    uploads = [];
    audit_events = [];
    tasks = (3, 1) ∷ [];
  };
}

queued_world-Inv : Inv hosted queued_world
unfolding count_where new_job
queued_world-Inv = record {
  keyed = λ i. ground arith;
  once = λ i. ground arith;
  active_run = tt;
  one_per_org = λ o. omega arith;
  within = omega arith;
  covered = λ h. (λ r. absurd (cc), tt);
}

finds_queued : job_at 3 queued_world.db.jobs ≡ some (new_job 3 1 order)
unfolding job_at find_where new_job
finds_queued = refl

-- The task of that job, with its locks.
abbrev entered_world : World
entered_world = take_permit 3 (take_lock (3, 1) queued_world)

waits : 0 < count_where (of_job 3) entered_world.entered
unfolding count_where take_permit take_lock select_where
waits = omega arith

abbrev locked_world : World
locked_world = take_lock (3, 1) queued_world

first_waits : 0 < count_where (of_job 3) locked_world.locked
unfolding take_lock count_where
first_waits = omega arith

has_place : permit_count locked_world < hosted.max_concurrent_runs
unfolding take_lock
has_place = omega arith

task_waits : 0 < count_where (of_job 3) queued_world.db.tasks
unfolding count_where
task_waits = omega arith

org_free : lock_count 1 queued_world ≡ 0
unfolding count_where
org_free = omega arith

entered_world-Inv : Inv hosted entered_world
entered_world-Inv =
    take_permit-Inv hosted locked_world
      (take_lock-Inv hosted queued_world queued_world-Inv (3, 1) task_waits org_free) 3 first_waits
      has_place

Step-Moves_example : MovesTo (new_job 3 1 order) (job_at 3 (begin hosted 7 3 entered_world).db.jobs)
Step-Moves_example =
    Step-Moves 3 (new_job 3 1 order) entered_world-Inv (begins 7 3 waits)
      (unfold take_permit take_lock in finds_queued)

free_limit : (limits_for shop.plan).runs_per_month ≡ some 20
unfolding limits_for
free_limit = refl

has_room : (check_plan_limit hosted 5 202601 (user 10) shop runs 0 empty_world).0 ≡ ok tt
unfolding check_plan_limit count_where find_where runs_used pending_jobs
has_room = refl

charged-queue_job_example :
    charged 1 202601 empty_world.usage_counters
      (queue_job hosted 5 3 1 (user 10) order empty_world.db).1.jobs
    ≤ 20
charged-queue_job_example =
    charged-queue_job hosted 5 202601 3 (user 10) shop order empty_world 20 0 free_limit has_room

abbrev good_run : RunResult
good_run = record {
  run_id = 900;
  run_status = success;
  records_processed = 12;
  error_code = none;
  sha256_html = none;
  sha256_md = none;
  sha256_json = none;
  period_from = none;
  period_to = none;
}

charged-complete_example :
    charged 1 202601
      (complete 8 202601 (3, 1) ecommerce_demo good_run queued_world).usage_counters
      (complete 8 202601 (3, 1) ecommerce_demo good_run queued_world).db.jobs
    ≤ charged 1 202601 queued_world.usage_counters queued_world.db.jobs
charged-complete_example =
    charged-complete 8 202601 (3, 1) ecommerce_demo good_run queued_world (new_job 3 1 order) 1
      202601 finds_queued (unfold new_job in refl) (unfold new_job in refl)
