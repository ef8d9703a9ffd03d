-- ===== src/Jobs/Orgs.antt =====
-- `delete_org` of app/api/v1/orgs.py on the tables of the executor: what the deletion of an
-- organization does to jobs, uploads, runs, counters and events.
use daas_engine.Base.{
  Bool, delete_where, false, if◌then◌else◌, ltb, none, opt_eq, some, true, ℕ, ◌==◌,
}
use daas_engine.Control.Access.{OrgContext, actor_of}
use daas_engine.Control.Audit.{record_event}
use daas_engine.Control.Problem.{Result, err, ok, problem}
use daas_engine.Control.Records.{
  Action, AuditEvent, Job, Plan, RunRecord, Upload, UsageCounter, selfhost,
}
use daas_engine.Jobs.Executor.{World}
use daas_engine.Jobs.Table.{pending_jobs}

abbrev pub is_selfhost : Plan → Bool
is_selfhost selfhost = true
is_selfhost _ = false

-- `org_id` of an event.
abbrev pub event_of : ℕ → AuditEvent → Bool
event_of org_id e = opt_eq e.org_id org_id

-- `Job.org_id == org_id`.
abbrev pub in_org : ℕ → Job → Bool
in_org org_id j = j.org_id == org_id

-- ON DELETE CASCADE of an organization.
unfoldable pub cascade : ℕ → World → World
cascade org_id w = record w {
  db = record w.db {
    jobs = delete_where (in_org org_id) w.db.jobs;
    uploads = delete_where (λ (u : Upload). u.org_id == org_id) w.db.uploads;
    audit_events = delete_where (event_of org_id) w.db.audit_events;
  };
  run_records = delete_where (λ (r : RunRecord). r.org_id == org_id) w.run_records;
  usage_counters = delete_where (λ (c : UsageCounter). c.org_id == org_id) w.usage_counters;
}

-- The tables after a deletion that is not refused, with its event, which names no organization.
unfoldable pub org_removed : ℕ → OrgContext → World → World
unfolding cascade record_event actor_of
org_removed now ctx w =
    let u = cascade ctx.org.id w in
    record u {
      db = record u.db {
        audit_events =
            record_event now none (actor_of ctx.principal) Action.org_deleted (some ctx.org.id) 0
              u.db.audit_events;
      };
    }

-- `delete_org`. After the commit the route forgets the runner and the lock of the organization and
-- removes its directory: a task that waited before still waits for the lock that it asked for.
unfoldable pub delete_org : ℕ → OrgContext → World → Result (Unit {0}) × World
unfolding org_removed pending_jobs
delete_org now ctx w =
    if is_selfhost ctx.org.plan
    then (err (problem 403 "org_protected"), w)
    else if ltb 0 (pending_jobs ctx.org.id w.db.jobs)
    then (err (problem 409 "org_busy"), w)
    else (ok tt, org_removed now ctx w)
