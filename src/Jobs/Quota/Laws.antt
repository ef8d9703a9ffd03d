-- ===== src/Jobs/Quota/Laws.antt =====
-- The monthly limit of runs holds from the guard of app/api/v1/plan_guard.py to the last
-- transaction of app/control/executor.py.
use daas_engine.Base.{
  ==→eq, Bool, Bool-cases, List, [], arith, exists_where, false, find_where, if◌then◌else◌, inl,
  inr, leb, refl, some, true, update_where, ℕ, ◌&&◌, ◌++◌, ◌+◌, ◌<◌, ◌==◌, ◌∙◌, ◌∷◌, ◌≡◌, ◌≤◌,
}
use daas_engine.Base.Tables.Laws.{
  count_where-append, count_where-found, count_where-single, count_where-update_le,
  count_where-update_out,
}
use daas_engine.Control.Access.{Principal}
use daas_engine.Control.Problem.{Result-cases, ok}
use daas_engine.Control.Records.{Job, Org, Pipeline, UsageCounter}
use daas_engine.Control.Usage.{add_usage, at_period, bumped, limits_for, runs_used}
use daas_engine.Jobs.Executor.{RunResult, World, complete, completed, job_failed}
use daas_engine.Jobs.Queue.{JobCreate, JobDb, Settings, check_job, new_job, queue_job}
use daas_engine.Jobs.Quota.{charged, check_plan_limit, limit_reached, runs, runs_limit_reached}
use daas_engine.Jobs.Table.{at_id, is_pending, job_at, pending_jobs}

-- A bump of one month leaves the other months.
runs_used-update_ne :
    (o m org period : ℕ) (cs : List UsageCounter)
    → (org == o && period == m) ≡ false
    → runs_used o m (update_where (at_period org period) (bumped 1 0) cs) ≡ runs_used o m cs
unfolding runs_used find_where update_where bumped
runs_used-update_ne o m org period [] h = refl
runs_used-update_ne o m org period (c ∷ cs) h =
    ground (arith, runs_used-update_ne o m org period cs)

runs_used-update_self :
    (o m org period : ℕ) (cs : List UsageCounter)
    → (org == o && period == m) ≡ true
    → exists_where (at_period org period) cs ≡ true
    → runs_used o m (update_where (at_period org period) (bumped 1 0) cs) ≡ runs_used o m cs + 1
unfolding runs_used find_where update_where bumped exists_where
runs_used-update_self o m org period [] h e = cc
runs_used-update_self o m org period (c ∷ cs) h e =
    ground (arith, runs_used-update_self o m org period cs)

runs_used-append :
    (o m : ℕ) (cs : List UsageCounter) (c : UsageCounter)
    → c.runs ≡ 1
    → exists_where (at_period c.org_id c.period) cs ≡ false
    → runs_used o m (cs ++ (c ∷ []))
      ≡ runs_used o m cs + (if c.org_id == o && c.period == m then 1 else 0)
unfolding runs_used find_where exists_where
runs_used-append o m [] c r h = ground arith
runs_used-append o m (x ∷ xs) c r h = ground (arith, runs_used-append o m xs c)

-- A run that counts adds one to its organization's month, and to no other.
pub runs_used-add_usage :
    (o m org period : ℕ) (cs : List UsageCounter)
    → runs_used o m (add_usage org period 1 0 cs)
      ≡ runs_used o m cs + (if org == o && period == m then 1 else 0)
unfolding add_usage
runs_used-add_usage o m org period cs = elim (Bool-cases (exists_where (at_period org period) cs)) [
  | inr e ↦ rw e (runs_used-append o m cs _ refl e)
  | inl e ↦ elim (Bool-cases (org == o && period == m)) [
    | inr ne ↦ rw (e, ne) (omega (arith, runs_used-update_ne o m org period cs ne))
    | inl same ↦ rw (e, same) (runs_used-update_self o m org period cs same e)
  ]
]

completed-pending :
    (now : ℕ) (r : RunResult) (j : Job) → is_pending (completed now r j).status ≡ false
unfolding completed
completed-pending now r j = elim (Bool-cases (job_failed r)) [
  | inl e ↦ rw e refl
  | inr e ↦ rw e refl
]

-- A job whose run ends is pending no longer.
pub pending_jobs-completed :
    (now o i : ℕ) (r : RunResult) (js : List Job) (j : Job)
    → job_at i js ≡ some j
    → j.org_id ≡ o
    → is_pending j.status ≡ true
    → pending_jobs o (update_where (at_id i) (completed now r) js) + 1 ≤ pending_jobs o js
unfolding pending_jobs job_at
pending_jobs-completed now o i r js j e eo ep = omega (
  arith,
  count_where-update_out (λ (x : Job). x.org_id == o && is_pending x.status) (at_id i)
      (completed now r) js (λ x. ground (arith, completed-pending now r x)),
  count_where-found (λ (x : Job). x.org_id == o && is_pending x.status) (at_id i) js j e
      (ground (arith, eo, ep)),
)

-- A run that counts where a pending job went.
exchange_le :
    (o n m a before after : ℕ) (cs : List UsageCounter) (b : Bool)
    → after ≤ before
    → (a ≡ o → after + 1 ≤ before)
    → runs_used o n (if b then cs else add_usage a m 1 0 cs) + after ≤ runs_used o n cs + before
exchange_le o n m a before after cs true le lt = omega arith
exchange_le o n m a before after cs false le lt =
    ground (arith, runs_used-add_usage o n a m cs, ==→eq a o)

pending_jobs-completed_le :
    (now o i : ℕ) (r : RunResult) (js : List Job)
    → pending_jobs o (update_where (at_id i) (completed now r) js) ≤ pending_jobs o js
unfolding pending_jobs
pending_jobs-completed_le now o i r js =
    count_where-update_le (λ (x : Job). x.org_id == o && is_pending x.status) (at_id i)
      (completed now r) js (λ x. ground (arith, completed-pending now r x))

-- What is held against the limit of runs does not grow when the run of a pending job ends: the job
-- gives its place to the count of the month.
pub charged-complete :
    (now m : ℕ) (t : ℕ × ℕ) (p : Pipeline) (r : RunResult) (w : World) (j : Job) (o n : ℕ)
    → job_at t.0 w.db.jobs ≡ some j
    → j.org_id ≡ t.1
    → is_pending j.status ≡ true
    → charged o n (complete now m t p r w).usage_counters (complete now m t p r w).db.jobs
      ≤ charged o n w.usage_counters w.db.jobs
unfolding charged complete
charged-complete now m t p r w j o n e eo ep =
    exchange_le o n m t.1 (pending_jobs o w.db.jobs) _ w.usage_counters (job_failed r)
      (pending_jobs-completed_le now o t.0 r w.db.jobs)
      (λ h. pending_jobs-completed now o t.0 r w.db.jobs j e (eo ∙ h) ep)

-- A new job is one more pending job at most.
pub pending_jobs-queue_job :
    (s : Settings) (now id org_id : ℕ) (who : Principal) (body : JobCreate) (db : JobDb) (o : ℕ)
    → pending_jobs o (queue_job s now id org_id who body db).1.jobs ≤ pending_jobs o db.jobs + 1
unfolding queue_job pending_jobs
pending_jobs-queue_job s now id org_id who body db o =
    elim (Result-cases (check_job s org_id body db)) [
      | inr p ↦ rw (p.1, queue_job) (omega arith)
      | inl p ↦
          rw (p.1, queue_job)
            (omega (
              arith,
              count_where-append (λ (x : Job). x.org_id == o && is_pending x.status) db.jobs
                  (new_job id org_id body ∷ []),
              count_where-single (λ (x : Job). x.org_id == o && is_pending x.status)
                  (new_job id org_id body),
            ))
    ]

-- The guard lets a job through only while there is room.
check_plan_limit-room :
    (s : Settings) (now m : ℕ) (who : Principal) (org : Org) (w : World) (limit declared : ℕ)
    → (limits_for org.plan).runs_per_month ≡ some limit
    → (check_plan_limit s now m who org runs declared w).0 ≡ ok tt
    → charged org.id m w.usage_counters w.db.jobs < limit
unfolding check_plan_limit limit_reached runs_limit_reached
check_plan_limit-room s now m who org w limit declared el ok_ =
    elim (Bool-cases s.maintenance_mode) [
      | inl e ↦ absurd (ground (arith, e))
      | inr e ↦ elim (Bool-cases (leb limit (charged org.id m w.usage_counters w.db.jobs))) [
        | inl l ↦ absurd (ground (arith, e, l, el))
        | inr l ↦ ground (arith, l)
      ]
    ]

-- Where the plan has a limit of runs and the guard passed, the runs of the month and the pending
-- jobs are within the limit after `queue_job`, whether it queues the job or not.
pub charged-queue_job :
    (s : Settings) (now m id : ℕ) (who : Principal) (org : Org) (body : JobCreate) (w : World)
    (limit declared : ℕ)
    → (limits_for org.plan).runs_per_month ≡ some limit
    → (check_plan_limit s now m who org runs declared w).0 ≡ ok tt
    → charged org.id m w.usage_counters (queue_job s now id org.id who body w.db).1.jobs ≤ limit
unfolding charged check_plan_limit limit_reached runs_limit_reached
charged-queue_job s now m id who org body w limit declared el ok_ = omega (
  arith,
  pending_jobs-queue_job s now id org.id who body w.db org.id,
  check_plan_limit-room s now m who org w limit declared el ok_,
)
