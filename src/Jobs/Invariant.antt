-- ===== src/Jobs/Invariant.antt =====
-- The invariant of the interleavings.
use daas_engine.Base.{
  ==→eq, All, Bool, Bool-cases, List, [], ap, arith, count_where, false, find_where, inl, inr, none,
  some, subst, sym, true, update_where, ℕ, ◌++◌, ◌+◌, ◌<◌, ◌==◌, ◌∷◌, ◌≡◌, ◌≤◌,
}
use daas_engine.Base.Tables.Laws.{All-imp, All-update, count_where-update_keep}
use daas_engine.Control.Records.{AuditEvent, Job}
use daas_engine.Jobs.Executor.{World, is_id, of_job}
use daas_engine.Jobs.Queue.{Settings}
use daas_engine.Jobs.Steps.{lock_count, permit_count, task_count}
use daas_engine.Jobs.Table.{at_id, is_running, job_at}

-- The job is there and runs.
unfoldable pub job_runs : ℕ → List Job → Bool
job_runs i jobs = elim (job_at i jobs) [ none ↦ false | some j ↦ is_running j.status ]

-- A job that runs has a task that runs it, or one that is about to end it, or its handler failed.
abbrev pub IsCovered : World → Job → Type 0
IsCovered w j =
    is_running j.status ≡ true
    → 0
      < count_where (of_job j.id) w.active
        + count_where (is_id j.id) w.crashed
        + count_where (is_id j.id) w.stuck

pub record Inv (s : Settings) (w : World) : Type 0 where
  pub keyed : (i : ℕ) → count_where (at_id i) w.db.jobs ≤ 1
  pub once : (i : ℕ) → task_count i w ≤ 1
  pub active_run : All (λ (t : ℕ × ℕ). job_runs t.0 w.db.jobs ≡ true) w.active
  pub one_per_org : (o : ℕ) → lock_count o w ≤ 1
  pub within : permit_count w ≤ s.max_concurrent_runs
  pub covered : s.maintenance_mode ≡ false → All (IsCovered w) w.db.jobs

-- An UPDATE that keeps ids and does not end the run of a job leaves that job running.
pub job_runs-update :
    (i : ℕ) (p : Job → Bool) (f : Job → Job) (jobs : List Job)
    → ((j : Job) → (f j).id ≡ j.id)
    → ((j : Job)
        → p j ≡ true
        → at_id i j ≡ true
        → is_running j.status ≡ true
        → is_running (f j).status ≡ true)
    → job_runs i jobs ≡ true
    → job_runs i (update_where p f jobs) ≡ true
unfolding job_runs job_at update_where find_where
job_runs-update i p f [] ids keep h = cc
job_runs-update i p f (j ∷ js) ids keep h =
    ground (arith, ids j, keep j, job_runs-update i p f js ids keep)

pub job_runs-append :
    (i : ℕ) (js ks : List Job) → job_runs i js ≡ true → job_runs i (js ++ ks) ≡ true
unfolding job_runs job_at find_where
job_runs-append i [] ks h = cc
job_runs-append i (j ∷ js) ks h = ground (arith, job_runs-append i js ks)

-- A statement on the jobs alone: it keeps the ids, ends no run that a task holds, and starts none.
module _ (s : Settings) (w : World) (trail : List AuditEvent) (p : Job → Bool) (f : Job → Job)
    (v : Inv s w) (ids : (j : Job) → (f j).id ≡ j.id)
    (keep : (j : Job) → p j ≡ true → is_running j.status ≡ true → is_running (f j).status ≡ true)
    (start : (j : Job)
      → p j ≡ true
      → is_running (f j).status ≡ true
      → is_running j.status ≡ true) where
  pub update-Inv :
      Inv s
        (record w { db = record w.db { jobs = update_where p f w.db.jobs; audit_events = trail } })
  update-Inv = record {
    keyed = λ i.
        rw (count_where-update_keep (at_id i) p f w.db.jobs (λ j _. ap (λ (n : ℕ). n == i) (ids j)))
          (v.keyed i);
    once = v.once;
    active_run =
        All-imp _ _ w.active
          (λ t h. job_runs-update t.0 p f w.db.jobs ids (λ j e _ r. keep j e r) h) v.active_run;
    one_per_org = v.one_per_org;
    within = v.within;
    covered = λ m.
        All-update (IsCovered w) _ p f w.db.jobs (λ j e c r. rw (ids j) (c (start j e r)))
          (λ j e c. c) (v.covered m);
  }

-- A statement that ends the job `id`, whose task leaves the process.
module _ (s : Settings) (w u : World) (id : ℕ) (p : Job → Bool) (f : Job → Job) (v : Inv s w)
    (ids : (j : Job) → (f j).id ≡ j.id) (only : (j : Job) → p j ≡ true → at_id id j ≡ true)
    (whole : (j : Job) → at_id id j ≡ true → is_running j.status ≡ true → p j ≡ true)
    (dead : (j : Job) → is_running (f j).status ≡ false)
    (jobs : u.db.jobs ≡ update_where p f w.db.jobs)
    (once : (i : ℕ) → task_count i u ≤ task_count i w)
    (others : (i : ℕ)
      → (id == i) ≡ false
      → count_where (of_job i) u.active
          + count_where (is_id i) u.crashed
          + count_where (is_id i) u.stuck
        ≡ count_where (of_job i) w.active
          + count_where (is_id i) w.crashed
          + count_where (is_id i) w.stuck)
    (orgs : (o : ℕ) → lock_count o u ≤ lock_count o w) (fits : permit_count u ≤ permit_count w)
    (apart : All
      (λ (t : ℕ × ℕ). (of_job id t ≡ false) × (job_runs t.0 w.db.jobs ≡ true))
      u.active) where
  pub end-Inv : Inv s u
  end-Inv = record {
    keyed = λ i. rw jobs (
        rw (count_where-update_keep (at_id i) p f w.db.jobs (λ j _. ap (λ (n : ℕ). n == i) (ids j)))
          (v.keyed i));
    once = λ i. omega (arith, v.once i, once i);
    active_run =
        All-imp _ _ u.active
          (λ t h. rw jobs (
            job_runs-update t.0 p f w.db.jobs ids
              (λ j e k r. absurd (cc (only j e, ==→eq _ _ k, h.0))) h.1))
          apart;
    one_per_org = λ o. omega (arith, v.one_per_org o, orgs o);
    within = omega (arith, v.within);
    covered = λ m. subst (All (IsCovered u)) (sym jobs) (
        All-update (IsCovered w) (IsCovered u) p f w.db.jobs (λ j e c r. absurd (cc (dead j)))
          (λ j e c r. elim (Bool-cases (id == j.id)) [
            | inl same ↦ absurd (ground (arith, whole j))
            | inr apart' ↦ omega (arith, others j.id apart', c r)
          ])
          (v.covered m));
  }
