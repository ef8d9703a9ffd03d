-- ===== src/Jobs/Begins.antt =====
-- The steps that bring jobs and tasks into the process keep the invariant: a new job, a
-- cancellation, progress, and a task that takes its locks.
use daas_engine.Base.{
  ==→eq, Bool-cases, List, [], arith, count_where, delete_where, false, find_where, if◌then◌else◌,
  inl, inr, refl, select_where, subst, sym, true, update_where, ℕ, ◌+◌, ◌<◌, ◌==◌, ◌∷◌, ◌≡◌, ◌≤◌,
  ◌⊎◌,
}
use daas_engine.Base.Tables.Laws.{
  All-append, All-imp, All-select_where, All-update, count_where-append, count_where-delete_le,
  count_where-delete_self, count_where-moved, count_where-update_keep, count_where_mono,
  length-append, length-delete_le, length-moved, length-select_where, update_where-none,
}
use daas_engine.Control.Records.{Job}
use daas_engine.Jobs.Executor.{
  World, begin, is_id, leave, of_job, of_org, pass_on, take_lock, take_permit,
}
use daas_engine.Jobs.Invariant.{Inv, IsCovered, job_runs, job_runs-update}
use daas_engine.Jobs.Queue.{Settings}
use daas_engine.Jobs.Steps.{lock_count, permit_count}
use daas_engine.Jobs.Table.{at_id, claim, claimed, is_running, job_at, queued_at, started}

-- A claim of a queued job makes it run.
job_runs-claim :
    (now i : ℕ) (jobs : List Job)
    → count_where (at_id i) jobs ≤ 1
    → 0 < claimed i jobs
    → job_runs i (claim now i jobs) ≡ true
unfolding job_runs claim claimed job_at count_where update_where find_where
job_runs-claim now i [] k h = absurd (omega arith)
job_runs-claim now i (j ∷ js) k h = ground (
  arith,
  job_runs-claim now i js,
  count_where_mono (queued_at i) (at_id i) js (λ x. unfold queued_at in ground arith),
)

pub claimed-le : (i : ℕ) (jobs : List Job) → claimed i jobs ≤ count_where (at_id i) jobs
unfolding claimed
claimed-le i jobs =
    count_where_mono (queued_at i) (at_id i) jobs (λ x. unfold queued_at in ground arith)

-- The count of tasks after the task of `t` moved to the holders.
moved_once :
    (t : ℕ × ℕ) (i : ℕ) (tasks active : List (ℕ × ℕ))
    → 0 < count_where (of_job t.0) tasks
    → count_where (of_job i) (delete_where (of_job t.0) tasks) + count_where (of_job i) (t ∷ active)
      ≤ count_where (of_job i) tasks + count_where (of_job i) active
unfolding count_where
moved_once t i tasks active h = elim (Bool-cases (t.0 == i)) [
  | inr e ↦ ground (arith, count_where-delete_le (of_job i) (of_job t.0) tasks)
  | inl e ↦
      subst
        (λ (k : ℕ).
          count_where (of_job k) (delete_where (of_job t.0) tasks)
            + ((if t.0 == k then 1 else 0) + count_where (of_job k) active)
          ≤ count_where (of_job k) tasks + count_where (of_job k) active)
        (==→eq _ _ e) (ground (arith, count_where-delete_self (of_job t.0) tasks))
]

module _ (s : Settings) (w : World) (v : Inv s w) where
  pub take_lock-Inv :
      (t : ℕ × ℕ)
      → 0 < count_where (of_job t.0) w.db.tasks
      → lock_count t.1 w ≡ 0
      → Inv s (take_lock t w)
  unfolding take_lock count_where
  take_lock-Inv t waits lock_free = record {
    keyed = v.keyed;
    once = λ i. omega (arith, v.once i, moved_once t i w.db.tasks w.locked waits);
    active_run = v.active_run;
    one_per_org = λ o. elim (Bool-cases (t.1 == o)) [
      | inl e ↦ rw e (
          subst
            (λ (k : ℕ).
              1
                + count_where (of_org k) w.locked
                + count_where (of_org k) w.entered
                + count_where (of_org k) w.active
                + count_where (of_org k) w.leaving
              ≤ 1)
            (==→eq _ _ e) (omega (arith, lock_free)))
      | inr e ↦ rw e (omega (arith, v.one_per_org o))
    ];
    within = v.within;
    covered = v.covered;
  }

  pub take_permit-Inv :
      (id : ℕ)
      → 0 < count_where (of_job id) w.locked
      → permit_count w < s.max_concurrent_runs
      → Inv s (take_permit id w)
  unfolding take_permit
  take_permit-Inv id waits room = record {
    keyed = v.keyed;
    once =
        λ i. omega (arith, v.once i, count_where-moved (of_job i) (of_job id) w.locked w.entered);
    active_run = v.active_run;
    one_per_org = λ o.
        omega (arith, v.one_per_org o, count_where-moved (of_org o) (of_job id) w.locked w.entered);
    within = omega (
      arith,
      room,
      v.once id,
      length-append (select_where (of_job id) w.locked) w.entered,
      length-select_where (of_job id) w.locked,
    );
    covered = v.covered;
  }

  pub leave-Inv : (id : ℕ) → Inv s (leave id w)
  unfolding leave
  leave-Inv id = record {
    keyed = v.keyed;
    once = λ i. omega (arith, v.once i, count_where-delete_le (of_job i) (of_job id) w.leaving);
    active_run = v.active_run;
    one_per_org =
        λ o. omega (arith, v.one_per_org o, count_where-delete_le (of_org o) (of_job id) w.leaving);
    within = omega (arith, v.within, length-delete_le (of_job id) w.leaving);
    covered = v.covered;
  }

  -- A task that does not run its job, for the claim changed no row.
  turned_away-Inv :
      (id : ℕ)
      → Inv s (record w {
        entered = delete_where (of_job id) w.entered;
        leaving = pass_on id w.entered w.leaving;
      })
  turned_away-Inv id = record {
    keyed = v.keyed;
    once =
        λ i. omega (arith, v.once i, count_where-moved (of_job i) (of_job id) w.entered w.leaving);
    active_run = v.active_run;
    one_per_org = λ o.
        omega
          (arith, v.one_per_org o, count_where-moved (of_org o) (of_job id) w.entered w.leaving);
    within = omega (arith, v.within, length-moved (of_job id) w.entered w.leaving);
    covered = v.covered;
  }

module _ (s : Settings) (w : World) (now id : ℕ) (v : Inv s w)
    (waits : 0 < count_where (of_job id) w.entered) where
  -- The claim changed the row: the task runs the job.
  taken-Inv :
      0 < claimed id w.db.jobs
      → Inv s (record w {
        db = record w.db { jobs = claim now id w.db.jobs };
        entered = delete_where (of_job id) w.entered;
        active = pass_on id w.entered w.active;
      })
  unfolding claim queued_at started count_where
  taken-Inv c = record {
    keyed = λ i.
        rw
          (count_where-update_keep (at_id i) (queued_at id) (started now) w.db.jobs
            (λ j _. unfold started in refl))
          (v.keyed i);
    once =
        λ i. omega (arith, v.once i, count_where-moved (of_job i) (of_job id) w.entered w.active);
    active_run =
        All-append _ (select_where (of_job id) w.entered) w.active
          (All-select_where _ (of_job id) w.entered (λ t e.
            subst (λ (k : ℕ). job_runs k (claim now id w.db.jobs) ≡ true) (sym (==→eq t.0 id e))
              (job_runs-claim now id w.db.jobs (v.keyed id) c)))
          (All-imp (λ u. job_runs u.0 w.db.jobs ≡ true)
            (λ u. job_runs u.0 (claim now id w.db.jobs) ≡ true) w.active
            (λ u h.
              job_runs-update u.0 (queued_at id) (started now) w.db.jobs
                (λ j. unfold started in refl) (λ j _ _ _. unfold started in refl) h)
            v.active_run);
    one_per_org = λ o.
        omega (arith, v.one_per_org o, count_where-moved (of_org o) (of_job id) w.entered w.active);
    within = omega (arith, v.within, length-moved (of_job id) w.entered w.active);
    covered = λ m.
        All-update (IsCovered w)
          (λ j.
            is_running j.status ≡ true
            → 0
              < count_where (of_job j.id) (pass_on id w.entered w.active)
                + count_where (is_id j.id) w.crashed
                + count_where (is_id j.id) w.stuck)
          (queued_at id) (started now) w.db.jobs
          (λ j e c' r.
            subst
              (λ (k : ℕ).
                0
                < count_where (of_job k) (pass_on id w.entered w.active)
                  + count_where (is_id k) w.crashed
                  + count_where (is_id k) w.stuck)
              (sym (==→eq j.id id (ground (arith, e))))
              (omega (
                arith,
                waits,
                count_where-moved (of_job id) (of_job id) w.entered w.active,
                count_where-delete_self (of_job id) w.entered,
              )))
          (λ j e c' r. omega (
            arith,
            c' r,
            count_where-append (of_job j.id) (select_where (of_job id) w.entered) w.active,
          ))
          (v.covered m);
  }

  begin-taken :
      s.maintenance_mode ≡ false
      → (claimed id w.db.jobs == 1) ≡ true
      → begin s now id w ≡ record w {
        db = record w.db { jobs = claim now id w.db.jobs };
        entered = delete_where (of_job id) w.entered;
        active = pass_on id w.entered w.active;
      }
  unfolding begin
  begin-taken m c = rw (m, c) refl

  begin-lost :
      (s.maintenance_mode ≡ true) ⊎ ((claimed id w.db.jobs == 1) ≡ false)
      → begin s now id w ≡ record w {
        entered = delete_where (of_job id) w.entered;
        leaving = pass_on id w.entered w.leaving;
      }
  unfolding begin
  begin-lost (inl m) = rw m refl
  begin-lost (inr c) = ground (
    arith,
    claimed-le id w.db.jobs,
    v.keyed id,
    update_where-none (queued_at id) (started now) w.db.jobs,
  )

  pub begin-Inv : Inv s (begin s now id w)
  begin-Inv = elim (Bool-cases s.maintenance_mode) [
    | inl m ↦ subst (Inv s) (sym (begin-lost (inl m))) (turned_away-Inv s w v id)
    | inr m ↦ elim (Bool-cases (claimed id w.db.jobs == 1)) [
      | inl c ↦ subst (Inv s) (sym (begin-taken m c)) (taken-Inv (ground arith))
      | inr c ↦ subst (Inv s) (sym (begin-lost (inr c))) (turned_away-Inv s w v id)
    ]
  ]
