-- ===== src/Jobs/Arrivals.antt =====
-- The steps of the routes, of a crash and of a restart keep the invariant.
use daas_engine.Base.{
  ==→eq, Bool, Bool-cases, List, Option-cases, String, [], ap, arith, count_where, inl, inr, refl,
  subst, true, update_where, ℕ, ◌++◌, ◌<◌, ◌==◌, ◌∷◌, ◌≡◌, ◌≤◌,
}
use daas_engine.Base.Tables.Laws.{
  All-append, All-delete_where, All-imp, count_where-append, count_where-delete_keep,
  count_where-delete_le, count_where-delete_self, length-delete_le,
}
use daas_engine.Control.Access.{OrgContext, Principal}
use daas_engine.Control.Problem.{Result-cases}
use daas_engine.Control.Records.{AuditEvent, Upload}
use daas_engine.Jobs.Executor.{World, crash, of_job, of_org}
use daas_engine.Jobs.Invariant.{Inv, IsCovered, job_runs, job_runs-append, update-Inv}
use daas_engine.Jobs.Queue.{
  JobCreate, Settings, cancel_job, check_job, load_job, new_job, queue_job, submit,
}
use daas_engine.Jobs.Steps.{live_tasks, task_count}
use daas_engine.Jobs.Table.{
  advanced, as_cancelled, at_id, behind, cancel, claimed, has_upload, queued_at, set_progress,
  unlink_uploads, without_upload,
}

-- A new job with a new id, and its task.
new_job-Inv :
    (s : Settings) (now id org : ℕ) (trail : List AuditEvent) (body : JobCreate) (w : World)
    → count_where (at_id id) w.db.jobs ≡ 0
    → task_count id w ≡ 0
    → Inv s w
    → Inv s (record w {
      db = record w.db {
        jobs = w.db.jobs ++ (new_job id org body ∷ []);
        audit_events = trail;
        tasks = submit s id org w.db.tasks;
      };
    })
new_job-Inv s now id org trail body w new unused v = record {
  keyed = λ i. elim (Bool-cases (id == i)) [
    | inl e ↦
        unfold new_job count_where in
        ground (
          arith,
          count_where-append (at_id i) w.db.jobs (new_job id org body ∷ []),
          ap (λ (k : ℕ). count_where (at_id k) w.db.jobs) (==→eq _ _ e),
        )
    | inr e ↦
        unfold new_job count_where in
        ground (arith, v.keyed i, count_where-append (at_id i) w.db.jobs (new_job id org body ∷ []))
  ];
  once = λ i. elim (Bool-cases (id == i)) [
    | inl e ↦
        unfold submit count_where in
        ground (
          arith,
          count_where-append (of_job i) w.db.tasks ((id, org) ∷ []),
          ap (λ (k : ℕ). task_count k w) (==→eq _ _ e),
        )
    | inr e ↦
        unfold submit count_where in
        ground (arith, v.once i, count_where-append (of_job i) w.db.tasks ((id, org) ∷ []))
  ];
  active_run =
      All-imp (λ t. job_runs t.0 w.db.jobs ≡ true) _ w.active
        (λ t h. job_runs-append t.0 w.db.jobs (new_job id org body ∷ []) h) v.active_run;
  one_per_org = v.one_per_org;
  within = v.within;
  covered = λ m.
      All-append (IsCovered w) w.db.jobs (new_job id org body ∷ []) (v.covered m)
        ((λ r. absurd (unfold new_job in cc)), tt);
}

pub creates-Inv :
    (s : Settings) (now id org : ℕ) (p : Principal) (body : JobCreate) (w : World)
    → count_where (at_id id) w.db.jobs ≡ 0
    → task_count id w ≡ 0
    → Inv s w
    → Inv s (record w { db = (queue_job s now id org p body w.db).1 })
unfolding queue_job
creates-Inv s now id org p body w new unused v = elim (Result-cases (check_job s org body w.db)) [
  | inl (u, e) ↦ rw (e, queue_job) (new_job-Inv s now id org _ body w new unused v)
  | inr (q, e) ↦ rw (e, queue_job) v
]

pub cancels-Inv :
    (s : Settings) (now : ℕ) (ctx : OrgContext) (id : ℕ) (w : World)
    → Inv s w
    → Inv s (record w { db = (cancel_job now ctx id w.db).1 })
unfolding cancel_job
cancels-Inv s now ctx id w v = elim (Option-cases (load_job ctx.org.id id w.db.jobs)) [
  | inl e ↦ rw (e, cancel_job) v
  | inr (j, e) ↦ elim (Bool-cases (claimed j.id w.db.jobs == 1)) [
    | inl c ↦
        rw (e, c, cancel_job)
          (unfold cancel in
            update-Inv s w _ (queued_at j.id) (as_cancelled now) v
              (λ x. unfold as_cancelled in refl) (λ x. unfold queued_at in ground arith)
              (λ x. unfold as_cancelled in ground arith))
    | inr c ↦ rw (e, c, cancel_job) v
  ]
]

pub progresses-Inv :
    (s : Settings) (id percent : ℕ) (message : String) (w : World)
    → Inv s w
    → Inv s (record w { db = record w.db { jobs = set_progress id percent message w.db.jobs } })
unfolding set_progress
progresses-Inv s id percent message w v =
    update-Inv s w w.db.audit_events (behind id percent) (advanced percent message) v
      (λ x. unfold advanced in refl) (λ x. unfold advanced in ground arith)
      (λ x. unfold advanced in ground arith)

-- A deletion of uploads.
pub purges-Inv :
    (s : Settings) (gone : ℕ → Bool) (uploads : List Upload) (trail : List AuditEvent) (w : World)
    → Inv s w
    → Inv s (record w {
      db = record w.db {
        jobs = unlink_uploads gone w.db.jobs;
        uploads = uploads;
        audit_events = trail;
      };
    })
unfolding unlink_uploads
purges-Inv s gone uploads trail w v =
    let u : Inv s (record w {
      db = record w.db { jobs = update_where (has_upload gone) without_upload w.db.jobs };
    }) =
      update-Inv s w w.db.audit_events (has_upload gone) without_upload v
        (λ x. unfold without_upload in refl) (λ x. unfold without_upload in ground arith)
        (λ x. unfold without_upload in ground arith) in
    record {
      keyed = u.keyed;
      once = u.once;
      active_run = u.active_run;
      one_per_org = u.one_per_org;
      within = u.within;
      covered = u.covered;
    }

pub crash-Inv :
    (s : Settings) (id : ℕ) (w : World) → 0 < live_tasks id w → Inv s w → Inv s (crash id w)
unfolding crash
crash-Inv s id w there v = record {
  keyed = v.keyed;
  once = λ i. elim (Bool-cases (id == i)) [
    | inl e ↦
        subst (λ (k : ℕ). task_count k (crash id w) ≤ 1) (==→eq _ _ e)
          (unfold count_where in
            ground (
              arith,
              v.once id,
              count_where-delete_self (of_job id) w.db.tasks,
              count_where-delete_self (of_job id) w.locked,
              count_where-delete_self (of_job id) w.entered,
              count_where-delete_self (of_job id) w.active,
              count_where-delete_self (of_job id) w.leaving,
            ))
    | inr e ↦
        unfold count_where in
        ground (
          arith,
          v.once i,
          count_where-delete_le (of_job i) (of_job id) w.db.tasks,
          count_where-delete_le (of_job i) (of_job id) w.locked,
          count_where-delete_le (of_job i) (of_job id) w.entered,
          count_where-delete_le (of_job i) (of_job id) w.active,
          count_where-delete_le (of_job i) (of_job id) w.leaving,
        )
  ];
  active_run = All-delete_where _ (of_job id) w.active v.active_run;
  one_per_org = λ o. omega (
    arith,
    v.one_per_org o,
    count_where-delete_le (of_org o) (of_job id) w.locked,
    count_where-delete_le (of_org o) (of_job id) w.entered,
    count_where-delete_le (of_org o) (of_job id) w.active,
    count_where-delete_le (of_org o) (of_job id) w.leaving,
  );
  within = omega (
    arith,
    v.within,
    length-delete_le (of_job id) w.entered,
    length-delete_le (of_job id) w.active,
    length-delete_le (of_job id) w.leaving,
  );
  covered = λ m.
      All-imp (IsCovered w) _ w.db.jobs
        (λ j c r. elim (Bool-cases (id == j.id)) [
          | inl e ↦ unfold count_where in ground arith
          | inr e ↦
              unfold count_where in
              ground (
                arith,
                c r,
                count_where-delete_keep (of_job j.id) (of_job id) w.active (λ t h. ground arith),
              )
        ])
        (v.covered m);
}
