-- ===== src/Jobs/Safety.antt =====
-- The executor of app/control/executor.py under every interleaving: at most one run of an
-- organization, at most DAAS_MAX_CONCURRENT_RUNS job_runs, and no run without a task or a task without
-- its run.
use daas_engine.Base.{
  All, Bool, Bool-cases, List, [], arith, count_where, false, if◌then◌else◌, inl, inr, refl, subst,
  sym, true, update_where, ℕ, ◌+◌, ◌∙◌, ◌∷◌, ◌≡◌,
}
use daas_engine.Base.Tables.Laws.{count_where-update_keep}
use daas_engine.Control.Records.{Job}
use daas_engine.Jobs.Arrivals.{cancels-Inv, crash-Inv, creates-Inv, progresses-Inv, purges-Inv}
use daas_engine.Jobs.Begins.{begin-Inv, claimed-le, leave-Inv, take_lock-Inv, take_permit-Inv}
use daas_engine.Jobs.Ends.{clean-Inv, complete-Inv, fail_clean-Inv, fail_source-Inv}
use daas_engine.Jobs.Executor.{World, insert_task, of_job, queued_tasks, restart, sort_tasks}
use daas_engine.Jobs.Invariant.{Inv, IsCovered}
use daas_engine.Jobs.Queue.{Settings}
use daas_engine.Jobs.Removal.{delete_org-Inv}
use daas_engine.Jobs.Steps.{
  Reach, Step, begins, cancels, cleans, completes, crashes, creates, fails_clean, fails_source,
  here, leaves, locks, next, org_gone, permits, progresses, purges, rebooted,
}
use daas_engine.Jobs.Table.{abandon, as_abandoned, at_id, claimed, is_running}

-- After the UPDATE of `start` no job runs.
abandon-IsCovered : (now : ℕ) (w : World) (jobs : List Job) → All (IsCovered w) (abandon now jobs)
unfolding abandon update_where
abandon-IsCovered now w [] = tt
abandon-IsCovered now w (j ∷ js) = elim (Bool-cases (is_running j.status)) [
  | inl e ↦ rw e ((λ r. absurd (unfold as_abandoned in cc)), abandon-IsCovered now w js)
  | inr e ↦ rw e ((λ r. absurd (cc)), abandon-IsCovered now w js)
]

pub count_where-sort :
    (q : ℕ × ℕ → Bool) (ts : List (ℕ × ℕ)) → count_where q (sort_tasks ts) ≡ count_where q ts
unfolding sort_tasks count_where
count_where-sort q [] = refl
count_where-sort q (t ∷ ts) = insert t (sort_tasks ts) ∙ rw (count_where-sort q ts) refl
  where
    insert :
        (t : ℕ × ℕ) (us : List (ℕ × ℕ))
        → count_where q (insert_task t us) ≡ (if q t then 1 else 0) + count_where q us
    insert t [] = refl
    insert t (u ∷ us) = ground (arith, insert t us)

-- Among the tasks that a start submits, a job id stands as often as there are queued jobs with it.
pub count_where-queued_tasks :
    (i : ℕ) (jobs : List Job) → count_where (of_job i) (queued_tasks jobs) ≡ claimed i jobs
unfolding queued_tasks claimed count_where
count_where-queued_tasks i [] = refl
count_where-queued_tasks i (j ∷ js) = ground (arith, count_where-queued_tasks i js)

restart-Inv : (q s : Settings) (now : ℕ) (w : World) → Inv s w → Inv q (restart q now w)
restart-Inv q s now w v = elim (Bool-cases q.maintenance_mode) [
  | inl m ↦ subst (Inv q) (sym (frozen m)) (record {
    keyed = v.keyed;
    once = λ i. unfold count_where in omega arith;
    active_run = tt;
    one_per_org = λ o. unfold count_where in omega arith;
    within = omega arith;
    covered = λ e. absurd (cc);
  })
  | inr m ↦ subst (Inv q) (sym (started_again m)) (record {
    keyed = λ i. rw (keys i) (v.keyed i);
    once = λ i.
        unfold count_where in
        omega (
          arith,
          count_where-sort (of_job i) (queued_tasks (abandon now w.db.jobs)),
          count_where-queued_tasks i (abandon now w.db.jobs),
          claimed-le i (abandon now w.db.jobs),
          keys i,
          v.keyed i,
        );
    active_run = tt;
    one_per_org = λ o. unfold count_where in omega arith;
    within = omega arith;
    covered =
        λ e. abandon-IsCovered now (record w { active = []; crashed = []; stuck = [] }) w.db.jobs;
  })
]
  where
    frozen :
        q.maintenance_mode ≡ true
        → restart q now w ≡ record w {
          db = record w.db { tasks = [] };
          locked = [];
          entered = [];
          active = [];
          leaving = [];
          crashed = [];
          stuck = [];
        }
    frozen m = unfold restart in ground arith

    started_again :
        q.maintenance_mode ≡ false
        → restart q now w ≡ record w {
          db = record w.db {
            jobs = abandon now w.db.jobs;
            tasks = sort_tasks (queued_tasks (abandon now w.db.jobs));
          };
          locked = [];
          entered = [];
          active = [];
          leaving = [];
          crashed = [];
          stuck = [];
        }
    started_again m = unfold restart in ground arith

    keys : (i : ℕ) → count_where (at_id i) (abandon now w.db.jobs) ≡ count_where (at_id i) w.db.jobs
    keys i =
        unfold abandon in
        count_where-update_keep (at_id i) (λ (j : Job). is_running j.status) (as_abandoned now)
          w.db.jobs (λ j _. unfold as_abandoned in refl)

pub Step-Inv : {s : Settings} {w u : World} → Step s w u → Inv s w → Inv s u
Step-Inv {s} {w} (creates now id org p body new unused) v =
    creates-Inv s now id org p body w new unused v
Step-Inv {s} {w} (cancels now ctx id) v = cancels-Inv s now ctx id w v
Step-Inv {s} {w} (locks t waits lock_free) v = take_lock-Inv s w v t waits lock_free
Step-Inv {s} {w} (permits id waits room) v = take_permit-Inv s w v id waits room
Step-Inv {s} {w} (begins now id waits) v = begin-Inv s w now id v waits
Step-Inv {s} {w} (progresses id percent message) v = progresses-Inv s id percent message w v
Step-Inv {s} {w} (fails_source now id message h) v = fail_source-Inv s w id v now message
Step-Inv {s} {w} (completes now period t pipeline r h) v =
    complete-Inv s w t v now period pipeline r
Step-Inv {s} {w} (leaves id h) v = leave-Inv s w v id
Step-Inv {s} {w} (crashes id h) v = crash-Inv s id w h v
Step-Inv {s} {w} (cleans now id h) v = clean-Inv s w id v now h
Step-Inv {s} {w} (fails_clean id h) v = fail_clean-Inv s w id v
Step-Inv {s} {w} (purges gone uploads trail) v = purges-Inv s gone uploads trail w v

-- From a world with the invariant, every interleaving of routes, tasks, crashes, deletions of uploads
-- and of organizations, and restarts keeps it: job ids are unique, a job has at most one task, a task in the
-- phase between its claim and the end of its job has a running job, at most one task holds the
-- lock of an organization, waiting for the semaphore or awaiting its listeners included, at most
-- DAAS_MAX_CONCURRENT_RUNS tasks have a place in the semaphore, and outside maintenance a running
-- job has a task in that phase, or one whose handler is about to end it or failed to.
pub Reach-Inv :
    {s : Settings} {w : World} {r : Settings} {u : World} → Reach w s r u → Inv s w → Inv r u
Reach-Inv here v = v
Reach-Inv (next path st) v = Step-Inv st (Reach-Inv path v)
Reach-Inv (rebooted {r} {v = x} q now path) v = restart-Inv q r now x (Reach-Inv path v)
Reach-Inv (org_gone {r} {v = x} now ctx path) v = delete_org-Inv r now ctx x (Reach-Inv path v)
