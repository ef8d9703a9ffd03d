-- ===== src/Jobs/Ends.antt =====
-- The steps by which a task ends its job keep the invariant: no source, a finished run, and the
-- handler of a crash.
use daas_engine.Base.{
  All, Bool-cases, String, arith, count_where, delete_where, false, inl, inr, refl, some, true, ℕ,
  ◌<◌, ◌==◌, ◌≡◌,
}
use daas_engine.Base.Tables.Laws.{
  All-both, All-delete_where, All-deleted, All-imp, All-of_count, count_where-delete_keep,
  count_where-delete_le, count_where-moved, length-moved,
}
use daas_engine.Control.Records.{Pipeline, failed}
use daas_engine.Jobs.Executor.{
  RunResult, World, clean, complete, completed, fail_clean, fail_source, is_id, of_job, of_org,
}
use daas_engine.Jobs.Invariant.{Inv, IsCovered, end-Inv, job_runs}
use daas_engine.Jobs.Queue.{Settings}
use daas_engine.Jobs.Table.{at_id, finished, pending_at}

module _ (s : Settings) (w : World) (id : ℕ) (v : Inv s w) where
  -- The tasks that are left after the job's task went are of other jobs, which run.
  pub left_running :
      All
        (λ (t : ℕ × ℕ). (of_job id t ≡ false) × (job_runs t.0 w.db.jobs ≡ true))
        (delete_where (of_job id) w.active)
  left_running =
      All-both _ _ _ (All-deleted (of_job id) w.active)
        (All-delete_where _ (of_job id) w.active v.active_run)

  pub counts_left :
      (i : ℕ)
      → (id == i) ≡ false
      → count_where (of_job i) (delete_where (of_job id) w.active) ≡ count_where (of_job i) w.active
  counts_left i e = count_where-delete_keep (of_job i) (of_job id) w.active (λ t h. ground arith)

  pub fail_source-Inv : (now : ℕ) (message : String) → Inv s (fail_source now id message w)
  unfolding fail_source
  fail_source-Inv now message =
      end-Inv s w (fail_source now id message w) id (pending_at id)
        (finished now failed (some "SOURCE_UNAVAILABLE") message) v (λ j. unfold finished in refl)
        (λ j. unfold pending_at in ground arith) (λ j. unfold pending_at in ground arith)
        (λ j. unfold finished in refl) refl
        (λ i. omega (arith, count_where-moved (of_job i) (of_job id) w.active w.leaving))
        (λ i e. omega (arith, counts_left i e))
        (λ o. omega (arith, count_where-moved (of_org o) (of_job id) w.active w.leaving))
        (omega (arith, length-moved (of_job id) w.active w.leaving)) left_running

  pub clean-Inv : (now : ℕ) → 0 < count_where (is_id id) w.crashed → Inv s (clean now id w)
  unfolding clean
  clean-Inv now h =
      end-Inv s w (clean now id w) id (pending_at id)
        (finished now failed (some "internal_error") "internal error") v
        (λ j. unfold finished in refl) (λ j. unfold pending_at in ground arith)
        (λ j. unfold pending_at in ground arith) (λ j. unfold finished in refl) refl
        (λ i. omega (arith, count_where-delete_le (is_id i) (is_id id) w.crashed))
        (λ i e.
          omega
            (arith, count_where-delete_keep (is_id i) (is_id id) w.crashed (λ t k. ground arith)))
        (λ o. omega arith) (omega arith)
        (All-both _ _ _ (All-of_count (of_job id) w.active (omega (arith, v.once id))) v.active_run)

-- The handler fails: the job is one of those that no task ends.
pub fail_clean-Inv : (s : Settings) (w : World) (id : ℕ) (v : Inv s w) → Inv s (fail_clean id w)
unfolding fail_clean
fail_clean-Inv s w id v = record {
  keyed = v.keyed;
  once = λ i. omega (arith, v.once i, count_where-delete_le (is_id i) (is_id id) w.crashed);
  active_run = v.active_run;
  one_per_org = v.one_per_org;
  within = v.within;
  covered = λ m.
      All-imp (IsCovered w) _ w.db.jobs
        (λ j c r. elim (Bool-cases (id == j.id)) [
          | inl e ↦ unfold count_where in ground arith
          | inr e ↦
              unfold count_where in
              ground (
                arith,
                c r,
                count_where-delete_keep (is_id j.id) (is_id id) w.crashed (λ t h. ground arith),
              )
        ])
        (v.covered m);
}

pub complete-Inv :
    (s : Settings) (w : World) (t : ℕ × ℕ) (v : Inv s w) (now period : ℕ) (pipeline : Pipeline)
    (r : RunResult)
    → Inv s (complete now period t pipeline r w)
unfolding complete
complete-Inv s w t v now period pipeline r =
    end-Inv s w (complete now period t pipeline r w) t.0 (at_id t.0) (completed now r) v
      (λ j. unfold completed in refl) (λ j h. h) (λ j h _. h)
      (λ j. unfold completed in ground arith) refl
      (λ i. omega (arith, count_where-moved (of_job i) (of_job t.0) w.active w.leaving))
      (λ i e. omega (arith, counts_left s w t.0 v i e))
      (λ o. omega (arith, count_where-moved (of_org o) (of_job t.0) w.active w.leaving))
      (omega (arith, length-moved (of_job t.0) w.active w.leaving)) (left_running s w t.0 v)
