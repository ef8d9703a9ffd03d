-- ===== src/Jobs/Removal.antt =====
-- What `delete_org` of app/api/v1/orgs.py leaves of the jobs.
use daas_engine.Base.{
  Bool-cases, List, [], arith, count_where, delete_where, false, find_where, inl, inr, ltb, refl,
  some, subst, sym, true, ℕ, ◌∷◌, ◌≡◌, ◌⊎◌,
}
use daas_engine.Base.Tables.Laws.{All-delete_where, All-imp, count_where-delete_le}
use daas_engine.Control.Access.{OrgContext}
use daas_engine.Control.Problem.{ok}
use daas_engine.Control.Records.{Job}
use daas_engine.Jobs.Executor.{World}
use daas_engine.Jobs.Invariant.{Inv, job_runs}
use daas_engine.Jobs.Orgs.{cascade, delete_org, in_org, is_selfhost, org_removed}
use daas_engine.Jobs.Queue.{Settings}
use daas_engine.Jobs.Table.{at_id, job_at, pending_jobs}

-- The tables of the jobs after it: as they were, or without those of an organization of which no job
-- waits or runs.
pub delete_org-jobs :
    (now : ℕ) (ctx : OrgContext) (w : World)
    → ((delete_org now ctx w).1 ≡ w)
      ⊎ ((pending_jobs ctx.org.id w.db.jobs ≡ 0)
          × ((delete_org now ctx w).0 ≡ ok tt)
          × ((delete_org now ctx w).1 ≡ org_removed now ctx w))
unfolding delete_org
delete_org-jobs now ctx w = elim (Bool-cases (is_selfhost ctx.org.plan)) [
  | inl a ↦ inl (rw (a, delete_org) refl)
  | inr a ↦ elim (Bool-cases (ltb 0 (pending_jobs ctx.org.id w.db.jobs))) [
    | inl b ↦ inl (rw (a, b, delete_org) refl)
    | inr b ↦ inr (ground (arith, b), rw (a, b, delete_org) refl, rw (a, b, delete_org) refl)
  ]
]

job_runs-cascade :
    (i org : ℕ) (jobs : List Job)
    → pending_jobs org jobs ≡ 0
    → job_runs i jobs ≡ true
    → job_runs i (delete_where (in_org org) jobs) ≡ true
unfolding job_runs job_at pending_jobs delete_where find_where count_where
job_runs-cascade i org [] e h = cc
job_runs-cascade i org (j ∷ js) e h = ground (arith, job_runs-cascade i org js)

pub delete_org-Inv :
    (s : Settings) (now : ℕ) (ctx : OrgContext) (w : World)
    → Inv s w
    → Inv s (delete_org now ctx w).1
delete_org-Inv s now ctx w v = elim (delete_org-jobs now ctx w) [
  | inl e ↦ subst (Inv s) (sym e) v
  | inr (none_pending, answer, e) ↦ subst (Inv s) (sym e) (removed_Inv none_pending)
]
  where
    removed_Inv : pending_jobs ctx.org.id w.db.jobs ≡ 0 → Inv s (org_removed now ctx w)
    removed_Inv none_pending =
        unfold org_removed cascade in
        record {
          keyed = λ i.
              omega
                (arith, v.keyed i, count_where-delete_le (at_id i) (in_org ctx.org.id) w.db.jobs);
          once = v.once;
          active_run =
              All-imp (λ t. job_runs t.0 w.db.jobs ≡ true) _ w.active
                (λ t h. job_runs-cascade t.0 ctx.org.id w.db.jobs none_pending h) v.active_run;
          one_per_org = v.one_per_org;
          within = v.within;
          covered = λ m. All-delete_where _ (in_org ctx.org.id) w.db.jobs (v.covered m);
        }

-- The row of a job of another organization stays.
pub job_at-cascade :
    (i org : ℕ) (jobs : List Job) (j : Job)
    → job_at i jobs ≡ some j
    → in_org org j ≡ false
    → job_at i (delete_where (in_org org) jobs) ≡ some j
unfolding job_at delete_where find_where
job_at-cascade i org [] j e f = cc
job_at-cascade i org (x ∷ xs) j e f = ground (arith, f, job_at-cascade i org xs j)
