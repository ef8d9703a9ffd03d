-- ===== src/Jobs/Lifecycle.antt =====
-- The life of one job, as app/control/executor.py and app/api/v1/jobs.py describe it.
use daas_engine.Base.{
  ==→eq, All, Bool, Bool-cases, List, Option, Option-cases, String, [], ap, arith, count_where,
  find_where, if◌then◌else◌, inl, inr, refl, some, subst, sym, true, update_where, ℕ, ◌++◌, ◌<◌,
  ◌==◌, ◌∙◌, ◌∷◌, ◌≡◌, ◌⊎◌,
}
use daas_engine.Base.Tables.Laws.{find_where-meets}
use daas_engine.Control.Access.{OrgContext, Principal}
use daas_engine.Control.Problem.{Result-cases, ok}
use daas_engine.Control.Records.{
  Job, JobStatus, Pipeline, cancelled, failed, queued, running, succeeded,
}
use daas_engine.Jobs.Executor.{
  RunResult, World, begin, clean, complete, completed, crash, fail_clean, fail_source, job_failed,
  leave, of_job, restart, take_lock, take_permit,
}
use daas_engine.Jobs.Invariant.{Inv, job_runs}
use daas_engine.Jobs.Orgs.{cascade, delete_org, in_org, org_removed}
use daas_engine.Jobs.Queue.{JobCreate, JobDb, Settings, cancel_job, check_job, load_job, queue_job}
use daas_engine.Jobs.Removal.{delete_org-jobs, job_at-cascade}
use daas_engine.Jobs.Safety.{Reach-Inv}
use daas_engine.Jobs.Steps.{
  Holds, Reach, Step, begins, cancels, cleans, completes, crashes, creates, fails_clean,
  fails_source, here, leaves, locks, next, org_gone, permits, progresses, purges, rebooted,
}
use daas_engine.Jobs.Table.{
  abandon, advanced, as_abandoned, as_cancelled, at_id, behind, cancel, claim, claimed, finish,
  finished, has_upload, is_pending, is_queued, is_running, is_terminal, job_at, pending_at,
  queued_at, set_progress, started, unlink_uploads, without_upload,
}

-- What one step may do to a job: nothing, or one edge of the state machine.
pub data Moves (j : Job) : Job → Type 0 where
  stays : Moves j j
  starts : (k : Job) → j.status ≡ queued → k.status ≡ running → Moves j k
  advances :
      (k : Job) → j.status ≡ running → k.status ≡ running → j.progress < k.progress → Moves j k
  is_cancelled : (k : Job) → j.status ≡ queued → k.status ≡ cancelled → Moves j k
  fails : (k : Job) → is_pending j.status ≡ true → k.status ≡ failed → Moves j k
  loses_upload : Moves j (without_upload j)
  succeeds : (k : Job) → j.status ≡ running → k.status ≡ succeeded → k.progress ≡ 100 → Moves j k

abbrev pub MovesTo : Job → Option Job → Type 0
MovesTo j o = (k : Job) × (o ≡ some k) × Moves j k

-- A statement that keeps the ids does to the job what it does to its row.
job_at-update :
    (i : ℕ) (p : Job → Bool) (f : Job → Job) (jobs : List Job) (j : Job)
    → ((x : Job) → (f x).id ≡ x.id)
    → job_at i jobs ≡ some j
    → job_at i (update_where p f jobs) ≡ some (if p j then f j else j)
unfolding job_at update_where find_where
job_at-update i p f [] j ids e = cc
job_at-update i p f (x ∷ xs) j ids e = ground (arith, ids x, job_at-update i p f xs j ids)

job_at-append :
    (i : ℕ) (js ks : List Job) (j : Job) → job_at i js ≡ some j → job_at i (js ++ ks) ≡ some j
unfolding job_at find_where
job_at-append i [] ks j e = cc
job_at-append i (x ∷ xs) ks j e = ground (arith, job_at-append i xs ks j)

update-MovesTo :
    (i : ℕ) (p : Job → Bool) (f : Job → Job) (jobs : List Job) (j : Job)
    → ((x : Job) → (f x).id ≡ x.id)
    → (p j ≡ true → Moves j (f j))
    → job_at i jobs ≡ some j
    → MovesTo j (job_at i (update_where p f jobs))
update-MovesTo i p f jobs j ids move e = elim (Bool-cases (p j)) [
  | inl h ↦ (f j, job_at-update i p f jobs j ids e ∙ rw h refl, move h)
  | inr h ↦ (j, job_at-update i p f jobs j ids e ∙ rw h refl, stays)
]

queued_status : (st : JobStatus) → is_queued st ≡ true → st ≡ queued
queued_status queued h = refl
queued_status _ h = absurd (cc)

running_status : (st : JobStatus) → is_running st ≡ true → st ≡ running
running_status running h = refl
running_status _ h = absurd (cc)

at_id-job_at : (i : ℕ) (jobs : List Job) (j : Job) → job_at i jobs ≡ some j → at_id i j ≡ true
unfolding job_at
at_id-job_at i jobs j e = find_where-meets (at_id i) jobs j e

-- The job of a task that holds the locks runs.
held_running :
    (s : Settings) (w : World) (i : ℕ) (j : Job)
    → Inv s w
    → Holds i w
    → job_at i w.db.jobs ≡ some j
    → is_running j.status ≡ true
held_running s w i j v h e = go w.active v.active_run h
  where
    go :
        (ts : List (ℕ × ℕ))
        → All (λ (t : ℕ × ℕ). job_runs t.0 w.db.jobs ≡ true) ts
        → 0 < count_where (of_job i) ts
        → is_running j.status ≡ true
    go [] a c = absurd (unfold count_where in omega arith)
    go (t ∷ ts) a c = elim (Bool-cases (t.0 == i)) [
      | inl same ↦
          unfold job_runs in
          ground (arith, e, ap (λ (k : ℕ). job_at k w.db.jobs) (==→eq t.0 i same), a.0)
      | inr apart ↦ go ts a.1 (unfold count_where in ground arith)
    ]

finish-MovesTo :
    (i now id : ℕ) (code : Option String) (message : String) (jobs : List Job) (j : Job)
    → job_at i jobs ≡ some j
    → MovesTo j (job_at i (finish now id failed code message jobs))
unfolding finish
finish-MovesTo i now id code message jobs j e =
    update-MovesTo i (pending_at id) (finished now failed code message) jobs j
      (λ x. unfold finished in refl)
      (λ h. fails _ (unfold pending_at in ground arith) (unfold finished in refl)) e

creates-MovesTo :
    (s : Settings) (now id org : ℕ) (p : Principal) (body : JobCreate) (db : JobDb) (i : ℕ)
    (j : Job)
    → job_at i db.jobs ≡ some j
    → job_at i (queue_job s now id org p body db).1.jobs ≡ some j
unfolding queue_job
creates-MovesTo s now id org p body db i j e = elim (Result-cases (check_job s org body db)) [
  | inl (u, k) ↦ rw (k, queue_job) (job_at-append i db.jobs _ j e)
  | inr (q, k) ↦ rw (k, queue_job) e
]

cancels-MovesTo :
    (now : ℕ) (ctx : OrgContext) (id : ℕ) (db : JobDb) (i : ℕ) (j : Job)
    → job_at i db.jobs ≡ some j
    → MovesTo j (job_at i (cancel_job now ctx id db).1.jobs)
unfolding cancel_job
cancels-MovesTo now ctx id db i j e = elim (Option-cases (load_job ctx.org.id id db.jobs)) [
  | inl n ↦ rw (n, cancel_job) (j, e, stays)
  | inr (x, n) ↦ elim (Bool-cases (claimed x.id db.jobs == 1)) [
    | inr c ↦ rw (n, c, cancel_job) (j, e, stays)
    | inl c ↦
        rw (n, c, cancel_job)
          (unfold cancel in
            update-MovesTo i (queued_at x.id) (as_cancelled now) db.jobs j
              (λ y. unfold as_cancelled in refl)
              (λ h.
                is_cancelled _ (queued_status j.status (unfold queued_at in ground arith))
                  (unfold as_cancelled in refl))
              e)
  ]
]

begin-jobs :
    (s : Settings) (now id : ℕ) (w : World)
    → ((begin s now id w).db.jobs ≡ w.db.jobs)
      ⊎ ((begin s now id w).db.jobs ≡ claim now id w.db.jobs)
unfolding begin
begin-jobs s now id w = ground arith

begins-MovesTo :
    (s : Settings) (now id : ℕ) (w : World) (i : ℕ) (j : Job)
    → job_at i w.db.jobs ≡ some j
    → MovesTo j (job_at i (begin s now id w).db.jobs)
begins-MovesTo s now id w i j e = elim (begin-jobs s now id w) [
  | inl same ↦ subst (λ js. MovesTo j (job_at i js)) (sym same) (j, e, stays)
  | inr taken ↦
      subst (λ js. MovesTo j (job_at i js)) (sym taken)
        (unfold claim in
          update-MovesTo i (queued_at id) (started now) w.db.jobs j (λ y. unfold started in refl)
            (λ h.
              starts _ (queued_status j.status (unfold queued_at in ground arith))
                (unfold started in refl))
            e)
]

completes-MovesTo :
    (s : Settings) (w : World) (now period : ℕ) (t : ℕ × ℕ) (pipeline : Pipeline) (r : RunResult)
    (i : ℕ) (j : Job)
    → Inv s w
    → Holds t.0 w
    → job_at i w.db.jobs ≡ some j
    → MovesTo j (job_at i (complete now period t pipeline r w).db.jobs)
unfolding complete
completes-MovesTo s w now period t pipeline r i j v h e =
    update-MovesTo i (at_id t.0) (completed now r) w.db.jobs j (λ y. unfold completed in refl)
      (λ k.
        ends
          (held_running s w t.0 j v h (subst (λ (n : ℕ). job_at n w.db.jobs ≡ some j) (same k) e)))
      e
  where
    same : at_id t.0 j ≡ true → i ≡ t.0
    same k = ground (arith, at_id-job_at i w.db.jobs j e)

    ends : is_running j.status ≡ true → Moves j (completed now r j)
    ends busy = elim (Bool-cases (job_failed r)) [
      | inl f ↦ fails _ (ground arith) (unfold completed in ground arith)
      | inr f ↦
          succeeds _ (running_status j.status busy) (unfold completed in ground arith)
            (unfold completed in refl)
    ]

-- In a world with the invariant, a step moves a job that is there along one edge of the state
-- machine, or leaves it as it is.
pub Step-Moves :
    {s : Settings} {w u : World} (i : ℕ) (j : Job)
    → Inv s w
    → Step s w u
    → job_at i w.db.jobs ≡ some j
    → MovesTo j (job_at i u.db.jobs)
Step-Moves {s} {w} i j v (creates now id org p body new unused) e =
    (j, creates-MovesTo s now id org p body w.db i j e, stays)
Step-Moves {s} {w} i j v (cancels now ctx id) e = cancels-MovesTo now ctx id w.db i j e
Step-Moves {s} {w} i j v (locks t waits lock_free) e = (j, unfold take_lock in e, stays)
Step-Moves {s} {w} i j v (permits id waits room) e = (j, unfold take_permit in e, stays)
Step-Moves {s} {w} i j v (begins now id waits) e = begins-MovesTo s now id w i j e
Step-Moves {s} {w} i j v (progresses id percent message) e =
    unfold set_progress in
    update-MovesTo i (behind id percent) (advanced percent message) w.db.jobs j
      (λ y. unfold advanced in refl)
      (λ h.
        advances _ (running_status j.status (unfold behind in ground arith))
          (unfold behind advanced in running_status j.status (ground arith))
          (unfold behind advanced in ground arith))
      e
Step-Moves {s} {w} i j v (fails_source now id message h) e =
    unfold fail_source in finish-MovesTo i now id _ message w.db.jobs j e
Step-Moves {s} {w} i j v (completes now period t pipeline r h) e =
    completes-MovesTo s w now period t pipeline r i j v h e
Step-Moves {s} {w} i j v (leaves id h) e = (j, unfold leave in e, stays)
Step-Moves {s} {w} i j v (crashes id h) e = (j, unfold crash in e, stays)
Step-Moves {s} {w} i j v (fails_clean id h) e = (j, unfold fail_clean in e, stays)
Step-Moves {s} {w} i j v (purges gone uploads trail) e =
    unfold unlink_uploads in
    update-MovesTo i (has_upload gone) without_upload w.db.jobs j
      (λ x. unfold without_upload in refl) (λ h. loses_upload) e
Step-Moves {s} {w} i j v (cleans now id h) e =
    unfold clean in finish-MovesTo i now id _ "internal error" w.db.jobs j e

restart-jobs :
    (q : Settings) (now : ℕ) (w : World)
    → ((restart q now w).db.jobs ≡ w.db.jobs) ⊎ ((restart q now w).db.jobs ≡ abandon now w.db.jobs)
unfolding restart
restart-jobs q now w = ground arith

pub restart-Moves :
    (q : Settings) (now : ℕ) (w : World) (i : ℕ) (j : Job)
    → job_at i w.db.jobs ≡ some j
    → MovesTo j (job_at i (restart q now w).db.jobs)
restart-Moves q now w i j e = elim (restart-jobs q now w) [
  | inl same ↦ subst (λ js. MovesTo j (job_at i js)) (sym same) (j, e, stays)
  | inr left ↦
      subst (λ js. MovesTo j (job_at i js)) (sym left)
        (unfold abandon in
          update-MovesTo i (λ (x : Job). is_running x.status) (as_abandoned now) w.db.jobs j
            (λ y. unfold as_abandoned in refl)
            (λ h. fails _ (ground arith) (unfold as_abandoned in refl)) e)
]

-- The row of a job is as it was, up to an upload that was deleted.
pub data Kept (j : Job) : Job → Type 0 where
  as_before : Kept j j
  upload_gone : Kept j (without_upload j)

-- A job that has ended does not move, but may lose its upload.
Moves-Kept : {j k : Job} → Moves j k → is_terminal j.status ≡ true → Kept j k
Moves-Kept stays h = as_before
Moves-Kept loses_upload h = upload_gone
Moves-Kept (starts k a b) h = absurd (ground arith)
Moves-Kept (advances k a b c) h = absurd (ground arith)
Moves-Kept (is_cancelled k a b) h = absurd (ground arith)
Moves-Kept (fails k a b) h = absurd (ground arith)
Moves-Kept (succeeds k a b c) h = absurd (ground arith)

Kept-Kept : {j k l : Job} → Kept j k → Kept k l → Kept j l
unfolding without_upload
Kept-Kept as_before b = b
Kept-Kept upload_gone as_before = upload_gone
Kept-Kept upload_gone upload_gone = upload_gone

Kept-terminal : {j k : Job} → Kept j k → is_terminal j.status ≡ true → is_terminal k.status ≡ true
unfolding without_upload
Kept-terminal as_before h = h
Kept-terminal upload_gone h = h

-- The row of the job is there, as it was up to its upload.
abbrev pub StaysAs : Job → Option Job → Type 0
StaysAs j o = (k : Job) × (o ≡ some k) × Kept j k

moved-StaysAs :
    (j k : Job) (o : Option Job)
    → is_terminal j.status ≡ true
    → Kept j k
    → MovesTo k o
    → StaysAs j o
moved-StaysAs j k o h kept (l, e, m) = (l, e, Kept-Kept kept (Moves-Kept m (Kept-terminal kept h)))

-- The organization was deleted on the way: a request to delete it was answered with success.
pub data Deleted (o : ℕ) (w : World) (s : Settings)
    : (r : Settings) (u : World) → Reach w s r u → Type 0 where
  now_deleted :
      {r : Settings} {v : World} (now : ℕ) (ctx : OrgContext) (path : Reach w s r v)
      → (delete_org now ctx v).0 ≡ ok tt
      → ctx.org.id ≡ o
      → Deleted o w s r (delete_org now ctx v).1 (org_gone now ctx path)
  before_step :
      {r : Settings} {v u : World} (path : Reach w s r v) (st : Step r v u)
      → Deleted o w s r v path
      → Deleted o w s r u (next path st)
  before_restart :
      {r : Settings} {v : World} (q : Settings) (now : ℕ) (path : Reach w s r v)
      → Deleted o w s r v path
      → Deleted o w s q (restart q now v) (rebooted q now path)
  before_deletion :
      {r : Settings} {v : World} (now : ℕ) (ctx : OrgContext) (path : Reach w s r v)
      → Deleted o w s r v path
      → Deleted o w s r (delete_org now ctx v).1 (org_gone now ctx path)

deleted_or_kept :
    (now : ℕ) (ctx : OrgContext) (w : World) (i : ℕ) (k : Job)
    → job_at i w.db.jobs ≡ some k
    → (job_at i (delete_org now ctx w).1.db.jobs ≡ some k)
      ⊎ (((delete_org now ctx w).0 ≡ ok tt) × (ctx.org.id ≡ k.org_id))
deleted_or_kept now ctx w i k e = elim (delete_org-jobs now ctx w) [
  | inl same ↦ inl (subst (λ v. job_at i v.db.jobs ≡ some k) (sym same) e)
  | inr (none_pending, answer, gone) ↦ elim (Bool-cases (in_org ctx.org.id k)) [
    | inl own ↦ inr (answer, sym (==→eq k.org_id ctx.org.id own))
    | inr apart ↦ inl (
        subst (λ v. job_at i v.db.jobs ≡ some k) (sym gone)
          (unfold org_removed cascade in job_at-cascade i ctx.org.id w.db.jobs k e apart))
  ]
]

Kept-org : {j k : Job} → Kept j k → k.org_id ≡ j.org_id
unfolding without_upload
Kept-org as_before = refl
Kept-org upload_gone = refl

-- From a world with the invariant, the row of a job that succeeded, failed or was cancelled stays as
-- it is through every interleaving of routes, tasks, crashes, deletions of uploads and of
-- organizations, and restarts, but for its upload, which becomes NULL when the upload is deleted,
-- unless the organization of the job was deleted on the way.
pub Reach-terminal :
    {s : Settings} {w : World} (i : ℕ) (j : Job)
    → Inv s w
    → job_at i w.db.jobs ≡ some j
    → is_terminal j.status ≡ true
    → {r : Settings} {u : World} (path : Reach w s r u)
    → StaysAs j (job_at i u.db.jobs) ⊎ Deleted j.org_id w s r u path
Reach-terminal i j v e h here = inl (j, e, as_before)
Reach-terminal i j v e h (next path st) = elim (Reach-terminal i j v e h path) [
  | inr d ↦ inr (before_step path st d)
  | inl (k, at, kept) ↦ inl (moved-StaysAs j k _ h kept (Step-Moves i k (Reach-Inv path v) st at))
]
Reach-terminal i j v e h (rebooted {v = x} q now path) = elim (Reach-terminal i j v e h path) [
  | inr d ↦ inr (before_restart q now path d)
  | inl (k, at, kept) ↦ inl (moved-StaysAs j k _ h kept (restart-Moves q now x i k at))
]
Reach-terminal i j v e h (org_gone {v = x} now ctx path) = elim (Reach-terminal i j v e h path) [
  | inr d ↦ inr (before_deletion now ctx path d)
  | inl (k, at, kept) ↦ elim (deleted_or_kept now ctx x i k at) [
    | inl there_still ↦ inl (k, there_still, kept)
    | inr (answer, own) ↦ inr (now_deleted now ctx path answer (own ∙ Kept-org kept))
  ]
]
