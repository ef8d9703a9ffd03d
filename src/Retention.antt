-- ===== src/Retention.antt =====
-- Retention, app/control/retention.py: what is removed of an organization when its time is over. A
-- file is named by a number, and what the file system answers about it is a parameter.
pub mod Purge
pub mod Keeping
use daas_engine.Base.{
  Bool, List, [], count_where, delete_where, exists_where, false, find_where, if◌then◌else◌, length,
  ltb, map, none, not, opt_eq, select_where, some, true, ℕ, ◌&&◌, ◌++◌, ◌+◌, ◌==◌, ◌||◌, ◌∷◌,
}
use daas_engine.Control.Audit.{record_event}
use daas_engine.Control.Records.{
  files_purge_failed, uploads_purged, Action, AuditEvent, Job, JobStatus, RunRecord, Upload,
  by_system, expired, queued, running,
}
use daas_engine.Jobs.Table.{unlink_uploads}

-- What is there under a path: nothing that may be removed (no file, or outside of the root), a file, a
-- path that cannot be resolved, or a file that cannot be removed.
pub data PathState : Type 0 where
  nothing_there file_there unresolvable unremovable : PathState

pub data UnlinkResult : Type 0 where
  removed missing not_removed : UnlinkResult

-- `_unlink_inside`: what it answers, and whether it unlinked the file.
unfoldable pub unlink_inside : Bool → PathState → UnlinkResult × Bool
unlink_inside dry_run nothing_there = (missing, false)
unlink_inside dry_run file_there = (removed, not dry_run)
unlink_inside dry_run unresolvable = (not_removed, false)
unlink_inside true unremovable = (removed, false)
unlink_inside false unremovable = (not_removed, false)

-- `resolve_report` of a path of a run: it may raise, find nothing, or find a file.
pub data Resolved : Type 0 where
  not_resolved no_report : Resolved
  report_at : ℕ → Resolved

-- What the file system says: of the file of an upload, of a path that a run has, of a report.
pub record Disk : Type 0 where
  pub upload_file : Upload → PathState
  pub resolve_report : ℕ → Resolved
  pub report_file : ℕ → PathState

-- A row of `runs` in the database of the tenant: the local time of its start, and the paths of its
-- reports that are not NULL.
pub record TenantRun : Type 0 where
  pub run_id : ℕ
  pub started_at : ℕ
  pub report_paths : List ℕ

-- `RUN_TABLES` without `runs`; a row of data has the id of its run.
pub data DataTable : Type 0 where
  cs2_matches ecommerce_orders uksc_checks uksc_inventory uksc_hosts : DataTable

-- The tables of the tenant, and the reports whose files were unlinked, by the path that the run has.
pub record TenantDb : Type 0 where
  pub runs : List TenantRun
  pub data_rows : List (DataTable × ℕ)
  pub unlinked : List ℕ

-- The tables of the control plane, and the uploads whose files were unlinked.
pub record RetentionDb : Type 0 where
  pub jobs : List Job
  pub uploads : List Upload
  pub run_records : List RunRecord
  pub audit_events : List AuditEvent
  pub unlinked : List ℕ

pub record PurgeReport : Type 0 where
  pub uploads : ℕ
  pub reports : ℕ
  pub files : ℕ
  pub rows : ℕ
  pub failed : ℕ

abbrev pub is_busy_status : JobStatus → Bool
is_busy_status queued = true
is_busy_status running = true
is_busy_status _ = false

-- `Upload.id in busy`: a job of the organization that waits or runs has the upload.
unfoldable pub is_busy : ℕ → List Job → ℕ → Bool
is_busy org_id jobs id =
    exists_where
      (λ (j : Job). j.org_id == org_id && is_busy_status j.status && opt_eq j.upload_id id) jobs

-- The condition of the query for the uploads whose time is over.
unfoldable pub is_expired_upload : ℕ → ℕ → List Job → Upload → Bool
unfolding is_busy
is_expired_upload now org_id jobs u =
    u.org_id == org_id && ltb u.retention_until now && not (is_busy org_id jobs u.id)

abbrev pub is_not_removed : UnlinkResult → Bool
is_not_removed not_removed = true
is_not_removed _ = false

abbrev pub is_removed : UnlinkResult → Bool
is_removed removed = true
is_removed _ = false

unfoldable pub has_number : ℕ → List ℕ → Bool
has_number n [] = false
has_number n (x ∷ xs) = n == x || has_number n xs

abbrev pub upload_fails : Disk → Upload → Bool
upload_fails disk u = is_not_removed (unlink_inside false (disk.upload_file u)).0

abbrev pub ids_of : List Upload → List ℕ
ids_of us = map (λ (u : Upload). u.id) us

-- `upload.purged`, for each upload whose file is gone.
unfoldable pub record_purged : ℕ → List Upload → List AuditEvent → List AuditEvent
unfolding record_event
record_purged now [] trail = trail
record_purged now (u ∷ us) trail =
    record_purged now us
      (record_event now (some u.org_id) by_system uploads_purged (some u.id) u.bytes trail)

unfoldable pub record_failed : ℕ → ℕ → Action → ℕ → List AuditEvent → List AuditEvent
unfolding record_event
record_failed now org_id action count trail =
    if ltb 0 count
    then record_event now (some org_id) by_system action (some org_id) count trail
    else trail

-- The uploads of `purge_org`: the number that is removed (in a dry run, that would be), the number of
-- failures, and the tables. A deleted upload leaves its jobs without one.
unfoldable pub purge_uploads : Disk → Bool → ℕ → ℕ → RetentionDb → (ℕ × ℕ) × RetentionDb
unfolding is_expired_upload unlink_inside has_number record_purged record_failed unlink_uploads
purge_uploads disk dry_run now org_id db =
    let expired = select_where (is_expired_upload now org_id db.jobs) db.uploads in
    let clean = select_where (λ (u : Upload). not (upload_fails disk u)) expired in
    let failed = count_where (upload_fails disk) expired in
    if dry_run then ((length expired, 0), db) else (
      (length clean, failed),
      record db {
        jobs = unlink_uploads (λ (u : ℕ). has_number u (ids_of clean)) db.jobs;
        uploads = delete_where (λ (u : Upload). has_number u.id (ids_of clean)) db.uploads;
        unlinked =
            ids_of
              (select_where (λ (u : Upload). (unlink_inside false (disk.upload_file u)).1) expired)
            ++ db.unlinked;
        audit_events =
            record_failed now org_id files_purge_failed failed
              (record_purged now clean db.audit_events);
      },
    )

-- One report of a run: the answer, and whether a file was unlinked.
unfoldable pub unlink_report : Disk → Bool → ℕ → UnlinkResult × Bool
unfolding unlink_inside
unlink_report disk dry_run raw = elim (disk.resolve_report raw) [
  | not_resolved ↦ (not_removed, false)
  | no_report ↦ (missing, false)
  | report_at p ↦ unlink_inside dry_run (disk.report_file p)
]

-- The paths of a run, none where the tenant has no such run.
unfoldable pub paths_of : ℕ → List TenantRun → List ℕ
paths_of run_id runs = elim (find_where (λ (r : TenantRun). r.run_id == run_id) runs) [
  | none ↦ []
  | some r ↦ r.report_paths
]

unfoldable pub count_results : Disk → Bool → (UnlinkResult → Bool) → List ℕ → ℕ
unfolding unlink_report
count_results disk dry_run test paths =
    count_where (λ (raw : ℕ). test (unlink_report disk dry_run raw).0) paths

unfoldable pub sum_over : (ℕ → ℕ) → List ℕ → ℕ
sum_over f [] = 0
sum_over f (x ∷ xs) = f x + sum_over f xs

-- `sorted(set(run_ids) | set(old))`, without its order.
unfoldable pub union : List ℕ → List ℕ → List ℕ
unfolding has_number
union [] ys = ys
union (x ∷ xs) ys = let rest = union xs ys in if has_number x rest then rest else x ∷ rest

-- `SELECT run_id FROM runs WHERE started_at < cutoff`.
unfoldable pub old_tenant_runs : ℕ → List TenantRun → List ℕ
old_tenant_runs cutoff runs =
    map (λ (r : TenantRun). r.run_id)
      (select_where (λ (r : TenantRun). ltb r.started_at cutoff) runs)

-- The reports of the runs that are unlinked.
unfoldable pub unlinked_reports : Disk → Bool → List TenantRun → List ℕ → List ℕ
unfolding unlink_report paths_of
unlinked_reports disk dry_run runs [] = []
unlinked_reports disk dry_run runs (r ∷ targets) =
    select_where (λ (raw : ℕ). (unlink_report disk dry_run raw).1) (paths_of r runs)
    ++ unlinked_reports disk dry_run runs targets

-- What `_purge_tenant` answers.
pub record TenantPurge : Type 0 where
  pub files : ℕ
  pub rows : ℕ
  pub failed_run_ids : List ℕ
  pub failed : ℕ

-- `_purge_tenant`.
unfoldable pub purge_tenant : Disk → Bool → ℕ → List ℕ → TenantDb → TenantPurge × TenantDb
unfolding count_results paths_of sum_over union old_tenant_runs has_number unlinked_reports
purge_tenant disk dry_run cutoff run_ids db =
    let targets = union run_ids (old_tenant_runs cutoff db.runs) in
    let fails : ℕ → ℕ = λ r. count_results disk dry_run is_not_removed (paths_of r db.runs) in
    let clean = select_where (λ (r : ℕ). fails r == 0) targets in
    (
      record {
        files = sum_over (λ r. count_results disk dry_run is_removed (paths_of r db.runs)) targets;
        rows = count_where (λ (t : TenantRun). has_number t.run_id clean) db.runs;
        failed_run_ids = select_where (λ (r : ℕ). not (fails r == 0)) targets;
        failed = sum_over fails targets;
      },
      record {
        runs =
            if dry_run
            then db.runs
            else delete_where (λ (t : TenantRun). has_number t.run_id clean) db.runs;
        data_rows =
            if dry_run
            then db.data_rows
            else delete_where (λ (d : DataTable × ℕ). has_number d.1 clean) db.data_rows;
        unlinked = unlinked_reports disk dry_run db.runs targets ++ db.unlinked;
      },
    )
