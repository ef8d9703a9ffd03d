-- ===== src/Retention/Purge.antt =====
-- `purge_org` and `purge_all` of app/control/retention.py.
use daas_engine.Base.{
  Bool, List, Option, [], if◌then◌else◌, is_none, length, ltb, map, none, not, select_where, some,
  update_where, ℕ, ◌&&◌, ◌*◌, ◌+◌, ◌-◌, ◌==◌, ◌∷◌,
}
use daas_engine.Control.Records.{Org, RunRecord, reports_purge_failed, reports_purged}
use daas_engine.Retention.{
  Disk, PurgeReport, RetentionDb, TenantDb, TenantPurge, has_number, purge_tenant, purge_uploads,
  record_failed,
}

-- The tables of an organization: of the control plane, and of the tenant where it has a directory.
pub record OrgStore : Type 0 where
  pub db : RetentionDb
  pub tenant : Option TenantDb

-- `RunRecord` of the organization, made before the cutoff, whose reports are there.
abbrev pub is_old_record : ℕ → ℕ → RunRecord → Bool
is_old_record org_id cutoff r =
    r.org_id == org_id && ltb r.created_at cutoff && is_none r.report_purged_at

unfoldable pub old_records : ℕ → ℕ → List RunRecord → List ℕ
old_records org_id cutoff records =
    map (λ (r : RunRecord). r.run_id) (select_where (is_old_record org_id cutoff) records)

unfoldable pub as_purged : ℕ → RunRecord → RunRecord
as_purged now r = record r { report_purged_at = some now }

-- The last transaction, on the records whose reports were removed and on those that failed.
unfoldable pub mark_purged : ℕ → ℕ → List ℕ → List ℕ → RetentionDb → RetentionDb
unfolding as_purged record_failed has_number
mark_purged now org_id clean failed_ids db = record db {
  run_records =
      update_where (λ (r : RunRecord). has_number r.run_id clean) (as_purged now) db.run_records;
  audit_events =
      record_failed now org_id reports_purge_failed (length failed_ids)
        (record_failed now org_id reports_purged (length clean) db.audit_events);
}

-- The tenant's part; without a directory there is nothing to do.
unfoldable pub purge_tenant_store :
    Disk → Bool → ℕ → List ℕ → Option TenantDb → TenantPurge × Option TenantDb
unfolding purge_tenant
purge_tenant_store disk dry_run cutoff run_ids none =
    (record { files = 0; rows = 0; failed_run_ids = []; failed = 0 }, none)
purge_tenant_store disk dry_run cutoff run_ids (some t) =
    let (purge, after) = purge_tenant disk dry_run cutoff run_ids t in (purge, some after)

-- A day, in seconds.
abbrev pub day_seconds : ℕ
day_seconds = 86400

-- `purge_org`; `is_valid` says that the id of the organization has the form of a directory.
unfoldable pub purge_org : Disk → Bool → Bool → ℕ → Org → OrgStore → PurgeReport × OrgStore
unfolding purge_uploads purge_tenant_store old_records mark_purged
purge_org disk dry_run is_valid now org store =
    if is_valid
    then (let cutoff = now - org.retention_days * day_seconds in
        let (uploads, db) = purge_uploads disk dry_run now org.id store.db in
        let old = old_records org.id cutoff db.run_records in
        let (purge, tenant) = purge_tenant_store disk dry_run cutoff old store.tenant in
        let clean = select_where (λ (r : ℕ). not (has_number r purge.failed_run_ids)) old in
        (
          record {
            uploads = uploads.0;
            reports = length clean;
            files = purge.files;
            rows = purge.rows;
            failed = uploads.1 + purge.failed;
          },
          record {
            db = if dry_run then db else mark_purged now org.id clean purge.failed_run_ids db;
            tenant = tenant;
          },
        ))
    else (record { uploads = 0; reports = 0; files = 0; rows = 0; failed = 0 }, store)

-- `purge_all`, over the organizations and their stores.
unfoldable pub purge_all :
    Disk → Bool → (Org → Bool) → ℕ → List (Org × OrgStore) → List (PurgeReport × OrgStore)
unfolding purge_org
purge_all disk dry_run is_valid now [] = []
purge_all disk dry_run is_valid now ((org, store) ∷ rest) =
    purge_org disk dry_run (is_valid org) now org store ∷ purge_all disk dry_run is_valid now rest
