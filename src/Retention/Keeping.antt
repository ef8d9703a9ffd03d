-- ===== src/Retention/Keeping.antt =====
-- What the retention of app/control/retention.py keeps.
use daas_engine.Base.{
  ==→eq, Bool, Bool-cases, List, Option, [], ap, arith, count_where, false, find_where,
  if◌then◌else◌, inl, inr, map, none, not, refl, select_where, some, subst, sym, true, ℕ, ◌&&◌, ◌*◌,
  ◌++◌, ◌-◌, ◌<◌, ◌==◌, ◌∙◌, ◌∷◌, ◌≡◌, ◌≤◌, ◌⊎◌,
}
use daas_engine.Base.Tables.Laws.{
  count_where-lone, count_where-select, count_where_mono, find_where-delete_keep,
}
use daas_engine.Control.Records.{Job, Org, Upload}
use daas_engine.Retention.{
  Disk, PathState, Resolved, RetentionDb, TenantDb, TenantRun, file_there, has_number, is_busy,
  is_expired_upload, no_report, not_resolved, nothing_there, old_tenant_runs, paths_of,
  purge_tenant, purge_uploads, report_at, union, unlink_inside, unlink_report, unlinked_reports,
  unremovable, unresolvable, upload_fails,
}
use daas_engine.Retention.Purge.{OrgStore, day_seconds, old_records, purge_org, purge_tenant_store}

select_rest :
    (id : ℕ) (q : Upload → Bool) (u : Upload) (us : List Upload)
    → q u ≡ false
    → has_number id (map (λ (c : Upload). c.id) (select_where q (u ∷ us))) ≡ true
    → has_number id (map (λ (c : Upload). c.id) (select_where q us)) ≡ true
unfolding select_where
select_rest id q u us e h =
    subst
      (λ b.
        has_number id
          (map (λ (c : Upload). c.id) (if b then u ∷ select_where q us else select_where q us))
        ≡ true)
      e h

select_found :
    (id : ℕ) (q : Upload → Bool) (u : Upload) (us : List Upload)
    → q u ≡ true
    → (u.id == id) ≡ false
    → has_number id (map (λ (c : Upload). c.id) (select_where q (u ∷ us))) ≡ true
    → has_number id (map (λ (c : Upload). c.id) (select_where q us)) ≡ true
unfolding select_where has_number
select_found id q u us e f h =
    let first =
      subst
        (λ b.
          has_number id
            (map (λ (c : Upload). c.id) (if b then u ∷ select_where q us else select_where q us))
          ≡ true)
        e h in
    ground (arith, first, f)

has_number-select :
    (id : ℕ) (q : Upload → Bool) (us : List Upload)
    → has_number id (map (λ (c : Upload). c.id) (select_where q us)) ≡ true
    → 0 < count_where (λ (u : Upload). u.id == id && q u) us
unfolding has_number select_where count_where
has_number-select id q [] h = absurd (cc)
has_number-select id q (u ∷ us) h = elim (Bool-cases (q u)) [
  | inr e ↦ let ih = has_number-select id q us (select_rest id q u us e h) in ground (arith, ih, e)
  | inl e ↦ elim (Bool-cases (u.id == id)) [
    | inl f ↦ ground (arith, e, f)
    | inr f ↦
        let ih = has_number-select id q us (select_found id q u us e f h) in ground (arith, ih, e)
  ]
]

-- The uploads that a purge removes.
abbrev purged : Disk → ℕ → ℕ → List Job → Upload → Bool
purged disk now org_id jobs u = not (upload_fails disk u) && is_expired_upload now org_id jobs u

spared :
    (disk : Disk) (now org_id : ℕ) (jobs : List Job) (u : Upload)
    → (is_busy org_id jobs u.id ≡ true) ⊎ (now ≤ u.retention_until) ⊎ (upload_fails disk u ≡ true)
    → purged disk now org_id jobs u ≡ false
unfolding is_expired_upload
spared disk now org_id jobs u (inl b) = ground (arith, b)
spared disk now org_id jobs u (inr (inl l)) = ground (arith, l)
spared disk now org_id jobs u (inr (inr f)) = ground (arith, f)

not_listed :
    (disk : Disk) (now org_id : ℕ) (jobs : List Job) (us : List Upload) (u : Upload)
    → find_where (λ (x : Upload). x.id == u.id) us ≡ some u
    → count_where (λ (x : Upload). x.id == u.id) us ≤ 1
    → purged disk now org_id jobs u ≡ false
    → has_number u.id (
        map
          (λ (c : Upload). c.id)
          (select_where
            (λ (x : Upload). not (upload_fails disk x))
            (select_where (is_expired_upload now org_id jobs) us)))
      ≡ false
not_listed disk now org_id jobs us u found one no_purge =
    elim (Bool-cases (
      has_number u.id (
        map (λ (c : Upload). c.id)
          (select_where (λ (x : Upload). not (upload_fails disk x))
            (select_where (is_expired_upload now org_id jobs) us))))) [
              | inr e ↦ e
              | inl e ↦
                  let some_there =
                    has_number-select u.id (λ (x : Upload). not (upload_fails disk x))
                      (select_where (is_expired_upload now org_id jobs) us) e in
                  let moved =
                    count_where-select (λ (x : Upload). x.id == u.id && not (upload_fails disk x))
                      (is_expired_upload now org_id jobs) us in
                  let fewer =
                    count_where_mono
                      (λ (x : Upload).
                        (x.id == u.id && not (upload_fails disk x))
                        && is_expired_upload now org_id jobs x)
                      (λ (x : Upload). x.id == u.id && purged disk now org_id jobs x) us
                      (λ x. ground arith) in
                  let lone =
                    count_where-lone (λ (x : Upload). x.id == u.id && purged disk now org_id jobs x)
                      (λ (x : Upload). x.id == u.id) us u found one (λ x. ground arith) in
                  absurd (ground (arith, some_there, moved, fewer, lone, no_purge))
            ]

abbrev clean_ids : Disk → ℕ → ℕ → RetentionDb → List ℕ
clean_ids disk now org_id db =
    map (λ (c : Upload). c.id)
      (select_where (λ (x : Upload). not (upload_fails disk x))
        (select_where (is_expired_upload now org_id db.jobs) db.uploads))

-- A purge keeps the row of an upload that a waiting or running job of the organization has, of one
-- whose time is not over, and of one whose file cannot be removed, where ids are unique.
pub purge_uploads-keeps :
    (disk : Disk) (now org_id : ℕ) (db : RetentionDb) (u : Upload)
    → find_where (λ (x : Upload). x.id == u.id) db.uploads ≡ some u
    → count_where (λ (x : Upload). x.id == u.id) db.uploads ≤ 1
    → (is_busy org_id db.jobs u.id ≡ true)
      ⊎ (now ≤ u.retention_until)
      ⊎ (upload_fails disk u ≡ true)
    → find_where (λ (x : Upload). x.id == u.id) (purge_uploads disk false now org_id db).1.uploads
      ≡ some u
unfolding purge_uploads
purge_uploads-keeps disk now org_id db u found one why =
    let listed =
      not_listed disk now org_id db.jobs db.uploads u found one
        (spared disk now org_id db.jobs u why) in
    find_where-delete_keep (λ (x : Upload). x.id == u.id) _ db.uploads
      (λ x same.
        subst (λ i. has_number i (clean_ids disk now org_id db) ≡ false)
          (sym (==→eq x.id u.id same)) listed)
    ∙ found

unlink_report-dry : (disk : Disk) (raw : ℕ) → (unlink_report disk true raw).1 ≡ false
unfolding unlink_report unlink_inside
unlink_report-dry disk raw = elim (Resolved-cases (disk.resolve_report raw)) [
  | inl e ↦ rw (e, unlink_report) refl
  | inr (inl e) ↦ rw (e, unlink_report) refl
  | inr (inr (p, e)) ↦ rw (e, unlink_report) (unlink_inside-dry (disk.report_file p))
]
  where
    Resolved-cases :
        (r : Resolved) → (r ≡ not_resolved) ⊎ (r ≡ no_report) ⊎ ((p : ℕ) × (r ≡ report_at p))
    Resolved-cases not_resolved = inl refl
    Resolved-cases no_report = inr (inl refl)
    Resolved-cases (report_at p) = inr (inr (p, refl))

    unlink_inside-dry : (s : PathState) → (unlink_inside true s).1 ≡ false
    unlink_inside-dry nothing_there = refl
    unlink_inside-dry file_there = refl
    unlink_inside-dry unresolvable = refl
    unlink_inside-dry unremovable = refl

select_where-never : (p : ℕ → Bool) (xs : List ℕ) → ((x : ℕ) → p x ≡ false) → select_where p xs ≡ []
unfolding select_where
select_where-never p [] h = refl
select_where-never p (x ∷ xs) h = rw (h x) (select_where-never p xs h)

unlinked_reports-dry :
    (disk : Disk) (runs : List TenantRun) (targets : List ℕ)
    → unlinked_reports disk true runs targets ≡ []
unfolding unlinked_reports
unlinked_reports-dry disk runs [] = refl
unlinked_reports-dry disk runs (r ∷ targets) =
    rw
      (
        select_where-never _ (paths_of r runs) (λ raw. unlink_report-dry disk raw),
        unlinked_reports-dry disk runs targets,
      )
      refl

dry_tenant :
    (disk : Disk) (cutoff : ℕ) (ids : List ℕ) (t : Option TenantDb)
    → (purge_tenant_store disk true cutoff ids t).1 ≡ t
unfolding purge_tenant_store purge_tenant
dry_tenant disk cutoff ids none = refl
dry_tenant disk cutoff ids (some t) =
    ap (λ (us : List ℕ). some (record t { unlinked = us ++ t.unlinked }))
      (unlinked_reports-dry disk t.runs (union ids (old_tenant_runs cutoff t.runs)))

-- A dry run changes no table, neither of the control plane nor of the tenant, and unlinks no file of an
-- upload or of a report.
pub purge_org-dry_run :
    (disk : Disk) (is_valid : Bool) (now : ℕ) (org : Org) (store : OrgStore)
    → (purge_org disk true is_valid now org store).1 ≡ store
unfolding purge_org purge_uploads
purge_org-dry_run disk true now org store =
    let same =
      dry_tenant disk (now - org.retention_days * day_seconds)
        (old_records org.id (now - org.retention_days * day_seconds) store.db.run_records)
        store.tenant in
    cc (same)
purge_org-dry_run disk false now org store = refl
