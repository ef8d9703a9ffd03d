-- ===== src/Tests/Upkeep.antt =====
-- The theorems on reminders and on retention.
use daas_engine.Base.{
  Bool, Option, [], arith, count_where, exists_where, false, find_where, inl, none, refl, some,
  subst, true, ℕ, ◌*◌, ◌+◌, ◌/◌, ◌==◌, ◌∷◌, ◌≡◌, ◌≤◌,
}
use daas_engine.Control.Records.{Job, Upload, csv, ecommerce_demo, queued}
use daas_engine.Retention.{Disk, RetentionDb, file_there, is_busy, purge_uploads, report_at}
use daas_engine.Retention.Keeping.{purge_org-dry_run, purge_uploads-keeps}
use daas_engine.Retention.Purge.{OrgStore, purge_org}
use daas_engine.Schedule.{
  KeepsOrder, OrgSchedule, Zone, compute_next_reminder, schedule_of, search_days, slack, slot,
}
use daas_engine.Schedule.Once.{remind_row-once}
use daas_engine.Schedule.Quiet.{tick-none_due}
use daas_engine.Schedule.Reminders.{
  ReminderDb, ReminderResult, claim_slot, has_recent_upload, no_recipients, not_sent_for, outcome,
  remind, remind_row, tick,
}
use daas_engine.Schedule.Slots.{IsNext, compute_next_reminder-IsNext}
use daas_engine.Schedule.Ticks.{KeepOrder, due_of}
use daas_engine.Tests.{shop}

-- A zone of whole days of 86400 seconds.
abbrev utc : Zone
utc = record { day_of = λ t. t / 86400; moment_of = λ day hour. day * 86400 + hour * 3600 }

abbrev zones : ℕ → Option Zone
zones n = some utc

utc_keeps : KeepsOrder utc
utc_keeps = record { later_day = λ t day hour lt. omega (arith, lt) }

in_utc : zones 0 ≡ some utc
in_utc = refl

compute_next_reminder-IsNext_example :
    ((d : ℕ) × (compute_next_reminder zones 0 8 0 1000000 ≡ slot (utc.moment_of d 8))
      × IsNext utc 0 8 1000000 (utc.day_of 1000000) d
      × (d ≤ utc.day_of 1000000 + 7))
compute_next_reminder-IsNext_example =
    compute_next_reminder-IsNext zones utc 0 8 0 1000000 in_utc utc_keeps (omega arith)
      (omega arith)

abbrev weekly : OrgSchedule
weekly = record {
  org_id = 1;
  reminder_enabled = true;
  reminder_weekday = 0;
  reminder_hour = 8;
  timezone = 0;
  reminder_skip_if_recent_upload = true;
  auto_run_on_upload = false;
  notify_on_finish = false;
  notify_webhook_url = none;
  notify_webhook_kind = slack;
  next_reminder_at = some 900000;
  last_reminder_at = none;
  updated_at = none;
}

abbrev reminders : ReminderDb
reminders = record {
  schedules = weekly ∷ [];
  uploads = [];
  orgs = [];
  users = [];
  memberships = [];
  audit_events = [];
}

abbrev mailer : ℕ → Bool
mailer address = true

abbrev nobody : ReminderResult
nobody = record { org_id = 1; sent = false; recipients = 0; skipped_reason = some no_recipients }

goes_out : (remind_row zones mailer 1000000 weekly 900000 reminders).0 ≡ some nobody
unfolding remind_row compute_next_reminder search_days remind claim_slot count_where outcome
    has_recent_upload exists_where find_where not_sent_for
goes_out = refl

remind_row-once_example :
    remind_row zones mailer 1000001 weekly 900000
      (remind_row zones mailer 1000000 weekly 900000 reminders).1
    ≡ (none, (remind_row zones mailer 1000000 weekly 900000 reminders).1)
remind_row-once_example =
    remind_row-once zones mailer mailer 1000000 1000001 weekly 900000 reminders nobody (omega arith)
      goes_out

all_keep : KeepOrder zones
all_keep tz zone e = let same : utc ≡ zone = cc (e) in subst KeepsOrder same utc_keeps

one_row : (o : ℕ) → count_where (schedule_of o) reminders.schedules ≤ 1
unfolding count_where
one_row o = ground arith

tick-none_due_example :
    count_where (due_of 1000000 1) (tick zones mailer false 1000000 reminders).1.schedules ≡ 0
tick-none_due_example = tick-none_due zones mailer 1000000 reminders 1 all_keep one_row

abbrev old_upload : Upload
old_upload = record {
  id = 4;
  org_id = 1;
  kind = csv;
  filename = "orders.csv";
  bytes = 10;
  sha256 = 0;
  path = "4.csv";
  created_at = 0;
  retention_until = 10;
}

abbrev waiting_job : Job
waiting_job = record {
  id = 9;
  org_id = 1;
  pipeline = ecommerce_demo;
  status = queued;
  progress = 0;
  message = none;
  run_id = none;
  upload_id = some 4;
  client_name = none;
  force_mock = false;
  started_at = none;
  finished_at = none;
  error_code = none;
  period_from = none;
  period_to = none;
}

abbrev disk : Disk
disk = record {
  upload_file = λ u. file_there;
  resolve_report = λ raw. report_at raw;
  report_file = λ p. file_there;
}

abbrev kept_tables : RetentionDb
kept_tables = record {
  jobs = waiting_job ∷ [];
  uploads = old_upload ∷ [];
  run_records = [];
  audit_events = [];
  unlinked = [];
}

finds_upload : find_where (λ (x : Upload). x.id == 4) kept_tables.uploads ≡ some old_upload
unfolding find_where
finds_upload = refl

one_upload : count_where (λ (x : Upload). x.id == 4) kept_tables.uploads ≤ 1
unfolding count_where
one_upload = omega arith

has_waiting_job : is_busy 1 kept_tables.jobs 4 ≡ true
unfolding is_busy exists_where
has_waiting_job = refl

purge_uploads-keeps_example :
    find_where
      (λ (x : Upload). x.id == old_upload.id)
      (purge_uploads disk false 1000 1 kept_tables).1.uploads
    ≡ some old_upload
purge_uploads-keeps_example =
    purge_uploads-keeps disk 1000 1 kept_tables old_upload finds_upload one_upload
      (inl has_waiting_job)

abbrev the_store : OrgStore
the_store = record {
  db = kept_tables;
  tenant = some (record {
    runs = record { run_id = 5; started_at = 10; report_paths = 77 ∷ [] } ∷ [];
    data_rows = [];
    unlinked = [];
  });
}

purge_org-dry_run_example : (purge_org disk true true 1000 shop the_store).1 ≡ the_store
purge_org-dry_run_example = purge_org-dry_run disk true 1000 shop the_store
