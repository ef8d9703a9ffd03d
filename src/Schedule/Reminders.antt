-- ===== src/Schedule/Reminders.antt =====
-- A reminder of app/control/schedule.py: the claim of its moment, and the mails; and one tick of the
-- loop.
use daas_engine.Base.{
  Bool, List, Option, [], count_where, exists_where, false, find_where, if◌then◌else◌, is_some, leb,
  ltb, none, opt_eq, some, update_where, ℕ, ◌&&◌, ◌+◌, ◌==◌, ◌∷◌,
}
use daas_engine.Control.Audit.{record_event}
use daas_engine.Control.Records.{
  AuditEvent, Membership, Org, Upload, User, by_system, schedule_reminded,
}
use daas_engine.RateLimit.Window.{after}
use daas_engine.Schedule.{
  OrgSchedule, Zone, compute_next_reminder, due_schedules, invalid, schedule_of, slot, unreachable,
}

-- The tables that a reminder reads and writes.
pub record ReminderDb : Type 0 where
  pub schedules : List OrgSchedule
  pub uploads : List Upload
  pub orgs : List Org
  pub users : List User
  pub memberships : List Membership
  pub audit_events : List AuditEvent

pub data SkipReason : Type 0 where
  unknown_timezone recent_upload no_recipients mail_failed : SkipReason

pub record ReminderResult : Type 0 where
  pub org_id : ℕ
  pub sent : Bool
  pub recipients : ℕ
  pub skipped_reason : Option SkipReason

-- `RECENT_UPLOAD_WINDOW`: six days.
abbrev pub recent_upload_window : ℕ
recent_upload_window = 518400

-- The condition of the UPDATE that claims a moment.
abbrev pub claimable : ℕ → ℕ → OrgSchedule → Bool
claimable org_id due_at s =
    schedule_of org_id s && s.reminder_enabled && opt_eq s.next_reminder_at due_at

-- The values of the UPDATE: without a following moment the reminder is disabled.
unfoldable pub claimed_row : ℕ → Option ℕ → OrgSchedule → OrgSchedule
claimed_row now following s = record s {
  next_reminder_at = following;
  last_reminder_at = some now;
  reminder_enabled = is_some following;
}

-- The claim: the changed rows, or none where another took the moment.
unfoldable pub claim_slot : ℕ → ℕ → ℕ → Option ℕ → List OrgSchedule → Option (List OrgSchedule)
unfolding claimed_row
claim_slot now org_id due_at following rows =
    if count_where (claimable org_id due_at) rows == 1
    then some (update_where (claimable org_id due_at) (claimed_row now following) rows)
    else none

-- `org_recipients`: the addresses of the members, whose order is left out.
unfoldable pub org_recipients : ℕ → List User → List Membership → List ℕ
org_recipients org_id users [] = []
org_recipients org_id users (m ∷ ms) =
    let rest = org_recipients org_id users ms in
    if m.org_id == org_id
    then elim (find_where (λ (u : User). u.id == m.user_id) users) [
      | none ↦ rest
      | some u ↦ u.email ∷ rest
    ]
    else rest

-- `send_mails`: the mails that the mailer takes are counted.
unfoldable pub send_mails : (ℕ → Bool) → List ℕ → ℕ
send_mails mailer mails = count_where mailer mails

unfoldable pub has_recent_upload : ℕ → ℕ → List Upload → Bool
has_recent_upload now org_id uploads =
    exists_where
      (λ (u : Upload). u.org_id == org_id && leb now (u.created_at + recent_upload_window)) uploads

unfoldable pub not_sent_for : ℕ → SkipReason → ReminderResult
not_sent_for org_id reason = record {
  org_id = org_id;
  sent = false;
  recipients = 0;
  skipped_reason = some reason;
}

unfoldable pub sent_to : ℕ → ℕ → ReminderResult
sent_to org_id sent = record {
  org_id = org_id;
  sent = ltb 0 sent;
  recipients = sent;
  skipped_reason = if ltb 0 sent then none else some mail_failed;
}

-- What follows the claim of a row `s`, whose following moment is none where it was disabled.
unfoldable pub outcome : (ℕ → Bool) → ℕ → OrgSchedule → Option ℕ → ReminderDb → ReminderResult
unfolding has_recent_upload org_recipients send_mails not_sent_for sent_to
outcome mailer now s none db = not_sent_for s.org_id unknown_timezone
outcome mailer now s (some following) db =
    if s.reminder_skip_if_recent_upload && has_recent_upload now s.org_id db.uploads
    then not_sent_for s.org_id recent_upload
    else elim (find_where (λ (o : Org). o.id == s.org_id) db.orgs) [
      | none ↦ not_sent_for s.org_id no_recipients
      | some o ↦ elim (org_recipients s.org_id db.users db.memberships) [
        | [] ↦ not_sent_for s.org_id no_recipients
        | r ∷ rs ↦ sent_to s.org_id (send_mails mailer (r ∷ rs))
      ]
    ]

-- The claim with what follows it.
unfoldable pub remind :
    (ℕ → Bool) → ℕ → OrgSchedule → ℕ → Option ℕ → ReminderDb → Option ReminderResult × ReminderDb
unfolding claim_slot outcome record_event
remind mailer now s due_at following db =
    elim (claim_slot now s.org_id due_at following db.schedules) [
      | none ↦ (none, db)
      | some rows ↦ (
        some (outcome mailer now s following db),
        record db {
          schedules = rows;
          audit_events =
              record_event now (some s.org_id) by_system schedule_reminded (some s.org_id)
                (outcome mailer now s following db).recipients db.audit_events;
        },
      )
    ]

-- The following moment of a claim, none where it cannot be computed; the `AssertionError` is not
-- caught here, and leaves the tables as they were.
unfoldable pub remind_row :
    (ℕ → Option Zone)
    → (ℕ → Bool)
    → ℕ
    → OrgSchedule
    → ℕ
    → ReminderDb
    → Option ReminderResult × ReminderDb
unfolding compute_next_reminder remind
remind_row zones mailer now s due_at db =
    elim (compute_next_reminder zones s.reminder_weekday s.reminder_hour s.timezone now) [
      | slot t ↦ remind mailer now s due_at (some t) db
      | invalid ↦ remind mailer now s due_at none db
      | unreachable ↦ (none, db)
    ]

-- `send_reminder`: none where there is nothing to claim.
unfoldable pub send_reminder :
    (ℕ → Option Zone) → (ℕ → Bool) → Bool → ℕ → ℕ → ReminderDb → Option ReminderResult × ReminderDb
unfolding remind_row
send_reminder zones mailer maintenance now org_id db =
    if maintenance then (none, db) else elim (find_where (schedule_of org_id) db.schedules) [
      | none ↦ (none, db)
      | some s ↦
          if s.reminder_enabled
          then elim s.next_reminder_at [
            | none ↦ (none, db)
            | some due_at ↦
                if leb due_at now then remind_row zones mailer now s due_at db else (none, db)
          ]
          else (none, db)
    ]

-- The loop of `tick` over the due organizations.
unfoldable pub remind_each :
    (ℕ → Option Zone)
    → (ℕ → Bool)
    → Bool
    → ℕ
    → List ℕ
    → ReminderDb
    → List ReminderResult × ReminderDb
unfolding send_reminder
remind_each zones mailer maintenance now [] db = ([], db)
remind_each zones mailer maintenance now (o ∷ os) db =
    let (result, after) = send_reminder zones mailer maintenance now o db in
    let (results, last) = remind_each zones mailer maintenance now os after in
    (elim result [ none ↦ results | some r ↦ r ∷ results ], last)

-- `SchedulerLoop.tick`.
unfoldable pub tick :
    (ℕ → Option Zone) → (ℕ → Bool) → Bool → ℕ → ReminderDb → List ReminderResult × ReminderDb
unfolding due_schedules remind_each
tick zones mailer maintenance now db =
    if maintenance
    then ([], db)
    else remind_each zones mailer maintenance now (due_schedules now db.schedules) db
