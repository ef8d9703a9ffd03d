-- ===== src/Schedule/Settings.antt =====
-- The routes of app/api/v1/schedule.py: what an organization saves of its reminder and notifications.
use daas_engine.Base.{
  Bool, List, Option, [], exists_where, false, find_where, if◌then◌else◌, none, some, true,
  update_where, ℕ, ◌++◌, ◌∷◌,
}
use daas_engine.Control.Access.{OrgContext, actor_of}
use daas_engine.Control.Audit.{record_event}
use daas_engine.Control.Problem.{Result, err, ok, problem}
use daas_engine.Control.Records.{AuditEvent, schedule_updated}
use daas_engine.Control.Webhooks.{Network, UrlParts, safe, unsafe, validate_url}
use daas_engine.Schedule.{
  ChatKind, OrgSchedule, Zone, invalid, next_for, schedule_of, slack, slot, unreachable,
}

-- `default_schedule`; `warsaw` is the number of the default zone.
unfoldable pub default_schedule : ℕ → ℕ → OrgSchedule
default_schedule warsaw org_id = record {
  org_id = org_id;
  reminder_enabled = false;
  reminder_weekday = 0;
  reminder_hour = 8;
  timezone = warsaw;
  reminder_skip_if_recent_upload = true;
  auto_run_on_upload = false;
  notify_on_finish = false;
  notify_webhook_url = none;
  notify_webhook_kind = slack;
  next_reminder_at = none;
  last_reminder_at = none;
  updated_at = none;
}

-- `ScheduleIn` after its validation; the pair of the chat webhook may be left out, and a sent URL may
-- be null. `url` comes with its parts, without blanks at its ends.
pub record ScheduleIn : Type 0 where
  pub reminder_enabled : Bool
  pub reminder_weekday : ℕ
  pub reminder_hour : ℕ
  pub timezone : ℕ
  pub reminder_skip_if_recent_upload : Bool
  pub auto_run_on_upload : Bool
  pub notify_on_finish : Bool
  pub notify_webhook_url : Option (Option (List ℕ × Option UrlParts))
  pub notify_webhook_kind : Option ChatKind

-- `_checked_webhook_url`.
unfoldable pub checked_webhook_url :
    Network → Bool → Option (List ℕ × Option UrlParts) → Result (Option (List ℕ))
unfolding validate_url
checked_webhook_url net dev none = ok none
checked_webhook_url net dev (some (url, split)) = elim (validate_url net dev url split) [
  | unsafe f ↦ err (problem 422 "validation_error")
  | safe _ ↦ ok (some url)
]

-- What a sent address, or none, leaves of the saved one.
unfoldable pub new_url :
    Network
    → Bool
    → Option (Option (List ℕ × Option UrlParts))
    → Option (List ℕ)
    → Result (Option (List ℕ))
unfolding checked_webhook_url
new_url net dev none saved = ok saved
new_url net dev (some sent) saved = checked_webhook_url net dev sent

-- The fields of the body in the row.
unfoldable pub with_fields : ℕ → ScheduleIn → Option (List ℕ) → OrgSchedule → OrgSchedule
with_fields now body url row = record row {
  reminder_enabled = body.reminder_enabled;
  reminder_weekday = body.reminder_weekday;
  reminder_hour = body.reminder_hour;
  timezone = body.timezone;
  reminder_skip_if_recent_upload = body.reminder_skip_if_recent_upload;
  auto_run_on_upload = body.auto_run_on_upload;
  notify_on_finish = body.notify_on_finish;
  notify_webhook_url = url;
  notify_webhook_kind = elim body.notify_webhook_kind [
    | none ↦ row.notify_webhook_kind
    | some k ↦ k
  ];
  updated_at = some now;
}

-- `row.next_reminder_at = next_for(row, now)`; none is what the computation raises.
unfoldable pub with_next : (ℕ → Option Zone) → ℕ → OrgSchedule → Option OrgSchedule
unfolding next_for
with_next zones now row = elim (next_for zones row now) [
  | none ↦ some (record row { next_reminder_at = none })
  | some n ↦ elim n [
    | slot t ↦ some (record row { next_reminder_at = some t })
    | invalid ↦ none
    | unreachable ↦ none
  ]
]

pub record ScheduleDb : Type 0 where
  pub schedules : List OrgSchedule
  pub audit_events : List AuditEvent

-- The row of the organization, or the defaults.
unfoldable pub current_row : ℕ → ℕ → List OrgSchedule → OrgSchedule
unfolding default_schedule
current_row warsaw org_id rows = elim (find_where (schedule_of org_id) rows) [
  | none ↦ default_schedule warsaw org_id
  | some s ↦ s
]

-- The table with a row in place of that of its organization, or added.
unfoldable pub stored : OrgSchedule → List OrgSchedule → List OrgSchedule
stored row rows =
    if exists_where (schedule_of row.org_id) rows
    then update_where (schedule_of row.org_id) (λ (s : OrgSchedule). row) rows
    else rows ++ (row ∷ [])

-- `put_schedule`, of a caller who may change the settings of the organization.
unfoldable pub put_schedule :
    Network
    → Bool
    → (ℕ → Option Zone)
    → ℕ
    → ℕ
    → OrgContext
    → ScheduleIn
    → ScheduleDb
    → Result OrgSchedule × ScheduleDb
unfolding new_url with_fields with_next current_row stored record_event actor_of
put_schedule net dev zones warsaw now ctx body db =
    elim (new_url net dev body.notify_webhook_url
      (current_row warsaw ctx.org.id db.schedules).notify_webhook_url) [
        | err p ↦ (err p, db)
        | ok url ↦
            elim (with_next zones now
              (with_fields now body url (current_row warsaw ctx.org.id db.schedules))) [
                | none ↦ (err (problem 500 "internal_error"), db)
                | some row ↦ (
                  ok row,
                  record db {
                    schedules = stored row db.schedules;
                    audit_events =
                        record_event now (some ctx.org.id) (actor_of ctx.principal) schedule_updated
                          (some ctx.org.id) 0 db.audit_events;
                  },
                )
              ]
      ]
