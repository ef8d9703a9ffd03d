-- ===== src/Control/Records.antt =====
-- app/control/models.py: the rows of the control database. Identifiers are ULIDs, 128-bit numbers
-- whose texts sort like the numbers, hashes are numbers too; times are counted from the epoch.
mod Account
mod Work
mod OAuth
pub use Account.{
  Org, User, Membership, ApiKey, MagicLink, Session, Invitation, Webhook, EventName,
  run_finished_event, ping_event, other_event, Actor, by_user, by_key, by_system, AuditEvent,
}
pub use Account.{
  Action, auth_denied, member_invited, member_removed, member_role_changed, invitation_revoked,
  key_revoked, job_created, job_cancelled, run_finished, org_deleted, oauth_token_issued,
  oauth_token_revoked, oauth_client_registered, oauth_consent, member_added, auth_login,
  auth_logout, uploads_purged, reports_purged, files_purge_failed, reports_purge_failed,
  schedule_reminded, schedule_updated, webhook_created, webhook_deleted, webhook_delivered,
  webhook_failed,
}
pub use Work.{
  UploadKind, csv, xlsx, package_json, Pipeline, ecommerce_demo, uksc_evidence, cs2_demo, Upload,
  JobStatus, queued, running, succeeded, failed, cancelled, Job, RunStatus, success, partial,
  run_failed, RunRecord, UsageCounter, Plan, free, pro, selfhost,
}
pub use OAuth.{
  OAuthClient, CodeStatus, pending, approved, exchanged, denied, expired, OAuthCode, OAuthGrant,
  Reason, reuse_detected, client_revoked, membership_ended, code_replay, disconnected, TokenKind,
  access, refresh, OAuthToken,
}
