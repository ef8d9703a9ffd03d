-- ===== src/Control/Records/Account.antt =====
-- The accounts of app/control/models.py: organizations, people, their keys and sessions, the
-- invitations, and the audit trail.
use daas_engine.Base.{ℕ, String, Bool, Option, List}
use daas_engine.Control.Scopes.{Scope, Role}
use daas_engine.Control.Records.Work.{Plan}

pub record Org : Type 0 where
  pub id : ℕ
  pub slug : String
  pub name : String
  pub plan : Plan
  pub locale : String
  pub retention_days : ℕ
  pub llm_narrative : Bool
  pub created_at : ℕ

-- `email` is a number that stands for the normalized address.
pub record User : Type 0 where
  pub id : ℕ
  pub email : ℕ
  pub name : Option String
  pub locale : String

-- The primary key is the pair of `org_id` and `user_id`.
pub record Membership : Type 0 where
  pub org_id : ℕ
  pub user_id : ℕ
  pub role : Role
  pub created_at : ℕ

pub record ApiKey : Type 0 where
  pub id : ℕ
  pub org_id : ℕ
  pub name : String
  pub prefix : ℕ
  pub key_hash : ℕ
  pub scopes : List Scope
  pub created_by : Option ℕ
  pub expires_at : Option ℕ
  pub last_used_at : Option ℕ
  pub revoked_at : Option ℕ

pub record MagicLink : Type 0 where
  pub token_hash : ℕ
  pub email : ℕ
  pub created_at : ℕ
  pub expires_at : ℕ
  pub used_at : Option ℕ
  pub nonce_hash : Option ℕ

pub record Session : Type 0 where
  pub id : ℕ
  pub user_id : ℕ
  pub org_id : Option ℕ
  pub csrf_token : ℕ
  pub expires_at : ℕ

-- `actor_type` with `actor_id`.
pub data Actor : Type 0 where
  by_user : Option ℕ → Actor
  by_key : Option ℕ → Actor
  by_system : Actor

pub record Invitation : Type 0 where
  pub id : ℕ
  pub org_id : ℕ
  pub email : ℕ
  pub role : Role
  pub token_hash : ℕ
  pub invited_by : Option Actor
  pub expires_at : ℕ
  pub accepted_at : Option ℕ

pub data Action : Type 0 where
  auth_denied member_invited member_removed member_role_changed invitation_revoked : Action
  key_revoked job_created job_cancelled run_finished org_deleted : Action
  oauth_token_issued oauth_token_revoked oauth_client_registered oauth_consent : Action
  member_added auth_login auth_logout uploads_purged reports_purged files_purge_failed
        reports_purge_failed :
      Action
  schedule_reminded schedule_updated webhook_created webhook_deleted webhook_delivered
        webhook_failed :
      Action

-- `target` is the id of the object; `count` is the count of `meta`, where there is one.
pub record AuditEvent : Type 0 where
  pub org_id : Option ℕ
  pub actor : Actor
  pub action : Action
  pub target : Option ℕ
  pub count : ℕ
  pub ts : ℕ

-- `run.finished`, the event of a test, and any other name.
pub data EventName : Type 0 where
  run_finished_event ping_event : EventName
  other_event : ℕ → EventName

-- `url` and the names of events are lists of bytes; `secret_hash` is the hash of the signing secret.
pub record Webhook : Type 0 where
  pub id : ℕ
  pub org_id : ℕ
  pub url : List ℕ
  pub secret_hash : ℕ
  pub events : List EventName
  pub active : Bool
  pub created_at : ℕ
