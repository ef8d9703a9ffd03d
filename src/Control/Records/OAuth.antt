-- ===== src/Control/Records/OAuth.antt =====
-- The OAuth rows of app/control/models.py: clients, codes, grants and tokens.
use daas_engine.Base.{ℕ, String, Bool, Option, List}
use daas_engine.Control.Scopes.{Scope}

pub record OAuthClient : Type 0 where
  pub client_id : ℕ
  pub client_name : Option String
  pub created_at : ℕ
  pub expires_at : Option ℕ
  pub revoked_at : Option ℕ

pub data CodeStatus : Type 0 where
  pending approved exchanged denied expired : CodeStatus

pub record OAuthCode : Type 0 where
  pub id : ℕ
  pub client_id : ℕ
  pub org_id : Option ℕ
  pub user_id : Option ℕ
  pub code_hash : Option ℕ
  pub scopes : List Scope
  pub code_challenge : String
  pub redirect_uri : String
  pub redirect_uri_provided_explicitly : Bool
  pub state : Option String
  pub resource : Option String
  pub status : CodeStatus
  pub created_at : ℕ
  pub expires_at : ℕ
  pub exchanged_at : Option ℕ

-- `revocation_reason` of a grant.
pub data Reason : Type 0 where
  reuse_detected client_revoked membership_ended code_replay disconnected : Reason

pub record OAuthGrant : Type 0 where
  pub id : ℕ
  pub client_id : ℕ
  pub org_id : ℕ
  pub user_id : Option ℕ
  pub scopes : List Scope
  pub resource : Option String
  pub created_at : ℕ
  pub revoked_at : Option ℕ
  pub revocation_reason : Option Reason
  pub lock_seq : ℕ

pub data TokenKind : Type 0 where
  access refresh : TokenKind

pub record OAuthToken : Type 0 where
  pub id : ℕ
  pub kind : TokenKind
  pub token_hash : ℕ
  pub client_id : ℕ
  pub grant_id : Option ℕ
  pub org_id : ℕ
  pub user_id : Option ℕ
  pub scopes : List Scope
  pub resource : Option String
  pub parent_id : Option ℕ
  pub created_at : ℕ
  pub expires_at : Option ℕ
  pub revoked_at : Option ℕ
  pub rotated_at : Option ℕ
  pub last_used_at : Option ℕ
