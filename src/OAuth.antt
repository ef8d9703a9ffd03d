-- ===== src/OAuth.antt =====
-- The OAuth provider of app/control/oauth.py: grants and their revocation. A secret is presented as
-- its SHA-256 and whether it has the right shape; each write transaction is one function.
pub mod Codes
pub mod Refresh
pub mod Live
pub mod Exchange
pub mod Rotation
pub mod Requests
pub mod Reached
pub mod Reuse
pub mod Principals
pub mod Clients
pub mod Consent
pub mod Decisions
pub mod Approvals
pub mod Families
pub mod Granted
pub mod Disconnect
pub mod Replay
use daas_engine.Base.{
  Bool, List, Option, count_where, false, find_where, if◌then◌else◌, is_none, none, opt_eq, some,
  true, update_where, ℕ, ◌&&◌, ◌+◌, ◌==◌,
}
use daas_engine.Control.Audit.{record_event}
use daas_engine.Control.Records.{
  Actor, AuditEvent, Membership, OAuthClient, OAuthCode, OAuthGrant, OAuthToken, Reason, TokenKind,
  access, oauth_token_revoked, refresh,
}
use daas_engine.Control.Scopes.{Scope}

-- The tables of the provider.
pub record OAuthDb : Type 0 where
  pub clients : List OAuthClient
  pub codes : List OAuthCode
  pub grants : List OAuthGrant
  pub tokens : List OAuthToken
  pub memberships : List Membership
  pub audit_events : List AuditEvent

-- A raw secret: `sha256_hex(raw)`, and `raw and raw.startswith(prefix) and len(raw) <= 256`.
pub record Presented : Type 0 where
  pub hash : ℕ
  pub is_shaped : Bool

-- `TokenError`.
pub data TokenError : Type 0 where
  invalid_grant invalid_scope : TokenError

-- `TokenResponse`; the raw secrets are given by their hashes.
pub record TokenResponse : Type 0 where
  pub access_token : ℕ
  pub refresh_token : ℕ
  pub scope : List Scope

pub data TokenResult : Type 0 where
  refused : TokenError → TokenResult
  issued : TokenResponse → TokenResult

abbrev pub is_refresh : TokenKind → Bool
is_refresh refresh = true
is_refresh access = false

-- `kind == "access"`.
abbrev pub is_access : TokenKind → Bool
is_access access = true
is_access refresh = false

abbrev pub grant_at : ℕ → OAuthGrant → Bool
grant_at id g = g.id == id

abbrev pub of_grant : ℕ → OAuthToken → Bool
of_grant id t = opt_eq t.grant_id id

-- `OAuthToken.grant_id == grant_id, OAuthToken.revoked_at.is_(None)`.
abbrev pub live_of : ℕ → OAuthToken → Bool
live_of id t = of_grant id t && is_none t.revoked_at

unfoldable pub locked : OAuthGrant → OAuthGrant
locked g = record g { lock_seq = g.lock_seq + 1 }

-- The tables after the UPDATE of `_guard_grant`.
abbrev pub with_lock : ℕ → OAuthDb → OAuthDb
with_lock id db = record db { grants = update_where (grant_at id) locked db.grants }

-- `_guard_grant`: the changed tables, or none where no row was locked.
unfoldable pub guard_grant : ℕ → OAuthDb → Option OAuthDb
guard_grant id db =
    if count_where (grant_at id) db.grants == 1 then some (with_lock id db) else none

unfoldable pub ended : ℕ → Reason → OAuthGrant → OAuthGrant
ended now reason g = record g { revoked_at = some now; revocation_reason = some reason }

unfoldable pub with_revoked : ℕ → OAuthToken → OAuthToken
with_revoked now t = record t { revoked_at = some now }

abbrev pub live_grant_at : ℕ → OAuthGrant → Bool
live_grant_at id g = grant_at id g && is_none g.revoked_at

-- `_revoke_guarded_grant`, with one event for the first revocation; the number of revoked tokens.
unfoldable pub revoke_guarded_grant : ℕ → ℕ → Reason → Actor → OAuthDb → ℕ × OAuthDb
unfolding ended with_revoked record_event
revoke_guarded_grant now id reason actor db = elim (find_where (grant_at id) db.grants) [
  | none ↦ (0, db)
  | some g ↦ (
    count_where (live_of id) db.tokens,
    record db {
      grants = update_where (live_grant_at id) (ended now reason) db.grants;
      tokens = update_where (live_of id) (with_revoked now) db.tokens;
      audit_events =
          if count_where (live_grant_at id) db.grants == 1
          then record_event now (some g.org_id) actor oauth_token_revoked (some g.client_id)
              (count_where (live_of id) db.tokens) db.audit_events
          else db.audit_events;
    },
  )
]

-- `revoke_oauth_grant`.
unfoldable pub revoke_oauth_grant : ℕ → ℕ → Reason → Actor → OAuthDb → ℕ × OAuthDb
unfolding guard_grant revoke_guarded_grant
revoke_oauth_grant now id reason actor db = elim (guard_grant id db) [
  | none ↦ (0, db)
  | some d ↦ revoke_guarded_grant now id reason actor d
]
