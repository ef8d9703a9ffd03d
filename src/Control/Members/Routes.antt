-- ===== src/Control/Members/Routes.antt =====
-- The routes of app/api/v1/members.py that change a table. Each ends in a commit, or in an error
-- before any commit.
use daas_engine.Base.{
  ℕ, Bool, false, not, ◌&&◌, none, some, List, [], ◌∷◌, ◌==◌, is_none, opt_eq, if◌then◌else◌,
  length, find_where, select_where, delete_where, update_where, exists_where,
}
use daas_engine.Control.Scopes.{Role, is_owner}
use daas_engine.Control.Records.{
  User, Membership, Session, ApiKey, Invitation, AuditEvent, key_revoked, member_removed,
  member_role_changed,
}
use daas_engine.Control.Problem.{Result, ok, err, problem}
use daas_engine.Control.Audit.{record_event}
use daas_engine.Control.Access.{OrgContext, actor_of}
use daas_engine.Control.Members.Guarded.{at_key, delete_member_guarded, set_member_role_guarded}

-- The tables that the routes read and write.
pub record MembersDb : Type 0 where
  pub users : List User
  pub memberships : List Membership
  pub sessions : List Session
  pub api_keys : List ApiKey
  pub invitations : List Invitation
  pub audit_events : List AuditEvent

-- The caller is an owner, by a session: keys have no role.
unfoldable pub caller_owns : OrgContext → Bool
caller_owns ctx = elim ctx.role [ none ↦ false | some r ↦ is_owner r ]

unfoldable pub is_member : ℕ → ℕ → List Membership → Bool
unfolding at_key
is_member org_id user_id ms = exists_where (at_key org_id user_id) ms

-- Of the caller's organization and made by the user, and not yet revoked.
unfoldable pub made_by : ℕ → ℕ → ApiKey → Bool
made_by org_id user_id k =
    k.org_id == org_id && (opt_eq k.created_by user_id && is_none k.revoked_at)

unfoldable pub revoke_key : ℕ → ApiKey → ApiKey
revoke_key now k = record k { revoked_at = some now }

-- The loop over the revoked keys: one event each.
unfoldable pub revoke_events : ℕ → OrgContext → List ApiKey → List AuditEvent → List AuditEvent
unfolding record_event actor_of
revoke_events now ctx [] trail = trail
revoke_events now ctx (k ∷ ks) trail =
    revoke_events now ctx ks
      (record_event now (some ctx.org.id) (actor_of ctx.principal) key_revoked (some k.id) 0 trail)

-- What `remove_member` does once the row is gone: sessions end, keys are revoked, events.
unfoldable pub after_removal : ℕ → OrgContext → ℕ → List Membership → MembersDb → MembersDb
unfolding made_by revoke_key revoke_events
after_removal now ctx user_id ms db =
    let org_id = ctx.org.id in
    let keys = select_where (made_by org_id user_id) db.api_keys in
    record db {
      memberships = ms;
      sessions = delete_where (λ s. s.user_id == user_id && opt_eq s.org_id org_id) db.sessions;
      api_keys = update_where (made_by org_id user_id) (revoke_key now) db.api_keys;
      audit_events =
          record_event now (some org_id) (actor_of ctx.principal) member_removed (some user_id)
            (length keys) (revoke_events now ctx keys db.audit_events);
    }

-- `remove_member` for a row that was found.
unfoldable pub remove_found :
    ℕ → OrgContext → ℕ → Membership → MembersDb → Result (Unit {0}) × MembersDb
unfolding caller_owns is_member after_removal delete_member_guarded
remove_found now ctx user_id m db =
    if is_owner m.role && not (caller_owns ctx)
    then (err (problem 403 "forbidden"), db)
    else (let (ms, done) = delete_member_guarded ctx.org.id user_id db.memberships in
        if done
        then (ok tt, after_removal now ctx user_id ms db)
        else (if is_member ctx.org.id user_id db.memberships
            then (err (problem 409 "last_owner"), db)
            else (err (problem 404 "not_found"), db)))

unfoldable pub remove_member : ℕ → OrgContext → ℕ → MembersDb → Result (Unit {0}) × MembersDb
unfolding remove_found at_key
remove_member now ctx user_id db = elim (find_where (at_key ctx.org.id user_id) db.memberships) [
  | none ↦ (err (problem 404 "not_found"), db)
  | some m ↦ remove_found now ctx user_id m db
]

abbrev pub role_id : Role → ℕ
role_id Role.owner = 3
role_id Role.admin = 2
role_id Role.member = 1

unfoldable pub change_found :
    ℕ → OrgContext → ℕ → Role → Membership → MembersDb → Result Role × MembersDb
unfolding caller_owns is_member set_member_role_guarded record_event actor_of
change_found now ctx user_id role m db =
    if not (caller_owns ctx)
    then (err (problem 403 "forbidden"), db)
    else if role_id m.role == role_id role
    then (ok role, db)
    else (let (ms, done) = set_member_role_guarded ctx.org.id user_id role db.memberships in
        if done
        then (
          ok role,
          record db {
            memberships = ms;
            audit_events =
                record_event now (some ctx.org.id) (actor_of ctx.principal) member_role_changed
                  (some user_id) 0 db.audit_events;
          },
        )
        else (if is_member ctx.org.id user_id db.memberships
            then (err (problem 409 "last_owner"), db)
            else (err (problem 404 "not_found"), db)))

unfoldable pub change_role : ℕ → OrgContext → ℕ → Role → MembersDb → Result Role × MembersDb
unfolding change_found at_key
change_role now ctx user_id role db = elim (find_where (at_key ctx.org.id user_id) db.memberships) [
  | none ↦ (err (problem 404 "not_found"), db)
  | some m ↦ change_found now ctx user_id role m db
]
