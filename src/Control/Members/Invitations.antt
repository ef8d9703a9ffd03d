-- ===== src/Control/Members/Invitations.antt =====
-- Invitations: `invite` and `revoke_invitation` of app/api/v1/members.py, and
-- `accept_pending_invitations` of app/control/service.py.
use daas_engine.Base.{
  Bool, List, [], count_where, delete_where, exists_where, false, find_where, if◌then◌else◌,
  is_none, leb, ltb, none, not, opt_eq, select_where, some, true, update_where, ℕ, ◌&&◌, ◌++◌, ◌+◌,
  ◌-◌, ◌==◌, ◌∷◌,
}
use daas_engine.Control.Access.{OrgContext, actor_of}
use daas_engine.Control.Audit.{record_event}
use daas_engine.Control.Members.Routes.{MembersDb, caller_owns, is_member}
use daas_engine.Control.Problem.{Result, err, ok, problem}
use daas_engine.Control.Records.{
  Action, AuditEvent, Invitation, Membership, User, invitation_revoked, member_invited,
}
use daas_engine.Control.Scopes.{Role, is_owner, role_scopes, subset}

-- `_check_role_grant`: none, or the refusal.
unfoldable pub may_grant : OrgContext → Role → Bool
unfolding caller_owns subset role_scopes
may_grant ctx role =
    not (is_owner role && not (caller_owns ctx)) && subset (role_scopes role) ctx.scopes

-- In seconds: `INVITATION_TTL`, `INVITATION_DAILY_WINDOW`.
abbrev pub invitation_ttl : ℕ
invitation_ttl = 604800

abbrev pub daily_window : ℕ
daily_window = 86400

abbrev pub invitations_per_org_per_day : ℕ
invitations_per_org_per_day = 20

unfoldable pub is_invited_action : Action → Bool
is_invited_action Action.member_invited = true
is_invited_action _ = false

-- The invitations of an organization that the trail shows after a moment.
unfoldable pub sent_since : ℕ → ℕ → List AuditEvent → ℕ
unfolding is_invited_action
sent_since org_id since trail =
    count_where
      (λ (e : AuditEvent). opt_eq e.org_id org_id && (is_invited_action e.action && ltb since e.ts))
      trail

unfoldable pub has_account_here : ℕ → ℕ → MembersDb → Bool
unfolding is_member
has_account_here org_id email db = elim (find_where (λ (u : User). u.email == email) db.users) [
  | none ↦ false
  | some u ↦ is_member org_id u.id db.memberships
]

unfoldable pub is_open_for : ℕ → ℕ → Invitation → Bool
is_open_for org_id email i = i.org_id == org_id && (i.email == email && is_none i.accepted_at)

unfoldable pub refreshed : Role → ℕ → ℕ → Invitation → Invitation
refreshed role digest expires_at i = record i {
  role = role;
  token_hash = digest;
  expires_at = expires_at;
}

-- A new row, or the open invitation of the address made new.
unfoldable pub store_invitation :
    ℕ → ℕ → ℕ → OrgContext → ℕ → Role → List Invitation → List Invitation
unfolding is_open_for refreshed actor_of
store_invitation now new_id digest ctx email role invitations =
    if exists_where (is_open_for ctx.org.id email) invitations
    then update_where (is_open_for ctx.org.id email) (refreshed role digest (now + invitation_ttl))
        invitations
    else invitations
      ++ (record {
        id = new_id;
        org_id = ctx.org.id;
        email = email;
        role = role;
        token_hash = digest;
        invited_by = some (actor_of ctx.principal);
        expires_at = now + invitation_ttl;
        accepted_at = none;
      }
          ∷ [])

-- The id of that invitation.
unfoldable pub invitation_id : ℕ → OrgContext → ℕ → List Invitation → ℕ
unfolding is_open_for
invitation_id new_id ctx email invitations =
    elim (find_where (is_open_for ctx.org.id email) invitations) [ none ↦ new_id | some i ↦ i.id ]

-- `invite`. `wait` is the answer of the limiter, `new_id` and `digest` the fresh id and hash; the
-- e-mail that follows the commit cannot fail the request, and is left out.
unfoldable pub invite :
    Bool → ℕ → ℕ → ℕ → ℕ → ℕ → Role → OrgContext → MembersDb → Result (Unit {0}) × MembersDb
unfolding has_account_here store_invitation invitation_id
invite maintenance wait now new_id digest email role ctx db =
    if maintenance
    then (err (problem 503 "maintenance"), db)
    else if not (may_grant ctx role)
    then (err (problem 403 "forbidden"), db)
    else if leb invitations_per_org_per_day
        (sent_since ctx.org.id (now - daily_window) db.audit_events)
    then (err (problem 429 "invitation_limit"), db)
    else if ltb 0 wait
    then (err (problem 429 "invitation_limit"), db)
    else if has_account_here ctx.org.id email db
    then (ok tt, db)
    else (
      ok tt,
      record db {
        invitations = store_invitation now new_id digest ctx email role db.invitations;
        audit_events =
            record_event now (some ctx.org.id) (actor_of ctx.principal) member_invited
              (some (invitation_id new_id ctx email db.invitations)) 0 db.audit_events;
      },
    )

-- `Invitation.email == user.email`, not accepted, not expired.
unfoldable pub is_pending_for : ℕ → ℕ → Invitation → Bool
is_pending_for now email i = i.email == email && (is_none i.accepted_at && ltb now i.expires_at)

unfoldable pub mark_accepted : ℕ → Invitation → Invitation
mark_accepted now i = record i { accepted_at = some now }

-- The loop over the pending invitations: a membership for each organization that had none.
unfoldable pub join_all :
    ℕ → ℕ → List Invitation → List Membership → List Membership × List (ℕ × Role)
unfolding is_member
join_all now user_id [] ms = (ms, [])
join_all now user_id (i ∷ is) ms = elim (is_member i.org_id user_id ms) [
  | true ↦ join_all now user_id is ms
  | false ↦
      let (ms', added) = join_all now user_id is (
        ms
        ++ (record { org_id = i.org_id; user_id = user_id; role = i.role; created_at = now }
            ∷ [])) in
      (ms', (i.org_id, i.role) ∷ added)
]

unfoldable pub accept_pending_invitations : ℕ → User → MembersDb → MembersDb × List (ℕ × Role)
unfolding is_pending_for mark_accepted join_all
accept_pending_invitations now user db =
    let (ms, added) =
      join_all now user.id (select_where (is_pending_for now user.email) db.invitations)
        db.memberships in
    (
      record db {
        memberships = ms;
        invitations =
            update_where (is_pending_for now user.email) (mark_accepted now) db.invitations;
      },
      added,
    )

unfoldable pub is_open_row : ℕ → ℕ → Invitation → Bool
is_open_row org_id id i = i.id == id && (i.org_id == org_id && is_none i.accepted_at)

unfoldable pub revoke_invitation : ℕ → OrgContext → ℕ → MembersDb → Result (Unit {0}) × MembersDb
unfolding is_open_row record_event actor_of
revoke_invitation now ctx id db =
    if exists_where (is_open_row ctx.org.id id) db.invitations
    then (
      ok tt,
      record db {
        invitations = delete_where (is_open_row ctx.org.id id) db.invitations;
        audit_events =
            record_event now (some ctx.org.id) (actor_of ctx.principal) invitation_revoked (some id)
              0 db.audit_events;
      },
    )
    else (err (problem 404 "not_found"), db)
