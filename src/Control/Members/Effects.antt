-- ===== src/Control/Members/Effects.antt =====
-- What one call of a members' route changes, and what it may not change.
use daas_engine.Base.{
  ==→eq, Bool, Bool-cases, List, Option-cases, [], ap, arith, count_where, false, find_where,
  if◌then◌else◌, inl, inr, ltb, opt_eq, some, true, ℕ, ◌&&◌, ◌+◌, ◌-◌, ◌==◌, ◌∷◌, ◌≡◌, ◌≤◌,
}
use daas_engine.Base.Tables.Laws.{
  count_where-alone, count_where-append, count_where-delete, count_where-delete_self,
  count_where_mono, count_where-update_clear,
}
use daas_engine.Control.Access.{OrgContext, actor_of}
use daas_engine.Control.Audit.{record_event}
use daas_engine.Control.Members.Guarded.{at_key, delete_member_guarded, may_change, owns}
use daas_engine.Control.Members.Invitations.{
  invitation_id, daily_window, invitations_per_org_per_day, invite, is_invited_action, may_grant,
  sent_since,
}
use daas_engine.Control.Members.Owners.{IsKeyed}
use daas_engine.Control.Members.Routes.{
  MembersDb, caller_owns, change_role, made_by, remove_member, revoke_key,
}
use daas_engine.Control.Problem.{Problem, err, ok}
use daas_engine.Control.Records.{Actor, AuditEvent, Membership, Session, member_invited}
use daas_engine.Control.Scopes.{Role, is_owner}

-- A call that fails has changed nothing.
pub remove_member-err :
    (now : ℕ) (ctx : OrgContext) (u : ℕ) (db : MembersDb) (p : Problem)
    → (remove_member now ctx u db).0 ≡ err p
    → (remove_member now ctx u db).1 ≡ db
unfolding remove_member
remove_member-err now ctx u db p h = ground arith

-- The session is one of the user in the organization.
abbrev pub session_in : ℕ → ℕ → Session → Bool
session_in org_id user_id s = s.user_id == user_id && opt_eq s.org_id org_id

deleted_all :
    (o u : ℕ) (ms : List Membership)
    → IsKeyed ms
    → (delete_member_guarded o u ms).1 ≡ true
    → count_where (at_key o u) (delete_member_guarded o u ms).0 ≡ 0
unfolding delete_member_guarded
deleted_all o u ms keyed h = ground (
  arith,
  keyed o u,
  count_where-delete (at_key o u) (may_change o u ms) ms,
  count_where_mono (may_change o u ms) (λ m. at_key o u m && may_change o u ms m) ms
      (λ m. unfold may_change in ground arith),
)

-- In a table with at most one row for an organization and a user, after a removal that succeeds the
-- user has no membership, no session and no live key of theirs in the organization.
pub remove_member-ok :
    (now : ℕ) (ctx : OrgContext) (u : ℕ) (db : MembersDb)
    → IsKeyed db.memberships
    → (remove_member now ctx u db).0 ≡ ok tt
    → (count_where (at_key ctx.org.id u) (remove_member now ctx u db).1.memberships ≡ 0)
      × (count_where (session_in ctx.org.id u) (remove_member now ctx u db).1.sessions ≡ 0)
      × (count_where (made_by ctx.org.id u) (remove_member now ctx u db).1.api_keys ≡ 0)
unfolding remove_member
remove_member-ok now ctx u db keyed h = ground (
  arith,
  deleted_all ctx.org.id u db.memberships keyed,
  count_where-delete_self (session_in ctx.org.id u) db.sessions,
  count_where-update_clear (made_by ctx.org.id u) (revoke_key now) db.api_keys
      (λ k. unfold made_by revoke_key in ground arith),
)

-- A guarded statement at a key whose row is not an owner's touches no owner.
no_owner_touched :
    (o org u : ℕ) (ms : List Membership) (m : Membership)
    → IsKeyed ms
    → find_where (at_key org u) ms ≡ some m
    → is_owner m.role ≡ false
    → count_where (λ x. owns o x && may_change org u ms x) ms ≡ 0
no_owner_touched o org u ms m keyed found plain = omega (
  arith,
  count_where-alone (owns o) (at_key org u) ms m found (keyed org u) (unfold owns in ground arith),
  count_where_mono (λ x. owns o x && may_change org u ms x) (λ x. owns o x && at_key org u x) ms
      (λ x. unfold may_change in ground arith),
)

delete-keeps_owners :
    (o org u : ℕ) (ms : List Membership) (m : Membership)
    → IsKeyed ms
    → find_where (at_key org u) ms ≡ some m
    → is_owner m.role ≡ false
    → count_where (owns o) (delete_member_guarded org u ms).0 ≡ count_where (owns o) ms
unfolding delete_member_guarded
delete-keeps_owners o org u ms m keyed found plain = omega (
  arith,
  no_owner_touched o org u ms m keyed found plain,
  count_where-delete (owns o) (may_change org u ms) ms,
)

-- In a table with at most one row for an organization and a user, a caller who is not an owner (an
-- admin, or any key) removes no owner and changes no role, whatever the scopes of the call.
pub non_owner_keeps_owners :
    (o now : ℕ) (ctx : OrgContext) (u : ℕ) (r : Role) (db : MembersDb)
    → IsKeyed db.memberships
    → caller_owns ctx ≡ false
    → (count_where (owns o) (remove_member now ctx u db).1.memberships
        ≡ count_where (owns o) db.memberships)
      × ((change_role now ctx u r db).1 ≡ db)
non_owner_keeps_owners o now ctx u r db keyed plain = (
  elim (Option-cases (find_where (at_key ctx.org.id u) db.memberships)) [
    | inl e ↦ unfold remove_member in ground arith
    | inr (m, e) ↦ elim (Bool-cases (is_owner m.role)) [
      | inl h ↦ unfold remove_member in ground arith
      | inr h ↦
          let kept = delete-keeps_owners o ctx.org.id u db.memberships m keyed e h in
          unfold remove_member in ground arith
    ]
  ],
  unfold change_role in ground arith,
)

-- The new event counts for the caller's organization alone.
sent_since-invited :
    (o since now id : ℕ) (actor : Actor) (org : ℕ) (trail : List AuditEvent)
    → sent_since o since (record_event now (some org) actor member_invited (some id) 0 trail)
      ≤ sent_since o since trail + (if org == o then 1 else 0)
unfolding sent_since record_event count_where
sent_since-invited o since now id actor org trail = ground (
  arith,
  count_where-append
      (λ (e : AuditEvent). opt_eq e.org_id o && (is_invited_action e.action && ltb since e.ts))
      trail
      (record {
        org_id = some org;
        actor = actor;
        action = member_invited;
        target = some id;
        count = 0;
        ts = now;
      }
        ∷ []),
)

-- With at most 20 invitations of an organization in the last day, `invite` leaves at most 20; and
-- it changes nothing for a role that the caller may not grant.
pub invite-limits :
    (o : ℕ) (maintenance : Bool) (wait now new_id digest email : ℕ) (role : Role) (ctx : OrgContext)
    (db : MembersDb)
    → sent_since o (now - daily_window) db.audit_events ≤ invitations_per_org_per_day
    → (sent_since o
          (now - daily_window)
          (invite maintenance wait now new_id digest email role ctx db).1.audit_events
        ≤ invitations_per_org_per_day)
      × (may_grant ctx role ≡ false
          → (invite maintenance wait now new_id digest email role ctx db).1 ≡ db)
unfolding invite
invite-limits o maintenance wait now new_id digest email role ctx db h = (
  elim (Bool-cases (ctx.org.id == o)) [
    | inl e ↦ ground (
      arith,
      ap (λ (x : ℕ). sent_since x (now - daily_window) db.audit_events) (==→eq ctx.org.id o e),
      sent_since-invited o (now - daily_window) now (invitation_id new_id ctx email db.invitations)
          (actor_of ctx.principal) ctx.org.id db.audit_events,
    )
    | inr e ↦ ground (
      arith,
      sent_since-invited o (now - daily_window) now (invitation_id new_id ctx email db.invitations)
          (actor_of ctx.principal) ctx.org.id db.audit_events,
    )
  ],
  λ e. ground arith,
)
