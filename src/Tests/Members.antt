-- ===== src/Tests/Members.antt =====
-- The members' theorems on the concrete tables.
use daas_engine.Base.{[], arith, count_where, false, find_where, refl, some, true, ◌∷◌, ◌≡◌}
use daas_engine.Control.Access.{AccessDb, org_access, standing, user}
use daas_engine.Control.Access.Laws.{org_access-grants}
use daas_engine.Control.Members.Effects.{non_owner_keeps_owners, remove_member-ok, session_in}
use daas_engine.Control.Members.Guarded.{at_key, owns}
use daas_engine.Control.Members.Keeping.{IsSound, changes, removes, run, run-IsSound}
use daas_engine.Control.Members.Owners.{IsKeyed}
use daas_engine.Control.Members.Routes.{MembersDb, caller_owns, change_role, made_by, remove_member}
use daas_engine.Control.Problem.{ok}
use daas_engine.Control.Scopes.{admin, has, org_manage}
use daas_engine.Tests.{by_key_context, by_owner, shop, staff}

abbrev office : MembersDb
office = record {
  users = [];
  memberships = staff;
  sessions =
      record { id = 70; user_id = 12; org_id = some 1; csrf_token = 0; expires_at = 99 } ∷ [];
  api_keys = [];
  invitations = [];
  audit_events = [];
}

staff-IsKeyed : IsKeyed staff
unfolding count_where at_key
staff-IsKeyed o u = ground arith

staff-IsSound : IsSound 1 staff
unfolding count_where owns
staff-IsSound = record { keyed = staff-IsKeyed; owned = ground arith }

run-IsSound_example :
    IsSound 1
      (run
        (removes 5 by_owner 12 ∷ (changes 6 by_owner 11 admin ∷ (removes 7 by_owner 10 ∷ [])))
        office).memberships
run-IsSound_example =
    run-IsSound 1
      (removes 5 by_owner 12 ∷ (changes 6 by_owner 11 admin ∷ (removes 7 by_owner 10 ∷ []))) office
      staff-IsSound

removes_member : (remove_member 5 by_owner 12 office).0 ≡ ok tt
unfolding remove_member find_where count_where
removes_member = refl

remove_member-ok_example :
    (count_where (at_key 1 12) (remove_member 5 by_owner 12 office).1.memberships ≡ 0)
    × (count_where (session_in 1 12) (remove_member 5 by_owner 12 office).1.sessions ≡ 0)
    × (count_where (made_by 1 12) (remove_member 5 by_owner 12 office).1.api_keys ≡ 0)
remove_member-ok_example = remove_member-ok 5 by_owner 12 office staff-IsKeyed removes_member

key_owns_nothing : caller_owns by_key_context ≡ false
unfolding caller_owns
key_owns_nothing = refl

non_owner_keeps_owners_example :
    (count_where (owns 1) (remove_member 5 by_key_context 12 office).1.memberships
      ≡ count_where (owns 1) office.memberships)
    × ((change_role 5 by_key_context 12 admin office).1 ≡ office)
non_owner_keeps_owners_example =
    non_owner_keeps_owners 1 5 by_key_context 12 admin office staff-IsKeyed key_owns_nothing

abbrev desk : AccessDb
desk = record { orgs = shop ∷ []; memberships = staff; audit_events = [] }

owner_enters : (org_access 5 (some org_manage) true (user 10) 1 desk).0 ≡ ok by_owner
unfolding org_access standing find_where has
owner_enters = refl

org_access-grants_example :
    (by_owner.org.id ≡ 1)
    × (has org_manage by_owner.scopes ≡ true)
    × (standing (user 10) 1 desk.memberships ≡ some (by_owner.role, by_owner.scopes))
    × ((org_access 5 (some org_manage) true (user 10) 1 desk).1 ≡ desk)
org_access-grants_example =
    org_access-grants 5 org_manage true (user 10) 1 desk by_owner owner_enters
