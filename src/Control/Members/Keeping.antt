-- ===== src/Control/Members/Keeping.antt =====
-- Whatever calls the members' routes receive, every organization that had an owner keeps one.
use daas_engine.Base.{
  sym, subst, ◌⊎◌, ℕ, ◌≡◌, false, List, [], ◌∷◌, ◌++◌, arith, Bool-cases, inl, inr, count_where,
}
use daas_engine.Base.Tables.Laws.{count_where-append, exists_where-false}
use daas_engine.Control.Scopes.{Role}
use daas_engine.Control.Records.{Membership, User, Invitation}
use daas_engine.Control.Access.{OrgContext}
use daas_engine.Control.Members.Guarded.{
  at_key, owns, delete_member_guarded, set_member_role_guarded,
}
use daas_engine.Control.Members.Owners.{
  IsKeyed, HasOwner, delete_member_guarded-HasOwner, set_member_role_guarded-HasOwner,
  delete_member_guarded-IsKeyed, set_member_role_guarded-IsKeyed,
}
use daas_engine.Control.Members.Routes.{MembersDb, is_member, remove_member, change_role}
use daas_engine.Control.Members.Invitations.{accept_pending_invitations, join_all}

-- Each route leaves the memberships as they were, or runs its guarded statement.
remove_member-memberships :
    (now : ℕ) (ctx : OrgContext) (u : ℕ) (db : MembersDb)
    → ((remove_member now ctx u db).1.memberships ≡ db.memberships)
      ⊎ ((remove_member now ctx u db).1.memberships
          ≡ (delete_member_guarded ctx.org.id u db.memberships).0)
unfolding remove_member
remove_member-memberships now ctx u db = ground arith

change_role-memberships :
    (now : ℕ) (ctx : OrgContext) (u : ℕ) (r : Role) (db : MembersDb)
    → ((change_role now ctx u r db).1.memberships ≡ db.memberships)
      ⊎ ((change_role now ctx u r db).1.memberships
          ≡ (set_member_role_guarded ctx.org.id u r db.memberships).0)
unfolding change_role
change_role-memberships now ctx u r db = ground arith

-- The calls that change the members: two routes, and a sign-in that accepts invitations.
pub data Call : Type 0 where
  removes : ℕ → OrgContext → ℕ → Call
  changes : ℕ → OrgContext → ℕ → Role → Call
  joins : ℕ → User → Call

unfoldable pub step : Call → MembersDb → MembersDb
step (removes now ctx u) db = (remove_member now ctx u db).1
step (changes now ctx u r) db = (change_role now ctx u r db).1
step (joins now u) db = (accept_pending_invitations now u db).0

unfoldable pub run : List Call → MembersDb → MembersDb
unfolding step
run [] db = db
run (c ∷ cs) db = run cs (step c db)

pub record IsSound (o : ℕ) (ms : List Membership) : Type 0 where
  pub keyed : IsKeyed ms
  pub owned : HasOwner o ms

guarded-IsSound :
    (o : ℕ) (ms ms' ms'' : List Membership)
    → IsSound o ms
    → IsSound o ms'
    → (ms'' ≡ ms) ⊎ (ms'' ≡ ms')
    → IsSound o ms''
guarded-IsSound o ms ms' ms'' s t (inl e) = subst (IsSound o) (sym e) s
guarded-IsSound o ms ms' ms'' s t (inr e) = subst (IsSound o) (sym e) t

-- A new row for a key that had none keeps the table keyed.
insert-IsSound :
    (o : ℕ) (m : Membership) (ms : List Membership)
    → is_member m.org_id m.user_id ms ≡ false
    → IsSound o ms
    → IsSound o (ms ++ (m ∷ []))
unfolding is_member
insert-IsSound o m ms fresh s = record {
  keyed = λ a b.
      unfold at_key count_where in
      ground (
        arith,
        s.keyed a b,
        count_where-append (at_key a b) ms (m ∷ []),
        exists_where-false (at_key m.org_id m.user_id) ms,
      );
  owned =
      unfold owns count_where in ground (arith, s.owned, count_where-append (owns o) ms (m ∷ []));
}

join_all-IsSound :
    (o now u : ℕ) (is : List Invitation) (ms : List Membership)
    → IsSound o ms
    → IsSound o (join_all now u is ms).0
unfolding join_all
join_all-IsSound o now u [] ms s = s
join_all-IsSound o now u (i ∷ is) ms s = elim (Bool-cases (is_member i.org_id u ms)) [
  | inl e ↦ rw (e, join_all) (join_all-IsSound o now u is ms s)
  | inr e ↦ rw (e, join_all) (join_all-IsSound o now u is _ (insert-IsSound o _ ms e s))
]

step-IsSound :
    (o : ℕ) (c : Call) (db : MembersDb)
    → IsSound o db.memberships
    → IsSound o (step c db).memberships
unfolding step
step-IsSound o (removes now ctx u) db s =
    guarded-IsSound o _ _ _ s
      (record {
        keyed = delete_member_guarded-IsKeyed ctx.org.id u db.memberships s.keyed;
        owned = delete_member_guarded-HasOwner o ctx.org.id u db.memberships s.keyed s.owned;
      })
      (remove_member-memberships now ctx u db)
step-IsSound o (changes now ctx u r) db s =
    guarded-IsSound o _ _ _ s
      (record {
        keyed = set_member_role_guarded-IsKeyed ctx.org.id u r db.memberships s.keyed;
        owned = set_member_role_guarded-HasOwner o ctx.org.id u r db.memberships s.keyed s.owned;
      })
      (change_role-memberships now ctx u r db)
step-IsSound o (joins now u) db s =
    unfold accept_pending_invitations in join_all-IsSound o now u.id _ db.memberships s

-- In a table with at most one row for an organization and a user, an organization that has an owner
-- has one after any removals, role changes and accepted invitations, and the table stays so.
pub run-IsSound :
    (o : ℕ) (cs : List Call) (db : MembersDb)
    → IsSound o db.memberships
    → IsSound o (run cs db).memberships
unfolding run
run-IsSound o [] db s = s
run-IsSound o (c ∷ cs) db s = run-IsSound o cs (step c db) (step-IsSound o c db s)
