-- ===== src/Control/Members/Owners.antt =====
-- The guarded statements keep an owner in every organization, and keep memberships keyed.
use daas_engine.Base.{refl, ℕ, ◌≤◌, ◌<◌, ◌&&◌, List, arith, ◌==◌, Bool-cases, inl, inr, count_where}
use daas_engine.Base.Tables.Laws.{
  count_where-delete, count_where-update_drop, count_where_mono, count_where-never,
  count_where-delete_le, count_where-update_keep,
}
use daas_engine.Control.Scopes.{Role}
use daas_engine.Control.Records.{Membership}
use daas_engine.Control.Members.Guarded.{
  at_key, owns, other_owners_exist, may_change, delete_member_guarded, with_role,
  set_member_role_guarded,
}

-- The primary key of `memberships`: at most one row for an organization and a user.
abbrev pub IsKeyed : List Membership → Type 0
IsKeyed ms = (o u : ℕ) → count_where (at_key o u) ms ≤ 1

abbrev pub HasOwner : ℕ → List Membership → Type 0
HasOwner o ms = 0 < count_where (owns o) ms

-- The owner rows that one guarded statement can touch are none, or one of several.
touched_owners :
    (o org user : ℕ) (ms : List Membership)
    → IsKeyed ms
    → HasOwner o ms
    → count_where (λ m. owns o m && may_change org user ms m) ms < count_where (owns o) ms
unfolding other_owners_exist
touched_owners o org user ms keyed has = elim (Bool-cases (other_owners_exist org ms)) [
  | inr one ↦ omega (
    arith,
    count_where-never (λ m. owns o m && may_change org user ms m) ms
        (λ m. unfold owns may_change in ground arith),
  )
  | inl more ↦ elim (Bool-cases (o == org)) [
    | inr apart ↦ omega (
      arith,
      count_where-never (λ m. owns o m && may_change org user ms m) ms
          (λ m. unfold owns may_change at_key in ground arith),
    )
    | inl same ↦ ground (
      arith,
      keyed org user,
      count_where_mono (λ m. owns o m && may_change org user ms m) (at_key org user) ms
          (λ m. unfold may_change in ground arith),
    )
  ]
]

pub delete_member_guarded-HasOwner :
    (o org user : ℕ) (ms : List Membership)
    → IsKeyed ms
    → HasOwner o ms
    → HasOwner o (delete_member_guarded org user ms).0
unfolding delete_member_guarded
delete_member_guarded-HasOwner o org user ms keyed has = omega (
  arith,
  touched_owners o org user ms keyed has,
  count_where-delete (owns o) (may_change org user ms) ms,
)

pub set_member_role_guarded-HasOwner :
    (o org user : ℕ) (role : Role) (ms : List Membership)
    → IsKeyed ms
    → HasOwner o ms
    → HasOwner o (set_member_role_guarded org user role ms).0
unfolding set_member_role_guarded
set_member_role_guarded-HasOwner o org user role ms keyed has = omega (
  arith,
  touched_owners o org user ms keyed has,
  count_where-update_drop (owns o) (may_change org user ms) (with_role role) ms,
)

pub delete_member_guarded-IsKeyed :
    (org user : ℕ) (ms : List Membership)
    → IsKeyed ms
    → IsKeyed (delete_member_guarded org user ms).0
unfolding delete_member_guarded
delete_member_guarded-IsKeyed org user ms keyed o u =
    omega (arith, keyed o u, count_where-delete_le (at_key o u) (may_change org user ms) ms)

pub set_member_role_guarded-IsKeyed :
    (org user : ℕ) (role : Role) (ms : List Membership)
    → IsKeyed ms
    → IsKeyed (set_member_role_guarded org user role ms).0
unfolding set_member_role_guarded
set_member_role_guarded-IsKeyed org user role ms keyed o u = omega (
  arith,
  keyed o u,
  count_where-update_keep (at_key o u) (may_change org user ms) (with_role role) ms
      (λ m _. unfold at_key with_role in refl),
)
