-- ===== src/Control/Directory.antt =====
-- app/control/service.py: the user of an address, and the memberships of a user, oldest first.
use daas_engine.Base.{
  Bool, List, [], false, find_where, if◌then◌else◌, leb, ltb, none, select_where, some, true, ℕ,
  ◌&&◌, ◌++◌, ◌==◌, ◌||◌, ◌∷◌,
}
use daas_engine.Control.Records.{Membership, Org, User}

-- `(Membership.created_at, Org.id)`: what the rows are ordered by.
unfoldable pub goes_before : Membership × Org → Membership × Org → Bool
goes_before (m, o) (n, p) =
    ltb m.created_at n.created_at || m.created_at == n.created_at && leb o.id p.id

unfoldable pub insert_row : Membership × Org → List (Membership × Org) → List (Membership × Org)
unfolding goes_before
insert_row x [] = x ∷ []
insert_row x (y ∷ ys) = if goes_before x y then x ∷ (y ∷ ys) else y ∷ insert_row x ys

-- The join with the organizations, ordered.
unfoldable pub joined_rows : List Org → List Membership → List (Membership × Org)
unfolding insert_row
joined_rows orgs [] = []
joined_rows orgs (m ∷ ms) =
    let rest = joined_rows orgs ms in
    elim (find_where (λ (o : Org). o.id == m.org_id) orgs) [
      | none ↦ rest
      | some o ↦ insert_row (m, o) rest
    ]

-- `memberships_of`.
unfoldable pub memberships_of : ℕ → List Org → List Membership → List (Membership × Org)
unfolding joined_rows
memberships_of user_id orgs ms =
    joined_rows orgs (select_where (λ (m : Membership). m.user_id == user_id) ms)

unfoldable pub new_user : ℕ → ℕ → User
new_user new_id email = record { id = new_id; email = email; name = none; locale = "pl" }

-- `get_or_create_user`, of a normalized address; `new_id` is the id of a row that it adds.
unfoldable pub get_or_create_user : ℕ → ℕ → List User → (User × Bool) × List User
unfolding new_user
get_or_create_user new_id email users = elim (find_where (λ (u : User). u.email == email) users) [
  | some u ↦ ((u, false), users)
  | none ↦ ((new_user new_id email, true), users ++ (new_user new_id email ∷ []))
]
