-- ===== src/OAuth/Principals.antt =====
-- `principal_for` of app/control/oauth.py: who an access token speaks for.
use daas_engine.Base.{
  Bool, Option, find_where, if◌then◌else◌, is_none, ltb, none, not, opt_eq, some, true,
  update_where, ℕ, ◌&&◌, ◌+◌, ◌==◌,
}
use daas_engine.Control.Access.{Principal, oauth}
use daas_engine.Control.Members.Guarded.{at_key}
use daas_engine.Control.Records.{OAuthClient, OAuthGrant, OAuthToken}
use daas_engine.Control.Scopes.{Role, grantable_scopes}
use daas_engine.OAuth.{OAuthDb, Presented, is_access}
use daas_engine.OAuth.Refresh.{is_expired, token_at}

-- The condition on the token; those on its client, grant, membership and user are the joins.
unfoldable pub live_access : ℕ → OAuthToken → Bool
live_access hash t = t.token_hash == hash && is_access t.kind && is_none t.revoked_at

abbrev pub last_used_throttle : ℕ
last_used_throttle = 300

-- The scopes of a token under the present role of its user.
unfoldable pub token_principal : OAuthToken → ℕ → Role → Principal
unfolding grantable_scopes
token_principal t u role = oauth u t.org_id (grantable_scopes t.scopes (some role))

-- The joins of `principal_for`. `users` is the table of users, which a membership refers to.
unfoldable pub joined : OAuthToken → OAuthDb → Option (ℕ × Role)
unfolding at_key
joined t db =
    elim (find_where (λ (c : OAuthClient). c.client_id == t.client_id && is_none c.revoked_at)
      db.clients) [
        | none ↦ none
        | some _ ↦
            elim (find_where (λ (g : OAuthGrant). opt_eq t.grant_id g.id && is_none g.revoked_at)
              db.grants) [
                | none ↦ none
                | some _ ↦ elim t.user_id [
                  | none ↦ none
                  | some u ↦ elim (find_where (at_key t.org_id u) db.memberships) [
                    | none ↦ none
                    | some m ↦ some (u, m.role)
                  ]
                ]
              ]
      ]

-- `last_used_at` is written at most every five minutes.
unfoldable pub touched : ℕ → OAuthToken → OAuthDb → OAuthDb
touched now t db =
    if elim t.last_used_at [ none ↦ true | some l ↦ ltb (l + last_used_throttle) now ]
    then record db {
      tokens =
          update_where (token_at t.id) (λ (r : OAuthToken). record r { last_used_at = some now })
            db.tokens;
    }
    else db

-- `principal_for`.
unfoldable pub principal_for : ℕ → Presented → OAuthDb → Option Principal × OAuthDb
unfolding live_access joined token_principal touched is_expired
principal_for now presented db =
    if not presented.is_shaped
    then (none, db)
    else elim (find_where (live_access presented.hash) db.tokens) [
      | none ↦ (none, db)
      | some t ↦ elim (joined t db) [
        | none ↦ (none, db)
        | some (u, role) ↦
            if is_expired now t
            then (none, db)
            else (some (token_principal t u role), touched now t db)
      ]
    ]
