-- ===== src/OAuth/Disconnect.antt =====
-- What the consent routes of app/api/v1/oauth.py do to grants and tokens: a decision nothing, the
-- end of a connection its tokens.
use daas_engine.Base.{
  Bool-cases, Option-cases, count_where, false, find_where, inl, inr, refl, select_where, some, ℕ,
  ◌==◌, ◌≡◌, ◌⊎◌,
}
use daas_engine.Control.Access.{OrgContext, actor_of}
use daas_engine.Control.Problem.{ok}
use daas_engine.Control.Records.{OAuthCode, OAuthToken, disconnected}
use daas_engine.OAuth.{OAuthDb, grant_at, live_of, of_grant, revoke_oauth_grant}
use daas_engine.OAuth.Consent.{
  Decision, open_request, refresh_in, revoke_grant, to_approve, to_deny, write_decision,
}
use daas_engine.OAuth.Families.{revoke_oauth_grant-live_of, revoke_oauth_grant-others}
use daas_engine.OAuth.Live.{IsSafe, revoke_oauth_grant-IsSafe}

pub write_decision-IsSafe :
    (now user_id digest : ℕ) (row : OAuthCode) (d : Decision) (db : OAuthDb)
    → IsSafe db.grants db.tokens
    → IsSafe
        (write_decision now user_id digest row d db).1.grants
        (write_decision now user_id digest row d db).1.tokens
unfolding write_decision
write_decision-IsSafe now user_id digest row to_deny db s =
    elim (Bool-cases (count_where (open_request now row.id) db.codes == 1)) [
      | inl e ↦ rw (e, write_decision) s
      | inr e ↦ rw (e, write_decision) s
    ]
write_decision-IsSafe now user_id digest row (to_approve org granted) db s =
    elim (Bool-cases (count_where (open_request now row.id) db.codes == 1)) [
      | inl e ↦ rw (e, write_decision) s
      | inr e ↦ rw (e, write_decision) s
    ]

revoke_grant-cases :
    (now token_id : ℕ) (ctx : OrgContext) (db : OAuthDb)
    → ((revoke_grant now token_id ctx db).1 ≡ db)
      ⊎ ((g : ℕ) × ((revoke_grant now token_id ctx db).1
            ≡ (revoke_oauth_grant now g disconnected (actor_of ctx.principal) db).1))
unfolding revoke_grant
revoke_grant-cases now token_id ctx db =
    elim (Option-cases (find_where (refresh_in token_id ctx.org.id) db.tokens)) [
      | inl e ↦ inl (rw (e, revoke_grant) refl)
      | inr (t, e) ↦ elim (Option-cases t.grant_id) [
        | inl f ↦ inl (rw (e, f, revoke_grant) refl)
        | inr (g, f) ↦ inr (g, rw (e, f, revoke_grant) refl)
      ]
    ]

pub revoke_grant-IsSafe :
    (now token_id : ℕ) (ctx : OrgContext) (db : OAuthDb)
    → IsSafe db.grants db.tokens
    → IsSafe (revoke_grant now token_id ctx db).1.grants (revoke_grant now token_id ctx db).1.tokens
revoke_grant-IsSafe now token_id ctx db s = elim (revoke_grant-cases now token_id ctx db) [
  | inl e ↦ rw e s
  | inr (g, e) ↦ rw e (revoke_oauth_grant-IsSafe now g disconnected (actor_of ctx.principal) db s)
]

-- A caller of an organization disconnects an application by a refresh token of that organization,
-- whose grant is in the table once: no token of the grant is live any more, where before no grant had
-- two live refresh tokens and no revoked one a live token, that still holds, and the row of every other
-- grant and all the tokens of it are as they were.
pub revoke_grant-ends :
    (now token_id g : ℕ) (ctx : OrgContext) (db : OAuthDb) (t : OAuthToken)
    → find_where (refresh_in token_id ctx.org.id) db.tokens ≡ some t
    → t.grant_id ≡ some g
    → count_where (grant_at g) db.grants ≡ 1
    → IsSafe db.grants db.tokens
    → ((revoke_grant now token_id ctx db).0 ≡ ok tt)
      × (count_where (live_of g) (revoke_grant now token_id ctx db).1.tokens ≡ 0)
      × IsSafe
          (revoke_grant now token_id ctx db).1.grants
          (revoke_grant now token_id ctx db).1.tokens
      × ((i : ℕ)
          → (g == i) ≡ false
          → (find_where (grant_at i) (revoke_grant now token_id ctx db).1.grants
              ≡ find_where (grant_at i) db.grants)
            × (select_where (of_grant i) (revoke_grant now token_id ctx db).1.tokens
                ≡ select_where (of_grant i) db.tokens))
unfolding revoke_grant
revoke_grant-ends now token_id g ctx db t e f one s =
    rw (e, f, revoke_grant)
      (
        refl,
        revoke_oauth_grant-live_of now g disconnected (actor_of ctx.principal) db one,
        revoke_oauth_grant-IsSafe now g disconnected (actor_of ctx.principal) db s,
        λ i apart. revoke_oauth_grant-others now g i disconnected (actor_of ctx.principal) db apart,
      )
