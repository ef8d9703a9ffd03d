-- ===== src/OAuth/Exchange.antt =====
-- The exchanges of app/control/oauth.py keep the tokens safe: after any sequence of requests a
-- revoked grant has no live token and no grant has two live refresh tokens.
use daas_engine.Base.{
  Bool-cases, List, Option-cases, [], arith, count_where, find_where, inl, inr, opt_eq, refl, some,
  ℕ, ◌++◌, ◌<◌, ◌==◌, ◌∷◌, ◌≡◌, ◌⊎◌,
}
use daas_engine.Base.Tables.Laws.{count_where-append, count_where_mono}
use daas_engine.Control.Records.{OAuthCode, OAuthGrant, OAuthToken, access}
use daas_engine.OAuth.{OAuthDb, Presented, live_grant_at, live_of, of_grant}
use daas_engine.OAuth.Codes.{
  AuthorizationCode, Fresh, code_at, exchange_authorization_code, is_exchanged, issue_for_code,
  load_authorization_code, new_access, new_grant, new_refresh, revoke_code_family, usable_code,
}
use daas_engine.OAuth.Live.{IsSafe, dead_of, live_or_dead, live_refresh, revoke_code_family-IsSafe}

-- A new pair for a grant that is live and has no live refresh token.
pub IsSafe-pair :
    (grant : ℕ) (gs : List OAuthGrant) (ts : List OAuthToken) (r a : OAuthToken)
    → IsSafe gs ts
    → 0 < count_where (live_grant_at grant) gs
    → count_where (live_refresh grant) ts ≡ 0
    → r.grant_id ≡ some grant
    → a.grant_id ≡ some grant
    → a.kind ≡ access
    → IsSafe gs (ts ++ (r ∷ (a ∷ [])))
IsSafe-pair grant gs ts r a s live none_live er ea ek = record {
  dead = live_or_dead gs (ts ++ (r ∷ (a ∷ []))) (λ id e.
      unfold count_where in
      ground (
        arith,
        er,
        ea,
        dead_of s id e,
        e,
        live,
        count_where-append (live_of id) ts (r ∷ (a ∷ [])),
      ));
  single = λ id.
      unfold count_where in
      ground (
        arith,
        er,
        ea,
        ek,
        s.single id,
        none_live,
        count_where-append (live_refresh id) ts (r ∷ (a ∷ [])),
      );
}

-- A new grant without tokens.
IsSafe-new_grant :
    (g : OAuthGrant) (gs : List OAuthGrant) (ts : List OAuthToken)
    → IsSafe gs ts
    → IsSafe (gs ++ (g ∷ [])) ts
IsSafe-new_grant g gs ts s = record {
  dead =
      live_or_dead (gs ++ (g ∷ [])) ts (λ id e.
        dead_of s id (omega (arith, e, count_where-append (live_grant_at id) gs (g ∷ []))));
  single = s.single;
}

live_refresh-fresh :
    (id : ℕ) (ts : List OAuthToken)
    → count_where (of_grant id) ts ≡ 0
    → count_where (live_refresh id) ts ≡ 0
live_refresh-fresh id ts h =
    omega (arith, h, count_where_mono (live_refresh id) (of_grant id) ts (λ t e. ground arith))

issue_for_code-IsSafe :
    (now client : ℕ) (code : AuthorizationCode) (fresh : Fresh) (db : OAuthDb)
    → count_where (of_grant fresh.grant_id) db.tokens ≡ 0
    → IsSafe db.grants db.tokens
    → IsSafe
        (issue_for_code now client code fresh db).grants
        (issue_for_code now client code fresh db).tokens
unfolding issue_for_code new_grant new_refresh new_access
issue_for_code-IsSafe now client code fresh db new s =
    IsSafe-pair fresh.grant_id _ db.tokens _ _ (IsSafe-new_grant _ db.grants db.tokens s)
      (unfold count_where in
        ground (
          arith,
          count_where-append (live_grant_at fresh.grant_id) db.grants
              (new_grant now client code fresh ∷ []),
        ))
      (live_refresh-fresh fresh.grant_id db.tokens new) refl refl refl

pub exchange_authorization_code-IsSafe :
    (now client : ℕ) (code : AuthorizationCode) (fresh : Fresh) (db : OAuthDb)
    → count_where (of_grant fresh.grant_id) db.tokens ≡ 0
    → IsSafe db.grants db.tokens
    → IsSafe
        (exchange_authorization_code now client code fresh db).1.grants
        (exchange_authorization_code now client code fresh db).1.tokens
unfolding exchange_authorization_code
exchange_authorization_code-IsSafe now client code fresh db new s =
    elim (Bool-cases (count_where (usable_code now code.request_id) db.codes == 1)) [
      | inl e ↦
          rw (e, exchange_authorization_code) (issue_for_code-IsSafe now client code fresh db new s)
      | inr e ↦ elim (Option-cases (find_where (code_at code.request_id) db.codes)) [
        | inl f ↦ rw (e, f, exchange_authorization_code) s
        | inr (c, f) ↦ elim (Bool-cases (is_exchanged c.status)) [
          | inl x ↦ rw (e, f, x, exchange_authorization_code) (revoke_code_family-IsSafe now c db s)
          | inr x ↦ rw (e, f, x, exchange_authorization_code) s
        ]
      ]
    ]

-- A code that is loaded changes nothing, or ends the family of a code that was used before.
load_authorization_code-cases :
    (now client : ℕ) (presented : Presented) (db : OAuthDb)
    → ((load_authorization_code now client presented db).1 ≡ db)
      ⊎ ((c : OAuthCode) × ((load_authorization_code now client presented db).1
            ≡ revoke_code_family now c db))
unfolding load_authorization_code
load_authorization_code-cases now client presented db = elim (Bool-cases presented.is_shaped) [
  | inr e ↦ inl (rw (e, load_authorization_code) refl)
  | inl e ↦
      elim (Option-cases
        (find_where (λ (c : OAuthCode). opt_eq c.code_hash presented.hash) db.codes)) [
          | inl f ↦ inl (rw (e, f, load_authorization_code) refl)
          | inr (c, f) ↦ elim (Bool-cases (is_exchanged c.status)) [
            | inl x ↦ inr (c, rw (e, f, x, load_authorization_code) refl)
            | inr x ↦ inl (rw (e, f, x, load_authorization_code) (ground arith))
          ]
        ]
]

pub load_authorization_code-IsSafe :
    (now client : ℕ) (presented : Presented) (db : OAuthDb)
    → IsSafe db.grants db.tokens
    → IsSafe
        (load_authorization_code now client presented db).1.grants
        (load_authorization_code now client presented db).1.tokens
load_authorization_code-IsSafe now client presented db s =
    elim (load_authorization_code-cases now client presented db) [
      | inl e ↦ rw e s
      | inr (c, e) ↦ rw e (revoke_code_family-IsSafe now c db s)
    ]
