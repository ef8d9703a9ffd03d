-- ===== src/OAuth/Reached.antt =====
-- The provider of app/control/oauth.py and the consent of app/api/v1/oauth.py as a state machine:
-- every state that their requests lead to is safe.
use daas_engine.Base.{
  Bool, Bool-cases, List, Option-cases, arith, count_where, find_where, inl, inr, ltb, none, refl,
  some, true, ℕ, ◌&&◌, ◌+◌, ◌==◌, ◌≡◌, ◌⊎◌,
}
use daas_engine.Base.Tables.Laws.{count_where-update_keep}
use daas_engine.Control.Access.{OrgContext}
use daas_engine.Control.Records.{Actor, OAuthCode, OAuthToken, Reason}
use daas_engine.Control.Scopes.{Scope}
use daas_engine.OAuth.{
  OAuthDb, Presented, is_refresh, live_of, of_grant, revoke_oauth_grant, with_lock,
}
use daas_engine.OAuth.Codes.{
  AuthorizationCode, Fresh, exchange_authorization_code, load_authorization_code,
}
use daas_engine.OAuth.Consent.{Decision, revoke_grant, write_decision}
use daas_engine.OAuth.Disconnect.{revoke_grant-IsSafe, write_decision-IsSafe}
use daas_engine.OAuth.Exchange.{exchange_authorization_code-IsSafe, load_authorization_code-IsSafe}
use daas_engine.OAuth.Live.{
  IsSafe, IsSafe-fewer, IsSafe-locked, guard_grant-cases, live_refresh, revoke_oauth_grant-IsSafe,
}
use daas_engine.OAuth.Principals.{joined, last_used_throttle, live_access, principal_for, touched}
use daas_engine.OAuth.Refresh.{
  TokenPointer, exchange_refresh_token, is_expired, load_refresh_token, revoke_token, token_at,
  usable_refresh,
}
use daas_engine.OAuth.Requests.{
  exchange_refresh_token-IsSafe, revoke_token-IsSafe, usable_refresh-IsSafe,
}

load_refresh_token-cases :
    (now : ℕ) (for_revocation : Bool) (client : ℕ) (presented : Presented) (db : OAuthDb)
    → ((load_refresh_token now for_revocation client presented db).1 ≡ db)
      ⊎ ((g id : ℕ) × ((load_refresh_token now for_revocation client presented db).1
            ≡ (usable_refresh now g id client (with_lock g db)).1))
unfolding load_refresh_token
load_refresh_token-cases now for_revocation client presented db =
    elim (Bool-cases presented.is_shaped) [
      | inr x ↦ inl (rw (x, load_refresh_token) refl)
      | inl x ↦
          elim (Option-cases (
            find_where
              (λ (t : OAuthToken).
                t.token_hash == presented.hash && is_refresh t.kind && t.client_id == client)
              db.tokens)) [
                | inl e ↦ inl (rw (x, load_refresh_token, e) refl)
                | inr (t, e) ↦ elim (Bool-cases for_revocation) [
                  | inl v ↦ inl (rw (x, load_refresh_token, e, v) refl)
                  | inr v ↦ elim (Option-cases t.grant_id) [
                    | inl f ↦ inl (rw (x, load_refresh_token, e, v, f) refl)
                    | inr (g, f) ↦ elim (guard_grant-cases g db) [
                      | inl h ↦ inl (rw (x, load_refresh_token, e, v, f, h) refl)
                      | inr h ↦ inr (g, t.id, rw (x, load_refresh_token, e, v, f, h) refl)
                    ]
                  ]
                ]
              ]
    ]

pub load_refresh_token-IsSafe :
    (now : ℕ) (for_revocation : Bool) (client : ℕ) (presented : Presented) (db : OAuthDb)
    → IsSafe db.grants db.tokens
    → IsSafe
        (load_refresh_token now for_revocation client presented db).1.grants
        (load_refresh_token now for_revocation client presented db).1.tokens
load_refresh_token-IsSafe now for_revocation client presented db s =
    elim (load_refresh_token-cases now for_revocation client presented db) [
      | inl e ↦ rw e s
      | inr (g, id, e) ↦ rw e (
          usable_refresh-IsSafe now g id client (with_lock g db)
            (IsSafe-locked g db.grants db.tokens s))
    ]

touched-IsSafe :
    (now : ℕ) (t : OAuthToken) (db : OAuthDb)
    → IsSafe db.grants db.tokens
    → IsSafe (touched now t db).grants (touched now t db).tokens
unfolding touched
touched-IsSafe now t db s =
    elim (Bool-cases
      (elim t.last_used_at [ none ↦ true | some l ↦ ltb (l + last_used_throttle) now ])) [
        | inr e ↦ rw (e, touched) s
        | inl e ↦
            rw (e, touched)
              (IsSafe-fewer db.grants db.tokens _
                (λ id. omega (
                  arith,
                  count_where-update_keep (live_of id) (token_at t.id)
                      (λ (r : OAuthToken). record r { last_used_at = some now }) db.tokens
                      (λ x h. refl),
                ))
                (λ id. omega (
                  arith,
                  count_where-update_keep (live_refresh id) (token_at t.id)
                      (λ (r : OAuthToken). record r { last_used_at = some now }) db.tokens
                      (λ x h. refl),
                ))
                s)
      ]

principal_for-cases :
    (now : ℕ) (presented : Presented) (db : OAuthDb)
    → ((principal_for now presented db).1 ≡ db)
      ⊎ ((t : OAuthToken) × ((principal_for now presented db).1 ≡ touched now t db))
unfolding principal_for
principal_for-cases now presented db = elim (Bool-cases presented.is_shaped) [
  | inr x ↦ inl (rw (x, principal_for) refl)
  | inl x ↦ elim (Option-cases (find_where (live_access presented.hash) db.tokens)) [
    | inl e ↦ inl (rw (x, principal_for, e) refl)
    | inr (t, e) ↦ elim (Option-cases (joined t db)) [
      | inl f ↦ inl (rw (x, principal_for, e, f) refl)
      | inr (ur, f) ↦ elim (Bool-cases (is_expired now t)) [
        | inl v ↦ inl (rw (x, principal_for, e, f, v) refl)
        | inr v ↦ inr (t, rw (x, principal_for, e, f, v) refl)
      ]
    ]
  ]
]

-- The use of an access token writes its time only.
pub principal_for-IsSafe :
    (now : ℕ) (presented : Presented) (db : OAuthDb)
    → IsSafe db.grants db.tokens
    → IsSafe (principal_for now presented db).1.grants (principal_for now presented db).1.tokens
principal_for-IsSafe now presented db s = elim (principal_for-cases now presented db) [
  | inl e ↦ rw e s
  | inr (t, e) ↦ rw e (touched-IsSafe now t db s)
]

-- One request. A new grant has an id that no token refers to.
pub data Step (db : OAuthDb) : OAuthDb → Type 0 where
  code_loads :
      (now client : ℕ) (presented : Presented)
      → Step db (load_authorization_code now client presented db).1
  code_exchanges :
      (now client : ℕ) (code : AuthorizationCode) (fresh : Fresh)
      → count_where (of_grant fresh.grant_id) db.tokens ≡ 0
      → Step db (exchange_authorization_code now client code fresh db).1
  refresh_loads :
      (now : ℕ) (for_revocation : Bool) (client : ℕ) (presented : Presented)
      → Step db (load_refresh_token now for_revocation client presented db).1
  refresh_exchanges :
      (now client : ℕ) (p : TokenPointer) (scopes : List Scope) (fresh : Fresh)
      → Step db (exchange_refresh_token now client p scopes fresh db).1
  token_revokes : (now : ℕ) (p : TokenPointer) → Step db (revoke_token now p db)
  grant_revokes :
      (now id : ℕ) (reason : Reason) (actor : Actor)
      → Step db (revoke_oauth_grant now id reason actor db).1
  access_uses : (now : ℕ) (presented : Presented) → Step db (principal_for now presented db).1
  consent_decides :
      (now user_id digest : ℕ) (row : OAuthCode) (d : Decision)
      → Step db (write_decision now user_id digest row d db).1
  app_disconnects :
      (now token_id : ℕ) (ctx : OrgContext) → Step db (revoke_grant now token_id ctx db).1

pub data Reach (db : OAuthDb) : OAuthDb → Type 0 where
  start : Reach db db
  later : {d d' : OAuthDb} → Reach db d → Step d d' → Reach db d'

Step-IsSafe : (db d : OAuthDb) → Step db d → IsSafe db.grants db.tokens → IsSafe d.grants d.tokens
Step-IsSafe db _ (code_loads now client presented) s =
    load_authorization_code-IsSafe now client presented db s
Step-IsSafe db _ (code_exchanges now client code fresh new) s =
    exchange_authorization_code-IsSafe now client code fresh db new s
Step-IsSafe db _ (refresh_loads now for_revocation client presented) s =
    load_refresh_token-IsSafe now for_revocation client presented db s
Step-IsSafe db _ (refresh_exchanges now client p scopes fresh) s =
    exchange_refresh_token-IsSafe now client p scopes fresh db s
Step-IsSafe db _ (token_revokes now p) s = revoke_token-IsSafe now p db s
Step-IsSafe db _ (grant_revokes now id reason actor) s =
    revoke_oauth_grant-IsSafe now id reason actor db s
Step-IsSafe db _ (access_uses now presented) s = principal_for-IsSafe now presented db s
Step-IsSafe db _ (consent_decides now user_id digest row d) s =
    write_decision-IsSafe now user_id digest row d db s
Step-IsSafe db _ (app_disconnects now token_id ctx) s = revoke_grant-IsSafe now token_id ctx db s

-- Whatever requests are made of tables in which a revoked grant has no live token and no grant has
-- two live refresh tokens, and whatever their order, the tables stay so; a new grant has an id that no
-- token refers to.
pub Reach-IsSafe :
    (db d : OAuthDb) → Reach db d → IsSafe db.grants db.tokens → IsSafe d.grants d.tokens
Reach-IsSafe db _ start s = s
Reach-IsSafe db d (later {d = c} r step) s = Step-IsSafe c d step (Reach-IsSafe db c r s)
