-- ===== src/OAuth/Granted.antt =====
-- From the consent of app/api/v1/oauth.py to the tokens of app/control/oauth.py: the code that an
-- approval answers with gives its tokens.
use daas_engine.Base.{
  ==_refl, ==→eq, List, arith, count_where, find_where, none, opt_eq, refl, some, subst, sym, true,
  update_where, ℕ, ◌+◌, ◌<◌, ◌∙◌, ◌≡◌, ◌≤◌,
}
use daas_engine.Base.Tables.Laws.{
  count_where-update_keep, count_where_mono, find_where-count, find_where-meets, find_where-narrow,
  find_where-update, find_where-update_new,
}
use daas_engine.Control.Problem.{ok}
use daas_engine.Control.Records.{OAuthCode}
use daas_engine.Control.Scopes.{Scope, subset}
use daas_engine.OAuth.{OAuthDb, Presented, issued}
use daas_engine.OAuth.Approvals.{decide_request-approves}
use daas_engine.OAuth.Codes.{
  AuthorizationCode, Fresh, code_at, exchange_authorization_code, load_authorization_code, response,
  usable_code,
}
use daas_engine.OAuth.Consent.{
  OAuthDecisionIn, OAuthDecisionOut, as_approved, code_ttl, decide_request, open_request,
}

-- The code as `load_authorization_code` gives it.
abbrev pub loaded : ℕ → ℕ → ℕ → ℕ → List Scope → OAuthCode → AuthorizationCode
loaded now digest org user_id granted row = record {
  request_id = row.id;
  client_id = row.client_id;
  org_id = org;
  subject = user_id;
  scopes = granted;
  resource = row.resource;
  expires_at = now + code_ttl;
}

load_authorization_code-approved :
    (now at digest org user_id : ℕ) (granted : List Scope) (presented : Presented) (row : OAuthCode)
    (db : OAuthDb)
    → presented.is_shaped ≡ true
    → find_where (λ (c : OAuthCode). opt_eq c.code_hash presented.hash) db.codes
      ≡ some (as_approved now digest org user_id granted row)
    → load_authorization_code at row.client_id presented db
      ≡ (some (loaded now digest org user_id granted row), db)
unfolding load_authorization_code as_approved
load_authorization_code-approved now at digest org user_id granted presented row db shaped e =
    rw (shaped, load_authorization_code, e) (rw (==_refl row.client_id) refl)

exchange-usable :
    (at client : ℕ) (code : AuthorizationCode) (fresh : Fresh) (db : OAuthDb) (row : OAuthCode)
    → find_where (code_at code.request_id) db.codes ≡ some row
    → count_where (code_at code.request_id) db.codes ≤ 1
    → usable_code at code.request_id row ≡ true
    → (exchange_authorization_code at client code fresh db).0 ≡ issued (response code.scopes fresh)
unfolding exchange_authorization_code
exchange-usable at client code fresh db row e unique u =
    let found = find_where-count (usable_code at code.request_id) db.codes row (
      find_where-narrow (usable_code at code.request_id) (code_at code.request_id) db.codes row
        (λ c. ground arith) e u) in
    let most =
      count_where_mono (usable_code at code.request_id) (code_at code.request_id) db.codes
        (λ c. ground arith) in
    let one : count_where (usable_code at code.request_id) db.codes ≡ 1 =
      omega (arith, found, most, unique) in
    rw (one, exchange_authorization_code) refl

-- The row of the request in the table that the approval left.
approved_rows :
    (now at user_id digest org hash : ℕ) (granted : List Scope) (row : OAuthCode)
    (codes : List OAuthCode)
    → find_where (code_at row.id) codes ≡ some row
    → open_request now row.id row ≡ true
    → count_where (code_at row.id) codes ≤ 1
    → find_where (λ (c : OAuthCode). opt_eq c.code_hash hash) codes ≡ none
    → hash ≡ digest
    → at < now + code_ttl
    → let changed : List OAuthCode =
        update_where (open_request now row.id) (as_approved now digest org user_id granted) codes in
      (find_where (λ (c : OAuthCode). opt_eq c.code_hash hash) changed
        ≡ some (as_approved now digest org user_id granted row))
      × (find_where (code_at row.id) changed
          ≡ some (as_approved now digest org user_id granted row))
      × (count_where (code_at row.id) changed ≤ 1)
      × (usable_code at row.id (as_approved now digest org user_id granted row) ≡ true)
unfolding as_approved
approved_rows now at user_id digest org hash granted row codes a o unique new same soon = (
  find_where-update_new (λ (c : OAuthCode). opt_eq c.code_hash hash) (open_request now row.id)
      (as_approved now digest org user_id granted) codes row (λ c h. rw same (==_refl digest)) new
      (find_where-narrow (open_request now row.id) (code_at row.id) codes row (λ c. ground arith) a
        o),
  find_where-update (code_at row.id) (open_request now row.id)
        (as_approved now digest org user_id granted) codes (λ c h. refl)
      ∙ rw a (ground (arith, o)),
  rw
      (count_where-update_keep (code_at row.id) (open_request now row.id)
        (as_approved now digest org user_id granted) codes (λ c h. refl))
      unique,
  ground (arith, soon, ==_refl row.id),
)

-- The code of an approval is good: for 60 seconds the client of the request loads it by its secret,
-- and then exchanges it for tokens, whose scopes are some of the requested ones. The ids of the codes
-- are unique, and no earlier code has the hash of the new one.
pub decide_request-gives_tokens :
    (now at id user_id digest : ℕ) (body : OAuthDecisionIn) (db : OAuthDb) (out : OAuthDecisionOut)
    (presented : Presented) (fresh : Fresh)
    → body.approve ≡ true
    → (decide_request now id user_id digest body db).0 ≡ ok out
    → count_where (code_at id) db.codes ≤ 1
    → find_where (λ (c : OAuthCode). opt_eq c.code_hash presented.hash) db.codes ≡ none
    → presented.hash ≡ digest
    → presented.is_shaped ≡ true
    → at < now + code_ttl
    → ((row : OAuthCode) × (code : AuthorizationCode) × (find_where (code_at id) db.codes
          ≡ some row)
        × (load_authorization_code at row.client_id presented
              (decide_request now id user_id digest body db).1
            ≡ (some code, (decide_request now id user_id digest body db).1))
        × ((exchange_authorization_code at row.client_id code fresh
              (decide_request now id user_id digest body db).1).0
            ≡ issued (response code.scopes fresh))
        × (subset code.scopes row.scopes ≡ true)
        × (code.subject ≡ user_id))
unfolding as_approved
decide_request-gives_tokens now at id user_id digest body db out presented fresh y e unique new same
      shaped soon =
    let (row, org, granted, m, a, o, g, grants, codes, q) =
      decide_request-approves now id user_id digest body db out y e in
    let own = ==→eq row.id id (find_where-meets (code_at id) db.codes row a) in
    let (by_hash, by_id, once, usable_row) =
      approved_rows now at user_id digest org presented.hash granted row db.codes
        (subst (λ i. find_where (code_at i) db.codes ≡ some row) (sym own) a)
        (subst (λ i. open_request now i row ≡ true) (sym own) o)
        (subst (λ i. count_where (code_at i) db.codes ≤ 1) (sym own) unique) new same soon in
    (
      row,
      loaded now digest org user_id granted row,
      a,
      load_authorization_code-approved now at digest org user_id granted presented row
          (decide_request now id user_id digest body db).1 shaped
          (subst
            (λ cs.
              find_where (λ (c : OAuthCode). opt_eq c.code_hash presented.hash) cs
              ≡ some (as_approved now digest org user_id granted row))
            (sym codes) by_hash),
      exchange-usable at row.client_id (loaded now digest org user_id granted row) fresh
          (decide_request now id user_id digest body db).1
          (as_approved now digest org user_id granted row)
          (subst
            (λ cs.
              find_where (code_at row.id) cs
              ≡ some (as_approved now digest org user_id granted row))
            (sym codes) by_id)
          (subst (λ cs. count_where (code_at row.id) cs ≤ 1) (sym codes) once) usable_row,
      grants.1,
      refl,
    )
