-- ===== src/OAuth/Replay.antt =====
-- An authorization code of app/control/oauth.py is good for one exchange: its second use ends the
-- grant that the first gave.
use daas_engine.Base.{
  ==_refl, Bool-cases, List, Option-cases, [], arith, count_where, find_where, inl, inr, not, refl,
  some, true, ℕ, ◌&&◌, ◌==◌, ◌∙◌, ◌∷◌, ◌≡◌, ◌≤◌,
}
use daas_engine.Base.Tables.Laws.{
  count_where-apart, count_where-append, count_where-found, count_where-update_dead,
  find_where-meets, find_where-update,
}
use daas_engine.Control.Members.Keeping.{run}
use daas_engine.Control.Records.{OAuthCode}
use daas_engine.OAuth.{OAuthDb, TokenResponse, grant_at, invalid_grant, issued, live_of, refused}
use daas_engine.OAuth.Codes.{
  AuthorizationCode, Fresh, as_exchanged, code_at, exchange_authorization_code, grant_ids,
  is_exchanged, issue_for_code, new_access, new_grant, new_refresh, revoke_code_family,
  token_of_code, usable_code,
}
use daas_engine.OAuth.Families.{family-live_of, has_id, has_id-grant_ids}

-- The one row of a code that an UPDATE is for.
the_usable :
    (now id : ℕ) (codes : List OAuthCode) (row : OAuthCode)
    → count_where (code_at id) codes ≤ 1
    → find_where (code_at id) codes ≡ some row
    → (count_where (usable_code now id) codes == 1) ≡ true
    → usable_code now id row ≡ true
the_usable now id codes row unique e used = elim (Bool-cases (usable_code now id row)) [
  | inl u ↦ u
  | inr u ↦ absurd (
      ground (
        arith,
        used,
        unique,
        count_where-found (λ c. not (usable_code now id c)) (code_at id) codes row e
            (ground (arith, u)),
        count_where-apart (usable_code now id) (λ c. not (usable_code now id c) && code_at id c)
            (code_at id) codes (λ c. ground arith),
      ))
]

issued-exchange :
    (now client : ℕ) (code : AuthorizationCode) (fresh : Fresh) (db : OAuthDb)
    (answer : TokenResponse)
    → (exchange_authorization_code now client code fresh db).0 ≡ issued answer
    → ((count_where (usable_code now code.request_id) db.codes == 1) ≡ true)
      × ((exchange_authorization_code now client code fresh db).1
          ≡ issue_for_code now client code fresh db)
unfolding exchange_authorization_code
issued-exchange now client code fresh db answer e =
    elim (Bool-cases (count_where (usable_code now code.request_id) db.codes == 1)) [
      | inl u ↦ (u, rw (u, exchange_authorization_code) refl)
      | inr u ↦ elim (Option-cases (find_where (code_at code.request_id) db.codes)) [
        | inl f ↦ absurd (ground (arith, e, u, f))
        | inr (c, f) ↦ absurd (ground (arith, e, u, f))
      ]
    ]

-- The exchange of a code that was used before.
exchange-used :
    (now client id : ℕ) (code : AuthorizationCode) (fresh : Fresh) (db : OAuthDb) (c : OAuthCode)
    → code.request_id ≡ id
    → count_where (usable_code now id) db.codes ≡ 0
    → find_where (code_at id) db.codes ≡ some c
    → is_exchanged c.status ≡ true
    → exchange_authorization_code now client code fresh db
      ≡ (refused invalid_grant, revoke_code_family now c db)
unfolding exchange_authorization_code
exchange-used now client id code fresh db c same none_left f x =
    rw (same, exchange_authorization_code) (rw (none_left, f) (rw x refl))

is_exchanged-row : (now : ℕ) (row : OAuthCode) → is_exchanged (as_exchanged now row).status ≡ true
unfolding as_exchanged
is_exchanged-row now row = refl

issue_for_code-used :
    (now later client : ℕ) (code : AuthorizationCode) (fresh : Fresh) (db : OAuthDb)
    (row : OAuthCode)
    → now ≤ later
    → find_where (code_at code.request_id) db.codes ≡ some row
    → usable_code now code.request_id row ≡ true
    → (count_where
          (usable_code later code.request_id)
          (issue_for_code now client code fresh db).codes
        ≡ 0)
      × (find_where (code_at code.request_id) (issue_for_code now client code fresh db).codes
          ≡ some (as_exchanged now row))
unfolding issue_for_code as_exchanged
issue_for_code-used now later client code fresh db row le f usable_row = (
  count_where-update_dead (usable_code later code.request_id) (usable_code now code.request_id)
      (as_exchanged now) db.codes (λ c h. ground arith) (λ c h. ground (arith, h, le)),
  find_where-update (code_at code.request_id) (usable_code now code.request_id) (as_exchanged now)
        db.codes (λ c h. refl)
      ∙ rw f (rw usable_row refl),
)

issue_for_code-grant :
    (now client : ℕ) (code : AuthorizationCode) (fresh : Fresh) (db : OAuthDb) (row : OAuthCode)
    → count_where (grant_at fresh.grant_id) db.grants ≡ 0
    → find_where (code_at code.request_id) db.codes ≡ some row
    → row.client_id ≡ client
    → (has_id fresh.grant_id
          (grant_ids row.client_id row.id (issue_for_code now client code fresh db).tokens)
        ≡ true)
      × (count_where (grant_at fresh.grant_id) (issue_for_code now client code fresh db).grants ≡ 1)
unfolding issue_for_code new_refresh new_access new_grant count_where token_of_code
issue_for_code-grant now client code fresh db row new f mine = (
  has_id-grant_ids row.client_id row.id fresh.grant_id db.tokens _ _
      (ground (
        arith,
        mine,
        ==_refl row.client_id,
        find_where-meets (code_at code.request_id) db.codes row f,
      ))
      refl,
  ground (
    arith,
    new,
    ==_refl fresh.grant_id,
    count_where-append (grant_at fresh.grant_id) db.grants (new_grant now client code fresh ∷ []),
  ),
)

-- A code that gave tokens, in a table where ids are unique and to a client that the code is for, is
-- refused at its second exchange, whoever tries it and when, and that leaves no live token in the
-- grant of the first.
pub exchange_authorization_code-twice :
    (now later client other : ℕ) (code again : AuthorizationCode) (fresh next : Fresh)
    (db : OAuthDb) (row : OAuthCode) (answer : TokenResponse)
    → now ≤ later
    → again.request_id ≡ code.request_id
    → count_where (code_at code.request_id) db.codes ≤ 1
    → count_where (grant_at fresh.grant_id) db.grants ≡ 0
    → find_where (code_at code.request_id) db.codes ≡ some row
    → row.client_id ≡ client
    → (exchange_authorization_code now client code fresh db).0 ≡ issued answer
    → ((exchange_authorization_code later other again next
          (exchange_authorization_code now client code fresh db).1).0
        ≡ refused invalid_grant)
      × (count_where
            (live_of fresh.grant_id)
            (exchange_authorization_code later other again next
              (exchange_authorization_code now client code fresh db).1).1.tokens
          ≡ 0)
unfolding as_exchanged
exchange_authorization_code-twice now later client other code again fresh next db row answer le same
      unique new f mine e =
    let (u, run) = issued-exchange now client code fresh db answer e in
    let usable_row = the_usable now code.request_id db.codes row unique f u in
    let (a, b) = issue_for_code-used now later client code fresh db row le f usable_row in
    let (g, one) = issue_for_code-grant now client code fresh db row new f mine in
    let second =
      exchange-used later other code.request_id again next (issue_for_code now client code fresh db)
        (as_exchanged now row) same a b (is_exchanged-row now row) in
    rw (run, second)
      (
        refl,
        family-live_of later fresh.grant_id (as_exchanged now row)
            (issue_for_code now client code fresh db) g one,
      )
