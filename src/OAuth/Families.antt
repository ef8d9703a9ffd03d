-- ===== src/OAuth/Families.antt =====
-- The tokens of an authorization code of app/control/oauth.py: what `_revoke_code_family` and
-- `revoke_oauth_grant` leave live.
use daas_engine.Base.{
  ==_refl, ==→eq, Bool, Bool-cases, List, Option-cases, [], arith, count_where, delete_where,
  exists_where, false, find_where, inl, inr, refl, select_where, some, subst, sym, true, ℕ, ◌++◌,
  ◌==◌, ◌∙◌, ◌∷◌, ◌≡◌, ◌≤◌,
}
use daas_engine.Base.Tables.Laws.{
  count_where-update_keep, find_where-none, find_where-update_other, select_where-update_other,
}
use daas_engine.Control.Records.{Actor, OAuthCode, OAuthToken, Reason, by_system, code_replay}
use daas_engine.OAuth.{
  OAuthDb, ended, grant_at, guard_grant, live_grant_at, live_of, locked, of_grant,
  revoke_guarded_grant, revoke_oauth_grant, with_lock, with_revoked,
}
use daas_engine.OAuth.Codes.{grant_ids, revoke_all, revoke_code_family, token_of_code}
use daas_engine.OAuth.Live.{
  List-cases, guard_grant-cases, live_of-revoke, revoke_guarded_grant-live_of,
}

unfoldable pub has_id : ℕ → List ℕ → Bool
has_id g ids = exists_where (λ (i : ℕ). i == g) ids

has_id-delete :
    (g x : ℕ) (ids : List ℕ)
    → (x == g) ≡ false
    → has_id g (delete_where (λ (i : ℕ). i == x) ids) ≡ has_id g ids
unfolding has_id exists_where delete_where
has_id-delete g x [] e = refl
has_id-delete g x (i ∷ ids) e = elim (Bool-cases (i == x)) [
  | inl s ↦ ground (arith, s, e, has_id-delete g x ids e, ==→eq i x s)
  | inr s ↦ ground (arith, s, has_id-delete g x ids e)
]

-- Every grant of a token of the code is among the ids.
pub has_id-grant_ids :
    (client code g : ℕ) (ts us : List OAuthToken) (t : OAuthToken)
    → token_of_code client code t ≡ true
    → t.grant_id ≡ some g
    → has_id g (grant_ids client code (ts ++ (t ∷ us))) ≡ true
unfolding grant_ids has_id exists_where
has_id-grant_ids client code g [] us t a b = rw (a, grant_ids, b) (rw (==_refl g) refl)
has_id-grant_ids client code g (x ∷ ts) us t a b =
    let ih = has_id-grant_ids client code g ts us t a b in
    elim (Bool-cases (token_of_code client code x)) [
      | inr e ↦ rw (e, grant_ids) ih
      | inl e ↦ elim (Option-cases x.grant_id) [
        | inl f ↦ rw (e, f, grant_ids) ih
        | inr (i, f) ↦
            rw (e, f, grant_ids)
              (elim (Bool-cases (i == g)) [
                | inl s ↦ rw s refl
                | inr s ↦ rw s (has_id-delete g i _ s ∙ ih)
              ])
      ]
    ]

-- What `revoke_oauth_grant` does to the other grants, and to the live tokens.
revoke_guarded_grant-keeps :
    (now id i : ℕ) (reason : Reason) (actor : Actor) (db : OAuthDb)
    → (count_where (grant_at i) (revoke_guarded_grant now id reason actor db).1.grants
        ≡ count_where (grant_at i) db.grants)
      × (count_where (live_of i) (revoke_guarded_grant now id reason actor db).1.tokens
          ≤ count_where (live_of i) db.tokens)
unfolding revoke_guarded_grant ended with_revoked
revoke_guarded_grant-keeps now id i reason actor db =
    elim (Option-cases (find_where (grant_at id) db.grants)) [
      | inl e ↦ rw (e, revoke_guarded_grant) (refl, omega arith)
      | inr (g, e) ↦
          rw (e, revoke_guarded_grant)
            (
              count_where-update_keep (grant_at i) (live_grant_at id) (ended now reason) db.grants
                  (λ x h. refl),
              live_of-revoke now (live_of id) (with_revoked now) db.tokens i (λ t. refl),
            )
    ]

pub revoke_oauth_grant-keeps :
    (now id i : ℕ) (reason : Reason) (actor : Actor) (db : OAuthDb)
    → (count_where (grant_at i) (revoke_oauth_grant now id reason actor db).1.grants
        ≡ count_where (grant_at i) db.grants)
      × (count_where (live_of i) (revoke_oauth_grant now id reason actor db).1.tokens
          ≤ count_where (live_of i) db.tokens)
unfolding revoke_oauth_grant locked
revoke_oauth_grant-keeps now id i reason actor db = elim (guard_grant-cases id db) [
  | inl e ↦ rw (e, revoke_oauth_grant) (refl, omega arith)
  | inr e ↦
      let (a, b) = revoke_guarded_grant-keeps now id i reason actor (with_lock id db) in
      rw (e, revoke_oauth_grant)
        (a ∙ count_where-update_keep (grant_at i) (grant_at id) locked db.grants (λ x h. refl), b)
]

-- The revocation of a grant leaves the row of another grant, and each token of it, as they are.
revoke_guarded_grant-others :
    (now id i : ℕ) (reason : Reason) (actor : Actor) (db : OAuthDb)
    → (id == i) ≡ false
    → (find_where (grant_at i) (revoke_guarded_grant now id reason actor db).1.grants
        ≡ find_where (grant_at i) db.grants)
      × (select_where (of_grant i) (revoke_guarded_grant now id reason actor db).1.tokens
          ≡ select_where (of_grant i) db.tokens)
unfolding revoke_guarded_grant ended with_revoked
revoke_guarded_grant-others now id i reason actor db apart =
    elim (Option-cases (find_where (grant_at id) db.grants)) [
      | inl e ↦ rw (e, revoke_guarded_grant) (refl, refl)
      | inr (g, e) ↦
          rw (e, revoke_guarded_grant)
            (
              find_where-update_other (grant_at i) (live_grant_at id) (ended now reason) db.grants
                  (λ x h. ground (arith, apart, h)) (λ x h. ground (arith, apart, h)),
              select_where-update_other (of_grant i) (live_of id) (with_revoked now) db.tokens
                  (λ t h. ground (arith, apart, h)) (λ t h. ground (arith, apart, h)),
            )
    ]

pub revoke_oauth_grant-others :
    (now id i : ℕ) (reason : Reason) (actor : Actor) (db : OAuthDb)
    → (id == i) ≡ false
    → (find_where (grant_at i) (revoke_oauth_grant now id reason actor db).1.grants
        ≡ find_where (grant_at i) db.grants)
      × (select_where (of_grant i) (revoke_oauth_grant now id reason actor db).1.tokens
          ≡ select_where (of_grant i) db.tokens)
unfolding revoke_oauth_grant locked
revoke_oauth_grant-others now id i reason actor db apart = elim (guard_grant-cases id db) [
  | inl e ↦ rw (e, revoke_oauth_grant) (refl, refl)
  | inr e ↦
      let (a, b) = revoke_guarded_grant-others now id i reason actor (with_lock id db) apart in
      rw (e, revoke_oauth_grant)
        (
          a
              ∙ find_where-update_other (grant_at i) (grant_at id) locked db.grants
                  (λ x h. ground (arith, apart, h)) (λ x h. ground (arith, apart, h)),
          b,
        )
]

-- A grant that is in the table has no live token after `revoke_oauth_grant`.
pub revoke_oauth_grant-live_of :
    (now id : ℕ) (reason : Reason) (actor : Actor) (db : OAuthDb)
    → count_where (grant_at id) db.grants ≡ 1
    → count_where (live_of id) (revoke_oauth_grant now id reason actor db).1.tokens ≡ 0
unfolding revoke_oauth_grant guard_grant locked
revoke_oauth_grant-live_of now id reason actor db one =
    elim (Option-cases (find_where (grant_at id) (with_lock id db).grants)) [
      | inl e ↦ absurd (
          ground (
            arith,
            one,
            find_where-none (grant_at id) (with_lock id db).grants e,
            count_where-update_keep (grant_at id) (grant_at id) locked db.grants (λ x h. refl),
          ))
      | inr (g, e) ↦
          rw (one, revoke_oauth_grant, guard_grant)
            (revoke_guarded_grant-live_of now id reason actor (with_lock id db) g e)
    ]

revoke_all-le :
    (now g : ℕ) (ids : List ℕ) (db : OAuthDb)
    → count_where (live_of g) (revoke_all now ids db).tokens ≤ count_where (live_of g) db.tokens
unfolding revoke_all
revoke_all-le now g [] db = omega arith
revoke_all-le now g (i ∷ ids) db = omega (
  arith,
  revoke_all-le now g ids (revoke_oauth_grant now i code_replay by_system db).1,
  (revoke_oauth_grant-keeps now i g code_replay by_system db).1,
)

revoke_all-live_of :
    (now g : ℕ) (ids : List ℕ) (db : OAuthDb)
    → has_id g ids ≡ true
    → count_where (grant_at g) db.grants ≡ 1
    → count_where (live_of g) (revoke_all now ids db).tokens ≡ 0
unfolding revoke_all has_id exists_where
revoke_all-live_of now g [] db h one = absurd (cc)
revoke_all-live_of now g (i ∷ ids) db h one =
    let done = (revoke_oauth_grant now i code_replay by_system db).1 in
    elim (Bool-cases (i == g)) [
      | inl s ↦ omega (
        arith,
        revoke_all-le now g ids done,
        subst
            (λ k.
              count_where (live_of g) (revoke_oauth_grant now k code_replay by_system db).1.tokens
              ≡ 0)
            (sym (==→eq i g s)) (revoke_oauth_grant-live_of now g code_replay by_system db one),
      )
      | inr s ↦
          revoke_all-live_of now g ids done (ground (arith, h, s))
            ((revoke_oauth_grant-keeps now i g code_replay by_system db).0 ∙ one)
    ]

pub family-live_of :
    (now g : ℕ) (c : OAuthCode) (db : OAuthDb)
    → has_id g (grant_ids c.client_id c.id db.tokens) ≡ true
    → count_where (grant_at g) db.grants ≡ 1
    → count_where (live_of g) (revoke_code_family now c db).tokens ≡ 0
unfolding revoke_code_family has_id exists_where
family-live_of now g c db h one = elim (List-cases (grant_ids c.client_id c.id db.tokens)) [
  | inl e ↦ absurd (ground (arith, h, e))
  | inr (i, is, e) ↦
      rw (e, revoke_code_family)
        (revoke_all-live_of now g (i ∷ is) db (subst (λ z. has_id g z ≡ true) e h) one)
]
