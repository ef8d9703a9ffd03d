-- ===== src/OAuth/Approvals.antt =====
-- What an approval of app/api/v1/oauth.py grants.
use daas_engine.Base.{
  List, Option, Option-cases, [], ap, arith, find_where, inl, inr, ltb, none, refl, some, subst,
  sym, true, update_where, ℕ, ◌∙◌, ◌∷◌, ◌≡◌, ◌≢◌, ◌⊎◌,
}
use daas_engine.Base.Tables.Laws.{find_where-meets, find_where-update}
use daas_engine.Control.Members.Guarded.{at_key}
use daas_engine.Control.Problem.{Result-cases, ok}
use daas_engine.Control.Records.{Membership, OAuthCode}
use daas_engine.Control.Scopes.{
  Role, Scope, grantable_scopes, only_in, role_scopes, scopes_of, subset,
}
use daas_engine.Control.Scopes.Laws.{subset-of_has, subset-only_in, subset_trans}
use daas_engine.OAuth.{OAuthDb}
use daas_engine.OAuth.Codes.{code_at}
use daas_engine.OAuth.Consent.{
  Decision, OAuthDecisionIn, OAuthDecisionOut, as_approved, check_approval, check_decision,
  decide_request, granted_scopes, is_awaiting, load_request, open_request, to_approve, with_code,
  write_decision,
}
use daas_engine.OAuth.Decisions.{decided, write_decision-codes}

-- What an approval grants: some scope, only ones that were requested, only ones of the role.
abbrev pub IsGranted : List Scope → List Scope → Role → Type 0
IsGranted granted requested role =
    (granted ≢ []) × (subset granted requested ≡ true) × (subset granted (role_scopes role) ≡ true)

granted_scopes-subset :
    (wanted : Option (List Scope)) (grantable : List Scope)
    → subset (granted_scopes wanted grantable) grantable ≡ true
unfolding granted_scopes
granted_scopes-subset none grantable = subset-of_has grantable grantable (λ s e. e)
granted_scopes-subset (some w) grantable = (subset-only_in w grantable).0

granted_scopes-IsGranted :
    (wanted : Option (List Scope)) (requested : List Scope) (role : Role) (s : Scope)
    (ss : List Scope)
    → granted_scopes wanted (grantable_scopes requested (some role)) ≡ s ∷ ss
    → IsGranted (s ∷ ss) requested role
unfolding grantable_scopes scopes_of
granted_scopes-IsGranted wanted requested role s ss e =
    let sub =
      subst (λ g. subset g (only_in (role_scopes role) requested) ≡ true) e
        (granted_scopes-subset wanted (only_in (role_scopes role) requested)) in
    let (a, b) = subset-only_in (role_scopes role) requested in
    (λ h. absurd (cc), subset_trans (s ∷ ss) _ requested sub a, subset_trans (s ∷ ss) _ _ sub b)

granted-cases : (ss : List Scope) → (ss ≡ []) ⊎ ((t : Scope) × (ts : List Scope) × (ss ≡ t ∷ ts))
granted-cases [] = inl refl
granted-cases (t ∷ ts) = inr (t, ts, refl)

check_approval-ok :
    (user_id : ℕ) (body : OAuthDecisionIn) (row : OAuthCode) (db : OAuthDb) (d : Decision)
    → check_approval user_id body row db ≡ ok d
    → ((org : ℕ) × (granted : List Scope) × (m : Membership) × (d ≡ to_approve org granted)
        × (find_where (at_key org user_id) db.memberships ≡ some m)
        × IsGranted granted row.scopes m.role)
unfolding check_approval
check_approval-ok user_id body row db d e = elim (Option-cases body.org_id) [
  | inl a ↦ absurd (ground (arith, a, e))
  | inr (o, a) ↦ elim (Option-cases (find_where (at_key o user_id) db.memberships)) [
    | inl b ↦ absurd (ground (arith, a, b, e))
    | inr (m, b) ↦
        elim (granted-cases
          (granted_scopes body.scopes (grantable_scopes row.scopes (some m.role)))) [
            | inl c ↦ absurd (ground (arith, a, b, c, e))
            | inr (s, ss, c) ↦ (
              o,
              s ∷ ss,
              m,
              ground (arith, a, b, c, e),
              b,
              granted_scopes-IsGranted body.scopes row.scopes m.role s ss c,
            )
          ]
  ]
]

check_decision-approve :
    (now user_id : ℕ) (body : OAuthDecisionIn) (row : OAuthCode) (db : OAuthDb) (d : Decision)
    → body.approve ≡ true
    → check_decision now user_id body row db ≡ ok d
    → (is_awaiting row.status ≡ true)
      × (ltb now row.expires_at ≡ true)
      × (check_approval user_id body row db ≡ ok d)
unfolding check_decision
check_decision-approve now user_id body row db d y e =
    (ground (arith, e, y), ground (arith, e, y), ground (arith, e, y))

the_open :
    (now id : ℕ) (row : OAuthCode)
    → code_at id row ≡ true
    → is_awaiting row.status ≡ true
    → ltb now row.expires_at ≡ true
    → open_request now id row ≡ true
the_open now id row a b c = ground (arith, a, b, c)

decide_request-runs :
    (now id user_id digest : ℕ) (body : OAuthDecisionIn) (db : OAuthDb) (row : OAuthCode)
    (d : Decision)
    → find_where (code_at id) db.codes ≡ some row
    → check_decision now user_id body row db ≡ ok d
    → decide_request now id user_id digest body db ≡ write_decision now user_id digest row d db
unfolding decide_request load_request
decide_request-runs now id user_id digest body db row d a b =
    rw (a, b, decide_request, load_request) refl

write_decision-query :
    (now user_id digest : ℕ) (row : OAuthCode) (org : ℕ) (granted : List Scope) (db : OAuthDb)
    (out : OAuthDecisionOut)
    → (write_decision now user_id digest row (to_approve org granted) db).0 ≡ ok out
    → out.query ≡ with_code digest
unfolding write_decision
write_decision-query now user_id digest row org granted db out e = ground (arith, e)

write_decision-approves :
    (now user_id digest : ℕ) (row : OAuthCode) (org : ℕ) (granted : List Scope) (db : OAuthDb)
    (out : OAuthDecisionOut)
    → (write_decision now user_id digest row (to_approve org granted) db).0 ≡ ok out
    → (write_decision now user_id digest row (to_approve org granted) db).1.codes
      ≡ update_where (open_request now row.id) (as_approved now digest org user_id granted) db.codes
unfolding decided
write_decision-approves now user_id digest row org granted db out e =
    write_decision-codes now user_id digest row (to_approve org granted) db out e

-- What an approval that succeeds read, and what it wrote.
pub decide_request-approves :
    (now id user_id digest : ℕ) (body : OAuthDecisionIn) (db : OAuthDb) (out : OAuthDecisionOut)
    → body.approve ≡ true
    → (decide_request now id user_id digest body db).0 ≡ ok out
    → ((row : OAuthCode) × (org : ℕ) × (granted : List Scope) × (m : Membership) × (find_where
            (code_at id)
            db.codes
          ≡ some row)
        × (open_request now id row ≡ true)
        × (find_where (at_key org user_id) db.memberships ≡ some m)
        × IsGranted granted row.scopes m.role
        × ((decide_request now id user_id digest body db).1.codes
            ≡ update_where
                (open_request now row.id)
                (as_approved now digest org user_id granted)
                db.codes)
        × (out.query ≡ with_code digest))
unfolding decide_request load_request
decide_request-approves now id user_id digest body db out y e =
    elim (Option-cases (find_where (code_at id) db.codes)) [
      | inl a ↦ absurd (ground (arith, a, e))
      | inr (row, a) ↦ elim (Result-cases (check_decision now user_id body row db)) [
        | inr (p, b) ↦ absurd (ground (arith, a, b, e))
        | inl (d, b) ↦
            let (w, f, c) = check_decision-approve now user_id body row db d y b in
            let (org, granted, m, same, g, grants) = check_approval-ok user_id body row db d c in
            let run =
              decide_request-runs now id user_id digest body db row d a b
              ∙ ap (λ z. write_decision now user_id digest row z db) same in
            let answered = sym (ap (λ z. z.0) run) ∙ e in
            (
              row,
              org,
              granted,
              m,
              a,
              the_open now id row (find_where-meets (code_at id) db.codes row a) w f,
              g,
              grants,
              ap (λ z. z.1.codes) run
                  ∙ write_decision-approves now user_id digest row org granted db out answered,
              write_decision-query now user_id digest row org granted db out answered,
            )
      ]
    ]

-- An approval that succeeds answers with the new code; its request, which was waiting and not
-- expired, then holds the code for 60 seconds, for the user and an organization that the user is a
-- member of, with at least one scope, each of them requested and one of the member's role.
pub decide_request-approved :
    (now id user_id digest : ℕ) (body : OAuthDecisionIn) (db : OAuthDb) (out : OAuthDecisionOut)
    → body.approve ≡ true
    → (decide_request now id user_id digest body db).0 ≡ ok out
    → ((row : OAuthCode) × (org : ℕ) × (granted : List Scope) × (m : Membership) × (find_where
            (code_at id)
            db.codes
          ≡ some row)
        × (open_request now id row ≡ true)
        × (find_where (at_key org user_id) db.memberships ≡ some m)
        × IsGranted granted row.scopes m.role
        × (find_where (code_at id) (decide_request now id user_id digest body db).1.codes
            ≡ some (as_approved now digest org user_id granted row))
        × (out.query ≡ with_code digest))
unfolding as_approved
decide_request-approved now id user_id digest body db out y e =
    let (row, org, granted, m, a, o, g, grants, codes, q) =
      decide_request-approves now id user_id digest body db out y e in
    (
      row,
      org,
      granted,
      m,
      a,
      o,
      g,
      grants,
      ap (find_where (code_at id)) codes
          ∙ (find_where-update (code_at id) (open_request now row.id)
                (as_approved now digest org user_id granted) db.codes (λ x h. refl)
              ∙ rw a (ground (arith, o))),
      q,
    )
