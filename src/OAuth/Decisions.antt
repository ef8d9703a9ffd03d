-- ===== src/OAuth/Decisions.antt =====
-- The decisions of app/api/v1/oauth.py: a request is decided once.
use daas_engine.Base.{arith, count_where, false, refl, update_where, ℕ, ◌≡◌, ◌≤◌}
use daas_engine.Base.Tables.Laws.{count_where-update_dead}
use daas_engine.Control.Problem.{err, ok, problem}
use daas_engine.Control.Records.{OAuthCode}
use daas_engine.OAuth.{OAuthDb}
use daas_engine.OAuth.Consent.{
  Decision, OAuthDecisionOut, as_approved, as_denied, is_awaiting, open_request, to_approve,
  to_deny, write_decision,
}

-- The change that a decision makes to the row of its request.
unfoldable pub decided : ℕ → ℕ → ℕ → Decision → OAuthCode → OAuthCode
unfolding as_denied as_approved
decided now user_id digest to_deny c = as_denied user_id c
decided now user_id digest (to_approve org granted) c = as_approved now digest org user_id granted c

pub write_decision-codes :
    (now user_id digest : ℕ) (row : OAuthCode) (d : Decision) (db : OAuthDb)
    (out : OAuthDecisionOut)
    → (write_decision now user_id digest row d db).0 ≡ ok out
    → ((write_decision now user_id digest row d db).1.codes
        ≡ update_where (open_request now row.id) (decided now user_id digest d) db.codes)
unfolding write_decision decided
write_decision-codes now user_id digest row to_deny db out e = ground (arith, e)
write_decision-codes now user_id digest row (to_approve org granted) db out e = ground (arith, e)

decided-is_awaiting :
    (now user_id digest : ℕ) (d : Decision) (c : OAuthCode)
    → is_awaiting (decided now user_id digest d c).status ≡ false
unfolding decided as_denied as_approved
decided-is_awaiting now user_id digest to_deny c = refl
decided-is_awaiting now user_id digest (to_approve org granted) c = refl

write_decision-closed :
    (later user_id digest : ℕ) (row : OAuthCode) (d : Decision) (db : OAuthDb)
    → count_where (open_request later row.id) db.codes ≡ 0
    → write_decision later user_id digest row d db
      ≡ (err (problem 409 "request_already_decided"), db)
unfolding write_decision
write_decision-closed later user_id digest row to_deny db e = rw (e, write_decision) refl
write_decision-closed later user_id digest row (to_approve org granted) db e =
    rw (e, write_decision) refl

-- After a decision is written, every other decision on the same request is refused with 409 and
-- changes nothing, whoever makes it, whatever it decides, and also where it was checked before the
-- first was written; it is not made earlier than the first.
pub write_decision-once :
    (now later user1 user2 digest1 digest2 : ℕ) (row row2 : OAuthCode) (d e : Decision)
    (db : OAuthDb) (out : OAuthDecisionOut)
    → now ≤ later
    → row2.id ≡ row.id
    → (write_decision now user1 digest1 row d db).0 ≡ ok out
    → write_decision later user2 digest2 row2 e (write_decision now user1 digest1 row d db).1
      ≡ (err (problem 409 "request_already_decided"), (write_decision now user1 digest1 row d db).1)
write_decision-once now later user1 user2 digest1 digest2 row row2 d e db out le same w =
    write_decision-closed later user2 digest2 row2 e _ (
      rw (same, write_decision-codes now user1 digest1 row d db out w)
        (count_where-update_dead (open_request later row.id) (open_request now row.id)
          (decided now user1 digest1 d) db.codes
          (λ c h. ground (arith, decided-is_awaiting now user1 digest1 d c))
          (λ c h. ground (arith, h, le))))
