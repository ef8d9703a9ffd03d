-- ===== src/Control/SignIn/Links.antt =====
-- A link of app/api/v1/auth.py starts one session, and a refused attempt changes nothing.
use daas_engine.Base.{
  Bool-cases, Option-cases, arith, count_where, find_where, inl, inr, refl, update_where, ℕ, ◌==◌,
  ◌≡◌, ◌≤◌,
}
use daas_engine.Base.Tables.Laws.{count_where-update_dead}
use daas_engine.Control.Problem.{Problem, Result-cases, err, ok}
use daas_engine.Control.SignIn.{
  FreshSession, MagicLinkConfirm, SessionOut, SignInDb, SignInSettings, as_used, check_link,
  invalid_token, link_at, open_link, start_session, use_link, verify_magic_link,
}

-- The tables of an attempt that is refused are as they were.
pub verify_magic_link-refused :
    (settings : SignInSettings) (wait now : ℕ) (fresh : FreshSession) (body : MagicLinkConfirm)
    (db : SignInDb) (p : Problem)
    → (verify_magic_link settings wait now fresh body db).0 ≡ err p
    → (verify_magic_link settings wait now fresh body db).1 ≡ db
unfolding verify_magic_link use_link
verify_magic_link-refused settings wait now fresh body db p e =
    elim (Result-cases (check_link settings wait now body db)) [
      | inr (q, a) ↦ rw (a, verify_magic_link) refl
      | inl (l, a) ↦
          elim (Bool-cases (count_where (open_link now body.digest) db.magic_links == 1)) [
            | inr b ↦ rw (a, verify_magic_link, b) refl
            | inl b ↦ elim (Option-cases (find_where (link_at body.digest) db.magic_links)) [
              | inl c ↦ rw (a, verify_magic_link, b, c) refl
              | inr (m, c) ↦ absurd (ground (arith, a, b, c, e))
            ]
          ]
    ]

-- The links that a sign-in leaves: the one that it used is used, the rest is as it was.
use_link-links :
    (settings : SignInSettings) (wait now : ℕ) (fresh : FreshSession) (digest : ℕ) (db : SignInDb)
    (out : SessionOut)
    → (use_link settings wait now fresh digest db).0 ≡ ok out
    → ((use_link settings wait now fresh digest db).1.magic_links
        ≡ update_where (open_link now digest) (as_used now) db.magic_links)
unfolding use_link start_session
use_link-links settings wait now fresh digest db out e =
    elim (Bool-cases (count_where (open_link now digest) db.magic_links == 1)) [
      | inr b ↦ absurd (ground (arith, b, e))
      | inl b ↦ elim (Option-cases (find_where (link_at digest) db.magic_links)) [
        | inl c ↦ absurd (ground (arith, b, c, e))
        | inr (m, c) ↦ rw (use_link, b, c) refl
      ]
    ]

-- A link starts one session: after a sign-in every other write of a sign-in by the same link, not
-- earlier than it, is refused and changes nothing, in every browser, and also where the link was read
-- before the first was written.
pub use_link-once :
    (settings : SignInSettings) (wait wait2 now later : ℕ) (fresh again : FreshSession) (digest : ℕ)
    (db : SignInDb) (out : SessionOut)
    → now ≤ later
    → (use_link settings wait now fresh digest db).0 ≡ ok out
    → use_link settings wait2 later again digest (use_link settings wait now fresh digest db).1
      ≡ (err (invalid_token wait2), (use_link settings wait now fresh digest db).1)
unfolding as_used
use_link-once settings wait wait2 now later fresh again digest db out le e =
    let none_left : count_where (open_link later digest)
          (use_link settings wait now fresh digest db).1.magic_links
        ≡ 0 =
      rw (use_link-links settings wait now fresh digest db out e) (
        count_where-update_dead (open_link later digest) (open_link now digest) (as_used now)
          db.magic_links (λ l h. ground arith) (λ l h. ground (arith, h, le))) in
    unfold use_link in rw none_left refl
