-- ===== src/Control/Ids/Runs.antt =====
-- The identifiers that the calls of `new_ulid` of app/control/ids.py give, one after another.
use daas_engine.Base.{
  Bool-cases, List, Option-cases, [], arith, inl, inr, leb, refl, some, true, ℕ, ◌+◌, ◌<◌, ◌∙◌, ◌∷◌,
  ◌≡◌,
}
use daas_engine.Control.Ids.{Clock, UlidCall, new_ulid, rand_limit, run_calls, ticked}
use daas_engine.Control.Ids.Order.{IsBefore, pow32, text_lt, text_lt-ulid}

ticked-IsBefore :
    (c : UlidCall) (clock : Clock) (last : ℕ)
    → clock.last_ms ≡ some last
    → IsBefore (last, clock.last_rand) (ticked c clock)
unfolding ticked
ticked-IsBefore c clock last e = elim (Bool-cases (leb c.now_ms last)) [
  | inr a ↦ rw (e, ticked, a) (inl (ground (arith, a)))
  | inl a ↦ elim (Bool-cases (leb rand_limit (clock.last_rand + 1))) [
    | inl b ↦ rw (e, ticked, a, b) (inl (omega arith))
    | inr b ↦ rw (e, ticked, a, b) (inr (refl, omega arith))
  ]
]

IsBefore-trans : (a b c : ℕ × ℕ) → IsBefore a b → IsBefore b c → IsBefore a c
IsBefore-trans a b c (inl p) (inl q) = inl (omega (arith, p, q))
IsBefore-trans a b c (inl p) (inr (q, r)) = inl (omega (arith, p, q))
IsBefore-trans a b c (inr (p, q)) (inl r) = inl (omega (arith, p, r))
IsBefore-trans a b c (inr (p, q)) (inr (r, s)) = inr (p ∙ r, omega (arith, q, s))

-- However many calls come between.
run_calls-IsBefore :
    (between : List UlidCall) (c : UlidCall) (clock : Clock) (last : ℕ)
    → clock.last_ms ≡ some last
    → IsBefore (last, clock.last_rand) (ticked c (run_calls between clock))
unfolding run_calls new_ulid
run_calls-IsBefore [] c clock last e = ticked-IsBefore c clock last e
run_calls-IsBefore (d ∷ ds) c clock last e =
    IsBefore-trans (last, clock.last_rand) (ticked d clock)
      (ticked c (run_calls ds (new_ulid d clock).1)) (ticked-IsBefore d clock last e)
      (run_calls-IsBefore ds c (new_ulid d clock).1 (ticked d clock).0 refl)

ticked-lt :
    (c : UlidCall) (clock : Clock)
    → c.bits79 < rand_limit
    → c.bits80 < rand_limit
    → (ticked c clock).1 < rand_limit
unfolding ticked
ticked-lt c clock h k = elim (Option-cases clock.last_ms) [
  | inl e ↦ rw (e, ticked) h
  | inr (last, e) ↦ elim (Bool-cases (leb c.now_ms last)) [
    | inr a ↦ rw (e, ticked, a) h
    | inl a ↦ elim (Bool-cases (leb rand_limit (clock.last_rand + 1))) [
      | inl b ↦ rw (e, ticked, a, b) k
      | inr b ↦ rw (e, ticked, a, b) (ground (arith, b))
    ]
  ]
]

-- An identifier sorts after every one that the process gave before it, whatever the clock said in
-- the calls, also where it stood still or went back, and where the random part overflowed. The random
-- numbers of the later call have at most 80 bits, and its time is below 2 ^ 50 milliseconds.
pub new_ulid-ascends :
    (c d : UlidCall) (between : List UlidCall) (clock : Clock)
    → d.bits79 < rand_limit
    → d.bits80 < rand_limit
    → (ticked d (run_calls between (new_ulid c clock).1)).0 < pow32 10
    → text_lt (new_ulid c clock).0 (new_ulid d (run_calls between (new_ulid c clock).1)).0 ≡ true
unfolding new_ulid
new_ulid-ascends c d between clock h k l =
    text_lt-ulid (ticked c clock) (ticked d (run_calls between (new_ulid c clock).1))
      (run_calls-IsBefore between d (new_ulid c clock).1 (ticked c clock).0 refl) l
      (ticked-lt d (run_calls between (new_ulid c clock).1) h k)
