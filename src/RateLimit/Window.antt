-- ===== src/RateLimit/Window.antt =====
-- How many calls of one key app/core/ratelimit.py lets through in a stretch of time, as long as
-- no bucket is dropped.
use native.Mathlib.Nat.{add-mul, mul-le-mul_right, sub_self, zero-mul}
use daas_engine.Base.{
  ==→eq, Bool, Bool-cases, List, Option-cases, [], ap, arith, false, find_where, if◌then◌else◌, inl,
  inr, length, none, refl, some, suc, sym, true, update_where, zero, ℕ, ◌&&◌, ◌*◌, ◌++◌, ◌+◌, ◌-◌,
  ◌<◌, ◌==◌, ◌∷◌, ◌≡◌, ◌≤◌, ◌⊎◌,
}
use daas_engine.Base.Tables.Laws.{
  find_where-append, find_where-append_other, find_where-meets, find_where-update,
  find_where-update_other, length-append, length-update_where,
}
use daas_engine.RateLimit.{
  Bucket, at_bucket, capacity, filled, fresh, hit, lack_of, left_of, one_token, prune, refilled,
}

-- A call: when, and for which rule and key.
pub record Call : Type 0 where
  pub at : ℕ
  pub rule : ℕ
  pub key : ℕ

-- The limiter after a call; `limits` gives the limit of each rule.
unfoldable pub after : ℕ → (ℕ → ℕ) → Call → List Bucket → List Bucket
unfolding hit
after max_buckets limits c bs = (hit max_buckets c.at c.rule c.key (limits c.rule) bs).1

unfoldable pub is_allowed : ℕ → (ℕ → ℕ) → Call → List Bucket → Bool
unfolding hit
is_allowed max_buckets limits c bs = (hit max_buckets c.at c.rule c.key (limits c.rule) bs).0 == 0

-- The calls of (rule, key) that are allowed.
unfoldable pub allowed : ℕ → (ℕ → ℕ) → ℕ → ℕ → List Call → List Bucket → ℕ
unfolding after is_allowed
allowed max_buckets limits rule key [] bs = 0
allowed max_buckets limits rule key (c ∷ cs) bs =
    (if (c.rule == rule && c.key == key) && is_allowed max_buckets limits c bs then 1 else 0)
    + allowed max_buckets limits rule key cs (after max_buckets limits c bs)

-- The clock never goes back.
unfoldable pub IsOrdered : ℕ → List Call → Type 0
IsOrdered now [] = Unit {0}
IsOrdered now (c ∷ cs) = (now ≤ c.at) × IsOrdered c.at cs

-- When the last call was.
unfoldable pub last_at : ℕ → List Call → ℕ
last_at now [] = now
last_at now (c ∷ cs) = last_at c.at cs

refilled-grows :
    (per_minute t u : ℕ) (b : Bucket)
    → t ≤ u
    → refilled per_minute u b ≤ refilled per_minute t b + (u - t) * per_minute
unfolding refilled
refilled-grows per_minute t u b le = omega (
  arith,
  mul-le-mul_right {m = u - b.stamp} {n = (t - b.stamp) + (u - t)} per_minute (omega arith),
  add-mul (t - b.stamp) (u - t) per_minute,
)

-- What a hit of a key may spend: a key without a bucket has a full one.
unfoldable available : ℕ → ℕ → ℕ → ℕ → List Bucket → ℕ
unfolding refilled
available per_minute now rule key bs = elim (find_where (at_bucket rule key) bs) [
  | none ↦ capacity per_minute
  | some b ↦ refilled per_minute now b
]

available-grows :
    (per_minute t u rule key : ℕ) (bs : List Bucket)
    → t ≤ u
    → available per_minute u rule key bs ≤ available per_minute t rule key bs + (u - t) * per_minute
unfolding available
available-grows per_minute t u rule key bs le =
    elim (Option-cases (find_where (at_bucket rule key) bs)) [
      | inl e ↦ rw (e, available) (omega arith)
      | inr (b, e) ↦ rw (e, available) (refilled-grows per_minute t u b le)
    ]

-- The bucket just after a call.
refilled-now :
    (per_minute now rule key tokens : ℕ)
    → refilled per_minute now (record { rule = rule; key = key; tokens = tokens; stamp = now })
      ≤ tokens
unfolding refilled
refilled-now per_minute now rule key tokens =
    omega (arith, zero-mul per_minute, ap (λ (x : ℕ). x * per_minute) (sub_self now))

left_of-lack_of :
    (tokens : ℕ) → left_of tokens + one_token * (if lack_of tokens == 0 then 1 else 0) ≤ tokens
unfolding left_of lack_of
left_of-lack_of tokens = ground arith

available-capacity :
    (per_minute now rule key : ℕ) (bs : List Bucket)
    → available per_minute now rule key bs ≤ capacity per_minute
unfolding available refilled
available-capacity per_minute now rule key bs = ground arith

pub hit-none :
    (max_buckets : ℕ) (limits : ℕ → ℕ) (c : Call) (bs : List Bucket)
    → 0 < limits c.rule
    → length bs < max_buckets
    → find_where (at_bucket c.rule c.key) bs ≡ none
    → hit max_buckets c.at c.rule c.key (limits c.rule) bs
      ≡ (lack_of (capacity (limits c.rule)), bs ++ (fresh (limits c.rule) c.at c.rule c.key ∷ []))
unfolding hit prune
hit-none max_buckets limits c bs pos lt e = ground arith

pub hit-some :
    (max_buckets : ℕ) (limits : ℕ → ℕ) (c : Call) (bs : List Bucket) (b : Bucket)
    → 0 < limits c.rule
    → find_where (at_bucket c.rule c.key) bs ≡ some b
    → hit max_buckets c.at c.rule c.key (limits c.rule) bs ≡ (
      lack_of (refilled (limits c.rule) c.at b),
      update_where (at_bucket c.rule c.key) (filled (limits c.rule) c.at) bs,
    )
unfolding hit
hit-some max_buckets limits c bs b pos e = ground arith

pub at_bucket_self : (rule key : ℕ) → (rule == rule && key == key) ≡ true
at_bucket_self rule key = ground arith

-- A call spends a token of its own key.
available-after_self :
    (max_buckets : ℕ) (limits : ℕ → ℕ) (c : Call) (bs : List Bucket)
    → 0 < limits c.rule
    → length bs < max_buckets
    → available (limits c.rule) c.at c.rule c.key (after max_buckets limits c bs)
        + one_token * (if is_allowed max_buckets limits c bs then 1 else 0)
      ≤ available (limits c.rule) c.at c.rule c.key bs
unfolding after is_allowed available find_where
available-after_self max_buckets limits c bs pos lt =
    elim (Option-cases (find_where (at_bucket c.rule c.key) bs)) [
      | inl e ↦
          rw
            (
              hit-none max_buckets limits c bs pos lt e,
              available,
              e,
              find_where-append (at_bucket c.rule c.key) bs
                  (fresh (limits c.rule) c.at c.rule c.key) e (at_bucket_self c.rule c.key),
            )
            (omega (
              arith,
              refilled-now (limits c.rule) c.at c.rule c.key (left_of (capacity (limits c.rule))),
              left_of-lack_of (capacity (limits c.rule)),
            ))
      | inr (b, e) ↦
          rw
            (
              hit-some max_buckets limits c bs b pos e,
              available,
              find_where-update (at_bucket c.rule c.key) (at_bucket c.rule c.key)
                  (filled (limits c.rule) c.at) bs (λ x h. refl),
              e,
              find_where-meets (at_bucket c.rule c.key) bs b e,
            )
            (omega (
              arith,
              refilled-now (limits c.rule) c.at b.rule b.key
                  (left_of (refilled (limits c.rule) c.at b)),
              left_of-lack_of (refilled (limits c.rule) c.at b),
            ))
    ]

-- A call spends nothing of the other keys.
available-after_other :
    (max_buckets : ℕ) (limits : ℕ → ℕ) (c : Call) (rule key : ℕ) (bs : List Bucket)
    → (c.rule == rule && c.key == key) ≡ false
    → 0 < limits c.rule
    → length bs < max_buckets
    → available (limits rule) c.at rule key (after max_buckets limits c bs)
      ≡ available (limits rule) c.at rule key bs
unfolding after available find_where
available-after_other max_buckets limits c rule key bs ne pos lt =
    elim (Option-cases (find_where (at_bucket c.rule c.key) bs)) [
      | inl e ↦
          rw
            (
              hit-none max_buckets limits c bs pos lt e,
              available,
              find_where-append_other (at_bucket rule key) bs
                  (fresh (limits c.rule) c.at c.rule c.key) ne,
            )
            refl
      | inr (b, e) ↦
          rw
            (
              hit-some max_buckets limits c bs b pos e,
              available,
              find_where-update_other (at_bucket rule key) (at_bucket c.rule c.key)
                  (filled (limits c.rule) c.at) bs (λ x h. ground (arith, ne, h))
                  (λ x h. ground (arith, ne, h)),
            )
            refl
    ]

Zero-cases : (n : ℕ) → (n ≡ 0) ⊎ (0 < n)
Zero-cases zero = inl refl
Zero-cases (suc n) = inr (omega arith)

-- A rule without a limit keeps no bucket.
hit-off :
    (max_buckets : ℕ) (limits : ℕ → ℕ) (c : Call) (bs : List Bucket)
    → limits c.rule ≡ 0
    → after max_buckets limits c bs ≡ bs
unfolding after hit
hit-off max_buckets limits c bs z = ground (arith, z)

length-after :
    (max_buckets : ℕ) (limits : ℕ → ℕ) (c : Call) (bs : List Bucket)
    → length bs < max_buckets
    → length (after max_buckets limits c bs) ≤ length bs + 1
unfolding after hit prune
length-after max_buckets limits c bs lt = ground (
  arith,
  length-append bs (fresh (limits c.rule) c.at c.rule c.key ∷ []),
  length-update_where (at_bucket c.rule c.key) (filled (limits c.rule) c.at) bs,
)

last_at-le : (now : ℕ) (cs : List Call) → IsOrdered now cs → now ≤ last_at now cs
unfolding IsOrdered last_at
last_at-le now [] o = omega arith
last_at-le now (c ∷ cs) o = omega (arith, o.0, last_at-le c.at cs o.1)

-- A call takes from the key at most the token that it gets.
available-after :
    (max_buckets : ℕ) (limits : ℕ → ℕ) (c : Call) (rule key : ℕ) (bs : List Bucket)
    → 0 < limits rule
    → length bs < max_buckets
    → available (limits rule) c.at rule key (after max_buckets limits c bs)
        + one_token
          * (if (c.rule == rule && c.key == key) && is_allowed max_buckets limits c bs
              then 1
              else 0)
      ≤ available (limits rule) c.at rule key bs
available-after max_buckets limits c rule key bs pos lt =
    elim (Bool-cases (c.rule == rule && c.key == key)) [
      | inr ne ↦ rw ne (elim (Zero-cases (limits c.rule)) [
        | inl z ↦ rw (hit-off max_buckets limits c bs z) (omega arith)
        | inr q ↦ omega (arith, available-after_other max_buckets limits c rule key bs ne q lt)
      ])
      | inl same ↦
          rw
            (
              sym (==→eq c.rule rule (ground (arith, same))),
              sym (==→eq c.key key (ground (arith, same))),
              at_bucket_self c.rule c.key,
            )
            (available-after_self max_buckets limits c bs
              (ground (arith, same, pos, ap limits (==→eq c.rule rule (ground (arith, same))))) lt)
    ]

-- In a stretch of time a key spends what it has and what its bucket gains.
allowed-available :
    (max_buckets : ℕ) (limits : ℕ → ℕ) (rule key now : ℕ) (cs : List Call) (bs : List Bucket)
    → 0 < limits rule
    → IsOrdered now cs
    → length bs + length cs ≤ max_buckets
    → one_token * allowed max_buckets limits rule key cs bs
      ≤ available (limits rule) now rule key bs + (last_at now cs - now) * limits rule
unfolding allowed IsOrdered last_at
allowed-available max_buckets limits rule key now [] bs pos o le = omega arith
allowed-available max_buckets limits rule key now (c ∷ cs) bs pos o le = omega (
  arith,
  o.0,
  last_at-le c.at cs o.1,
  allowed-available max_buckets limits rule key c.at cs (after max_buckets limits c bs) pos o.1
      (omega (arith, length-after max_buckets limits c bs (omega arith))),
  available-after max_buckets limits c rule key bs pos (omega arith),
  available-grows (limits rule) now c.at rule key bs o.0,
  mul-le-mul_right {m = (last_at c.at cs - c.at) + (c.at - now)} {n = last_at c.at cs - now}
      (limits rule) (omega (arith, o.0, last_at-le c.at cs o.1)),
  add-mul (last_at c.at cs - c.at) (c.at - now) (limits rule),
)

-- In a sequence of calls in the order of time that fits the table, so that no bucket is dropped as
-- the oldest, a key whose rule has a limit is let through at most `per_minute` times, and once more
-- for each token that the time from the start to the last call brings.
pub allowed-window :
    (max_buckets : ℕ) (limits : ℕ → ℕ) (rule key now : ℕ) (cs : List Call) (bs : List Bucket)
    → 0 < limits rule
    → IsOrdered now cs
    → length bs + length cs ≤ max_buckets
    → one_token * allowed max_buckets limits rule key cs bs
      ≤ one_token * limits rule + (last_at now cs - now) * limits rule
allowed-window max_buckets limits rule key now cs bs pos o le = omega (
  arith,
  allowed-available max_buckets limits rule key now cs bs pos o le,
  available-capacity (limits rule) now rule key bs,
)
