-- ===== src/RateLimit/Laws.antt =====
-- How many buckets a hit of app/core/ratelimit.py leaves.
use daas_engine.Base.{
  Bool, Bool-cases, List, [], arith, delete_where, exists_where, inl, inr, leb, length, max, refl,
  suc, true, zero, ℕ, ◌/◌, ◌<◌, ◌∷◌, ◌≡◌, ◌≤◌,
}
use daas_engine.Base.Tables.Laws.{length-append, length-delete_le, length-update_where}
use daas_engine.RateLimit.{
  Bucket, at_bucket, drop_idle, drop_oldest, filled, fresh, hit, in_first, insert_bucket, is_idle,
  prune, sort_buckets,
}

in_first-head :
    (n : ℕ) (b : Bucket) (bs : List Bucket) (x : Bucket)
    → 0 < n
    → at_bucket b.rule b.key x ≡ true
    → in_first n (b ∷ bs) x ≡ true
unfolding in_first
in_first-head zero b bs x pos e = absurd (omega arith)
in_first-head (suc n) b bs x pos e = ground (arith, e)

-- The oldest bucket is one of the buckets.
sort_buckets-head :
    (b : Bucket) (bs : List Bucket)
    → (h : Bucket) × (rest : List Bucket) × (sort_buckets (b ∷ bs) ≡ h ∷ rest)
      × (exists_where (at_bucket h.rule h.key) (b ∷ bs) ≡ true)
unfolding sort_buckets insert_bucket exists_where
sort_buckets-head b [] = (b, [], refl, ground arith)
sort_buckets-head b (c ∷ cs) =
    let (h, rest, e, m) = sort_buckets-head c cs in
    elim (Bool-cases (leb b.stamp h.stamp)) [
      | inl l ↦ (b, h ∷ rest, rw (e, l) refl, ground arith)
      | inr l ↦ (h, insert_bucket b rest, rw (e, l) refl, ground (arith, m))
    ]

length-delete_lt :
    (p q : Bucket → Bool) (bs : List Bucket)
    → exists_where p bs ≡ true
    → ((x : Bucket) → p x ≡ true → q x ≡ true)
    → length (delete_where q bs) < length bs
unfolding exists_where delete_where
length-delete_lt p q [] e h = absurd (cc)
length-delete_lt p q (b ∷ bs) e h =
    ground (arith, h b, length-delete_lt p q bs, length-delete_le q bs)

drop_oldest-length :
    (max_buckets : ℕ) (bs : List Bucket)
    → 0 < length bs
    → length (drop_oldest max_buckets bs) < length bs
unfolding drop_oldest
drop_oldest-length max_buckets [] pos = absurd (omega arith)
drop_oldest-length max_buckets (b ∷ bs) pos =
    let (h, rest, e, m) = sort_buckets-head b bs in
    rw e (
      length-delete_lt (at_bucket h.rule h.key) (in_first (max 1 (max_buckets / 10)) (h ∷ rest))
        (b ∷ bs) m (λ x. in_first-head (max 1 (max_buckets / 10)) h rest x (omega arith)))

-- `_prune` makes room for one bucket.
length-prune :
    (max_buckets now : ℕ) (bs : List Bucket)
    → 0 < max_buckets
    → length bs ≤ max_buckets
    → length (prune max_buckets now bs) < max_buckets
unfolding prune drop_idle
length-prune max_buckets now bs pos le = ground (
  arith,
  length-delete_le (is_idle now) bs,
  drop_oldest-length max_buckets (delete_where (is_idle now) bs),
)

-- A hit on a table of at most `max_buckets` buckets, at least one, leaves at most that many.
pub length-hit :
    (max_buckets now rule key per_minute : ℕ) (bs : List Bucket)
    → 0 < max_buckets
    → length bs ≤ max_buckets
    → length (hit max_buckets now rule key per_minute bs).1 ≤ max_buckets
unfolding hit
length-hit max_buckets now rule key per_minute bs pos le = ground (
  arith,
  length-prune max_buckets now bs pos le,
  length-append (prune max_buckets now bs) (fresh per_minute now rule key ∷ []),
  length-update_where (at_bucket rule key) (filled per_minute now) bs,
)
