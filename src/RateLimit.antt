-- ===== src/RateLimit.antt =====
-- `RateLimiter` of app/core/ratelimit.py. Numbers are exact where the source has floats: the clock
-- counts milliseconds and a token is 60000 units, so a bucket gains `per_minute` units in each
-- millisecond and is full again after 60000 of them. The pair (rule, key) is two numbers.
pub mod Laws
pub mod Window
use daas_engine.Base.{
  Bool, List, Option, [], delete_where, false, find_where, if◌then◌else◌, leb, length, ltb, max,
  min, none, some, suc, update_where, zero, ℕ, ◌&&◌, ◌*◌, ◌++◌, ◌+◌, ◌-◌, ◌/◌, ◌==◌, ◌||◌, ◌∷◌,
}

pub record Bucket : Type 0 where
  pub rule : ℕ
  pub key : ℕ
  pub tokens : ℕ
  pub stamp : ℕ

abbrev pub one_token : ℕ
one_token = 60000

-- `FULL_REFILL_SEC`.
abbrev pub full_refill : ℕ
full_refill = 60000

abbrev pub capacity : ℕ → ℕ
capacity per_minute = per_minute * one_token

abbrev pub at_bucket : ℕ → ℕ → Bucket → Bool
at_bucket rule key b = b.rule == rule && b.key == key

unfoldable pub is_idle : ℕ → Bucket → Bool
is_idle now b = leb full_refill (now - b.stamp)

-- `sorted(..., key=stamp)`, which is stable.
unfoldable pub insert_bucket : Bucket → List Bucket → List Bucket
insert_bucket b [] = b ∷ []
insert_bucket b (c ∷ cs) = if leb b.stamp c.stamp then b ∷ (c ∷ cs) else c ∷ insert_bucket b cs

unfoldable pub sort_buckets : List Bucket → List Bucket
unfolding insert_bucket
sort_buckets [] = []
sort_buckets (b ∷ bs) = insert_bucket b (sort_buckets bs)

-- The keys of the slice `[:n]`, as a test.
unfoldable pub in_first : ℕ → List Bucket → Bucket → Bool
in_first zero bs x = false
in_first (suc n) [] x = false
in_first (suc n) (b ∷ bs) x = at_bucket b.rule b.key x || in_first n bs x

-- The first loop of `_prune`.
unfoldable pub drop_idle : ℕ → List Bucket → List Bucket
unfolding is_idle
drop_idle now bs = delete_where (is_idle now) bs

-- The second loop of `_prune`.
unfoldable pub drop_oldest : ℕ → List Bucket → List Bucket
unfolding in_first sort_buckets
drop_oldest max_buckets bs = delete_where (in_first (max 1 (max_buckets / 10)) (sort_buckets bs)) bs

-- `_prune`.
unfoldable pub prune : ℕ → ℕ → List Bucket → List Bucket
unfolding drop_idle drop_oldest
prune max_buckets now bs =
    if ltb (length bs) max_buckets
    then bs
    else if leb max_buckets (length (drop_idle now bs))
    then drop_oldest max_buckets (drop_idle now bs)
    else drop_idle now bs

unfoldable pub refilled : ℕ → ℕ → Bucket → ℕ
refilled per_minute now b = min (capacity per_minute) (b.tokens + (now - b.stamp) * per_minute)

-- What a hit leaves of `tokens`, and what it lacks for a token: the wait is as long as the bucket
-- takes to gain that.
unfoldable pub left_of : ℕ → ℕ
left_of tokens = if leb one_token tokens then tokens - one_token else tokens

unfoldable pub lack_of : ℕ → ℕ
lack_of tokens = if leb one_token tokens then 0 else one_token - tokens

unfoldable pub filled : ℕ → ℕ → Bucket → Bucket
unfolding refilled left_of
filled per_minute now b = record b { tokens = left_of (refilled per_minute now b); stamp = now }

unfoldable pub fresh : ℕ → ℕ → ℕ → ℕ → Bucket
unfolding left_of
fresh per_minute now rule key = record {
  rule = rule;
  key = key;
  tokens = left_of (capacity per_minute);
  stamp = now;
}

-- `hit`: what the bucket lacks, 0 where the call is allowed.
unfoldable pub hit : ℕ → ℕ → ℕ → ℕ → ℕ → List Bucket → ℕ × List Bucket
unfolding prune filled fresh lack_of refilled
hit max_buckets now rule key per_minute bs =
    if per_minute == 0 then (0, bs) else elim (find_where (at_bucket rule key) bs) [
      | none ↦ (
        lack_of (capacity per_minute),
        prune max_buckets now bs ++ (fresh per_minute now rule key ∷ []),
      )
      | some b ↦ (
        lack_of (refilled per_minute now b),
        update_where (at_bucket rule key) (filled per_minute now) bs,
      )
    ]

-- `max(1, math.ceil(wait))` of `too_many`, in seconds.
unfoldable pub retry_after : ℕ → ℕ → ℕ
retry_after per_minute lack = max 1 ((lack + (1000 * per_minute - 1)) / (1000 * per_minute))

-- `Settings.daas_rate_limit_*`, for each minute.
pub record Limits : Type 0 where
  pub ip : ℕ
  pub run : ℕ
  pub upload : ℕ
  pub auth_fail : ℕ

-- The names of the rules, as numbers.
abbrev pub ip_rule : ℕ
ip_rule = 0

abbrev pub run_rule : ℕ
run_rule = 1

abbrev pub upload_rule : ℕ
upload_rule = 2

abbrev pub auth_fail_rule : ℕ
auth_fail_rule = 3

-- `wait = ...hit(...)`, and `too_many` with its `Retry-After` if the wait is not 0.
unfoldable pub limited : ℕ → ℕ → ℕ → ℕ → ℕ → List Bucket → Option ℕ × List Bucket
unfolding hit retry_after
limited max_buckets now rule key per_minute bs = (
  if ltb 0 (hit max_buckets now rule key per_minute bs).0
      then some (retry_after per_minute (hit max_buckets now rule key per_minute bs).0)
      else none,
  (hit max_buckets now rule key per_minute bs).1,
)

unfoldable pub limit_ip : ℕ → ℕ → Limits → ℕ → List Bucket → Option ℕ × List Bucket
unfolding limited
limit_ip max_buckets now limits client bs = limited max_buckets now ip_rule client limits.ip bs

unfoldable pub limit_run : ℕ → ℕ → Limits → ℕ → List Bucket → Option ℕ × List Bucket
unfolding limited
limit_run max_buckets now limits key bs = limited max_buckets now run_rule key limits.run bs

unfoldable pub limit_upload : ℕ → ℕ → Limits → ℕ → List Bucket → Option ℕ × List Bucket
unfolding limited
limit_upload max_buckets now limits key bs =
    limited max_buckets now upload_rule key limits.upload bs

unfoldable pub throttle_auth_failure : ℕ → ℕ → Limits → ℕ → List Bucket → Option ℕ × List Bucket
unfolding limited
throttle_auth_failure max_buckets now limits client bs =
    limited max_buckets now auth_fail_rule client limits.auth_fail bs
