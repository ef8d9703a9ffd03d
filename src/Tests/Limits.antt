-- ===== src/Tests/Limits.antt =====
-- The rate limiter's theorems on concrete calls.
use daas_engine.Base.{List, [], arith, length, ℕ, ◌*◌, ◌+◌, ◌-◌, ◌∷◌, ◌≤◌}
use daas_engine.RateLimit.{Bucket, hit, one_token}
use daas_engine.RateLimit.Laws.{length-hit}
use daas_engine.RateLimit.Window.{Call, IsOrdered, allowed, allowed-window, last_at}

abbrev two_per_minute : ℕ → ℕ
two_per_minute rule = 2

abbrev calls : List Call
calls =
    record { at = 10; rule = 1; key = 7 }
    ∷ (record { at = 20; rule = 1; key = 7 } ∷ (record { at = 30; rule = 1; key = 7 } ∷ []))

calls-IsOrdered : IsOrdered 10 calls
unfolding IsOrdered
calls-IsOrdered = (omega arith, (omega arith, (omega arith, tt)))

allowed-window_example :
    one_token * allowed 100 two_per_minute 1 7 calls []
    ≤ one_token * two_per_minute 1 + (last_at 10 calls - 10) * two_per_minute 1
allowed-window_example =
    allowed-window 100 two_per_minute 1 7 10 calls [] (omega arith) calls-IsOrdered (omega arith)

abbrev used_bucket : List Bucket
used_bucket = record { rule = 1; key = 7; tokens = 0; stamp = 0 } ∷ []

length-hit_example : length (hit 1 5 2 8 2 used_bucket).1 ≤ 1
length-hit_example = length-hit 1 5 2 8 2 used_bucket (omega arith) (omega arith)
