-- ===== src/RateLimit/Tests.antt =====
-- The counters at concrete requests: two of key 1 with limit 1, and one of key 2, in a minute.
use z_wireguard_vpn.Common.{ℕ, ◌≡◌, refl, [], ◌∷◌, arith}
use z_wireguard_vpn.RateLimit.{Bucket, WindowLimiter}
use z_wireguard_vpn.RateLimit.Window.{Request, allowed_count, allowed_count_lem}

abbrev request : ℕ → ℕ → Request
request key now = record { key = key; max = 1; window_ms = 60000; now = now }

abbrev empty : WindowLimiter
empty = record { buckets = []; last_sweep = 0 }

abbrev bucket_1 : Bucket
bucket_1 = record { key = 1; count = 1; reset_at = 60005 }

abbrev one_bucket : WindowLimiter
one_bucket = record { buckets = bucket_1 ∷ []; last_sweep = 0 }

allowed_count_example : allowed_count 10 1 (request 1 5 ∷ request 2 6 ∷ request 1 7 ∷ []) empty ≡ 1
allowed_count_example =
    allowed_count_lem 10 60005 (request 1 5) (request 2 6 ∷ request 1 7 ∷ []) empty (omega arith)
      refl refl ((omega arith, λ e. refl), ((omega arith, λ e. refl), tt))
