-- ===== src/RateLimit.antt =====
-- The counters of requests: apps/control-plane-api/src/http/window-limiter.ts. The map of the buckets
-- is the list of its entries in their order of insertion; a key, which is only compared, is a number.
-- Times are in milliseconds.
pub mod Buckets
pub mod Window
mod Tests
use z_wireguard_vpn.Common.{
  ℕ, ◌+◌, ◌-◌, Bool, true, false, not, ◌&&◌, Option, none, some, List, [], ◌∷◌, ◌++◌, ◌==◌, leb,
  if◌then◌else◌, min, filter, length,
}
use z_wireguard_vpn.Common.Table.{row, update_where}

pub record Bucket : Type 0 where
  pub key : ℕ
  pub count : ℕ
  pub reset_at : ℕ

pub record WindowLimiter : Type 0 where
  pub buckets : List Bucket
  pub last_sweep : ℕ

pub record ConsumeResult : Type 0 where
  pub allowed : Bool
  pub remaining : ℕ
  pub reset_at : ℕ

abbrev pub is_live : ℕ → Bucket → Bool
is_live now b = not (leb b.reset_at now)

-- The bucket of the key, where it is over, is deleted.
abbrev pub delete_expired : ℕ → ℕ → List Bucket → List Bucket
delete_expired key now buckets = elim (row Bucket.key key buckets) [
  | none ↦ buckets
  | some b ↦ if is_live now b then buckets else filter (λ x. not (x.key == key)) buckets
]

-- A full map is swept of the buckets that are over, once in a second at most.
abbrev pub sweep : ℕ → ℕ → WindowLimiter → WindowLimiter
sweep capacity now l =
    if leb capacity (length l.buckets) && leb (l.last_sweep + 1000) now
    then record { buckets = filter (is_live now) l.buckets; last_sweep = now }
    else l

abbrev pub set_count : ℕ → Bucket → Bucket
set_count n b = record b { count = n }

-- `bucket.count = Math.min(max + 1, bucket.count + 1)` and the answer.
unfoldable pub count_request : ℕ → ℕ → Bucket → WindowLimiter → ConsumeResult × WindowLimiter
count_request key max b l =
    let n = min (max + 1) (b.count + 1) in
    (
      record { allowed = leb n max; remaining = max - n; reset_at = b.reset_at },
      record l { buckets = update_where (λ x. x.key == key) (set_count n) l.buckets },
    )

unfoldable pub open_bucket : ℕ → ℕ → ℕ → ℕ → ℕ → WindowLimiter → ConsumeResult × WindowLimiter
unfolding count_request
open_bucket capacity key max window_ms now l =
    let bucket : Bucket = record { key = key; count = 0; reset_at = now + window_ms } in
    if leb capacity (length l.buckets)
    then (record { allowed = false; remaining = 0; reset_at = now + 1000 }, l)
    else count_request key max bucket (record l { buckets = l.buckets ++ bucket ∷ [] })

unfoldable pub consume : ℕ → ℕ → ℕ → ℕ → ℕ → WindowLimiter → ConsumeResult × WindowLimiter
unfolding open_bucket
consume capacity key max window_ms now l =
    let kept = record l { buckets = delete_expired key now l.buckets } in
    elim (row Bucket.key key kept.buckets) [
      | some b ↦ count_request key max b kept
      | none ↦ open_bucket capacity key max window_ms now (sweep capacity now kept)
    ]
