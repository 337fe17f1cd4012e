-- ===== src/RateLimit/Window.antt =====
-- A run of requests at the counters, within the window of one bucket.
use z_wireguard_vpn.Common.{
  ℕ, ◌+◌, ◌-◌, ◌≡◌, ◌<◌, refl, sym, true, ◌&&◌, none, some, List, [], ◌∷◌, ◌++◌, ◌==◌,
  if◌then◌else◌, min, count, All, length, arith, Bool-cases, inl, inr,
}
use z_wireguard_vpn.Common.Table.{row, row-update_where}
use z_wireguard_vpn.RateLimit.{
  Bucket, WindowLimiter, ConsumeResult, consume, open_bucket, count_request, is_live, set_count,
}
use z_wireguard_vpn.RateLimit.Buckets.{row-append, consume_kept}

-- A call of `consume`.
pub record Request : Type 0 where
  pub key : ℕ
  pub max : ℕ
  pub window_ms : ℕ
  pub now : ℕ

abbrev pub consume_request : ℕ → Request → WindowLimiter → ConsumeResult × WindowLimiter
consume_request capacity r l = consume capacity r.key r.max r.window_ms r.now l

-- How many requests of a key a run allows.
unfoldable pub allowed_count : ℕ → ℕ → List Request → WindowLimiter → ℕ
allowed_count capacity k [] l = 0
allowed_count capacity k (r ∷ rs) l =
    let (answer, l') = consume_request capacity r l in
    (if r.key == k && answer.allowed then 1 else 0) + allowed_count capacity k rs l'

-- A request of the key has the limit of the key, and any request comes before an end.
abbrev pub IsWithin : ℕ → ℕ → ℕ → Request → Type 0
IsWithin k limit end r = (r.now < end) × (r.key ≡ k → r.max ≡ limit)

consume_live :
    (capacity key max window_ms now : ℕ) (l : WindowLimiter) (b : Bucket)
    → row Bucket.key key l.buckets ≡ some b
    → is_live now b ≡ true
    → consume capacity key max window_ms now l ≡ count_request key max b l
unfolding consume
consume_live capacity key max window_ms now l b found live = ground (arith, found)

counted_row :
    (key max : ℕ) (b : Bucket) (l : WindowLimiter)
    → row Bucket.key key l.buckets ≡ some b
    → row Bucket.key key (count_request key max b l).1.buckets
      ≡ some (set_count (min (max + 1) (b.count + 1)) b)
unfolding count_request
counted_row key max b l found =
    let after =
      row-update_where Bucket.key key key (set_count (min (max + 1) (b.count + 1))) (λ x. refl)
        l.buckets in
    ground arith

-- While a bucket lives, its key is allowed what is left of the limit.
allowed_left :
    (capacity k limit end : ℕ) (rs : List Request) (l : WindowLimiter) (b : Bucket)
    → row Bucket.key k l.buckets ≡ some b
    → b.reset_at ≡ end
    → All (IsWithin k limit end) rs
    → allowed_count capacity k rs l ≡ min (limit - b.count) (count (λ (r : Request). r.key == k) rs)
unfolding allowed_count count_request
allowed_left capacity k limit end [] l b found at_end h = omega arith
allowed_left capacity k limit end (r ∷ rs) l b found at_end h =
    let live : is_live r.now b ≡ true = ground (arith, h.0.0) in
    let n = min (limit + 1) (b.count + 1) in
    elim (Bool-cases (r.key == k)) [
      | inl here ↦
          let same : r.key ≡ k = ground arith in
          let max_is = h.0.1 same in
          let mine : row Bucket.key r.key l.buckets ≡ some b = rw same found in
          let counted = counted_row r.key r.max b l mine in
          let step = consume_live capacity r.key r.max r.window_ms r.now l b mine live in
          let rest =
            allowed_left capacity k limit end rs (count_request r.key r.max b l).1 (set_count n b)
              (rw (← same, ← max_is) counted) at_end h.1 in
          rw (consume_request, step) (ground (arith, rest, max_is))
      | inr other ↦
          let rest =
            allowed_left capacity k limit end rs (consume_request capacity r l).1 b
              (consume_kept capacity r.key r.max r.window_ms r.now k l b (λ e. ground arith) found
                live)
              at_end h.1 in
          ground (arith, rest)
    ]

-- A request whose key has no bucket, where there is room, opens one.
consume_opened :
    (capacity key max window_ms now : ℕ) (l : WindowLimiter)
    → length l.buckets < capacity
    → row Bucket.key key l.buckets ≡ none
    → let b : Bucket = record { key = key; count = 0; reset_at = now + window_ms } in
      consume capacity key max window_ms now l
      ≡ count_request key max b (record l { buckets = l.buckets ++ b ∷ [] })
unfolding consume open_bucket
consume_opened capacity key max window_ms now l room missing = ground (arith, missing)

-- From a request on that opens the bucket of its key, and up to the end of its window, a run allows
-- of the requests of the key as many as there are, and at most the limit; requests of other keys do
-- not change that. A key has one limit, and there is room for the bucket.
pub allowed_count_lem :
    (capacity end : ℕ) (r : Request) (rs : List Request) (l : WindowLimiter)
    → length l.buckets < capacity
    → row Bucket.key r.key l.buckets ≡ none
    → end ≡ r.now + r.window_ms
    → All (IsWithin r.key r.max end) rs
    → allowed_count capacity r.key (r ∷ rs) l
      ≡ min r.max (1 + count (λ (x : Request). x.key == r.key) rs)
unfolding allowed_count count_request
allowed_count_lem capacity end r rs l room missing at_end h =
    let b : Bucket = record { key = r.key; count = 0; reset_at = r.now + r.window_ms } in
    let opened = consume_opened capacity r.key r.max r.window_ms r.now l room missing in
    let l' : WindowLimiter = record l { buckets = l.buckets ++ b ∷ [] } in
    let appended = row-append Bucket.key r.key b l.buckets in
    let counted = counted_row r.key r.max b l' (ground (arith, appended)) in
    let rest =
      allowed_left capacity r.key r.max end rs (count_request r.key r.max b l').1
        (set_count (min (r.max + 1) 1) b) counted (sym at_end) h in
    rw (consume_request, opened) (ground (arith, rest))
