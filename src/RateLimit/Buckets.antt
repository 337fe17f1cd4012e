-- ===== src/RateLimit/Buckets.antt =====
-- One request at the counters: how many buckets there are, and which of them it leaves alone.
use z_wireguard_vpn.Common.{
  ℕ, ◌+◌, ◌≡◌, ◌≢◌, ◌≤◌, refl, Bool, true, not, none, some, List, [], ◌∷◌, ◌++◌, ◌==◌,
  if◌then◌else◌, min, filter, length, arith, Option-cases, inl, inr,
}
use z_wireguard_vpn.Common.Table.{row, row_key, update_where, row-update_where}
use z_wireguard_vpn.RateLimit.{
  Bucket, WindowLimiter, consume, open_bucket, count_request, sweep, delete_expired, is_live,
  set_count,
}

module _ {A : Type 0} where
  length-filter : (p : A → Bool) (xs : List A) → length (filter p xs) ≤ length xs
  length-filter p [] = omega arith
  length-filter p (x ∷ xs) = ground (arith, length-filter p xs)

  length-update_where :
      (p : A → Bool) (f : A → A) (xs : List A) → length (update_where p f xs) ≡ length xs
  length-update_where p f [] = refl
  length-update_where p f (x ∷ xs) = ground (arith, length-update_where p f xs)

  length-append : (x : A) (xs : List A) → length (xs ++ x ∷ []) ≡ length xs + 1
  length-append x [] = refl
  length-append x (y ∷ xs) = ground (arith, length-append x xs)

module _ {A : Type 0} (key : A → ℕ) where
  pub row-filter :
      (k : ℕ) (p : A → Bool) (xs : List A) {x : A}
      → row key k xs ≡ some x
      → p x ≡ true
      → row key k (filter p xs) ≡ some x
  row-filter k p [] e t = cc
  row-filter k p (y ∷ xs) {x} e t = ground (arith, row-filter k p xs {x = x})

  pub row-append :
      (k : ℕ) (y : A) (xs : List A)
      → row key k (xs ++ y ∷ [])
        ≡ elim (row key k xs) [ some x ↦ some x | none ↦ if key y == k then some y else none ]
  row-append k y [] = ground arith
  row-append k y (x ∷ xs) = ground (arith, row-append k y xs)

length-delete_expired :
    (key now : ℕ) (xs : List Bucket) → length (delete_expired key now xs) ≤ length xs
length-delete_expired key now xs =
    ground (arith, length-filter (λ (x : Bucket). not (x.key == key)) xs)

length-sweep :
    (capacity now : ℕ) (l : WindowLimiter)
    → length (sweep capacity now l).buckets ≤ length l.buckets
length-sweep capacity now l = ground (arith, length-filter (is_live now) l.buckets)

length-count_request :
    (key max : ℕ) (b : Bucket) (l : WindowLimiter)
    → length (count_request key max b l).1.buckets ≡ length l.buckets
unfolding count_request
length-count_request key max b l =
    length-update_where (λ x. x.key == key) (set_count (min (max + 1) (b.count + 1))) l.buckets

length-open_bucket :
    (capacity key max window_ms now : ℕ) (l : WindowLimiter)
    → length l.buckets ≤ capacity
    → length (open_bucket capacity key max window_ms now l).1.buckets ≤ capacity
unfolding open_bucket
length-open_bucket capacity key max window_ms now l h =
    let bucket : Bucket = record { key = key; count = 0; reset_at = now + window_ms } in
    ground (
      arith,
      length-append bucket l.buckets,
      length-count_request key max bucket (record l { buckets = l.buckets ++ bucket ∷ [] }),
    )

-- A request leaves no more buckets than the capacity.
pub consume_bounded :
    (capacity key max window_ms now : ℕ) (l : WindowLimiter)
    → length l.buckets ≤ capacity
    → length (consume capacity key max window_ms now l).1.buckets ≤ capacity
unfolding consume
consume_bounded capacity key max window_ms now l h =
    let kept = record l { buckets = delete_expired key now l.buckets } in
    let less = length-delete_expired key now l.buckets in
    let swept = length-sweep capacity now kept in
    let opened =
      length-open_bucket capacity key max window_ms now (sweep capacity now kept)
        (omega (arith, less, swept)) in
    elim (Option-cases (row Bucket.key key kept.buckets)) [
      | inl missing ↦ rw (consume, missing) opened
      | inr (b, there) ↦
          rw (consume, there) (omega (arith, less, length-count_request key max b kept))
    ]

module _ (key k now : ℕ) (b : Bucket) (ne : key ≢ k) (live : is_live now b ≡ true) where
  row-delete_expired :
      (xs : List Bucket)
      → row Bucket.key k xs ≡ some b
      → row Bucket.key k (delete_expired key now xs) ≡ some b
  row-delete_expired xs found =
      let same = row_key Bucket.key k xs found in
      let filtered = row-filter Bucket.key k (λ x. not (x.key == key)) xs found (ground arith) in
      ground arith

  row-sweep :
      (capacity : ℕ) (l : WindowLimiter)
      → row Bucket.key k l.buckets ≡ some b
      → row Bucket.key k (sweep capacity now l).buckets ≡ some b
  row-sweep capacity l found =
      let filtered = row-filter Bucket.key k (is_live now) l.buckets found live in ground arith

  row-count_request :
      (max : ℕ) (c : Bucket) (l : WindowLimiter)
      → row Bucket.key k l.buckets ≡ some b
      → row Bucket.key k (count_request key max c l).1.buckets ≡ some b
  unfolding count_request
  row-count_request max c l found =
      let after =
        row-update_where Bucket.key key k (set_count (min (max + 1) (c.count + 1))) (λ x. refl)
          l.buckets in
      ground arith

  row-open_bucket :
      (capacity max window_ms : ℕ) (l : WindowLimiter)
      → row Bucket.key k l.buckets ≡ some b
      → row Bucket.key k (open_bucket capacity key max window_ms now l).1.buckets ≡ some b
  unfolding open_bucket
  row-open_bucket capacity max window_ms l found =
      let bucket : Bucket = record { key = key; count = 0; reset_at = now + window_ms } in
      let appended = row-append Bucket.key k bucket l.buckets in
      let counted =
        row-count_request max bucket (record l { buckets = l.buckets ++ bucket ∷ [] })
          (ground (arith, appended)) in
      ground (arith, counted)

-- A bucket of another key that is not over keeps its count and its end.
pub consume_kept :
    (capacity key max window_ms now k : ℕ) (l : WindowLimiter) (b : Bucket)
    → key ≢ k
    → row Bucket.key k l.buckets ≡ some b
    → is_live now b ≡ true
    → row Bucket.key k (consume capacity key max window_ms now l).1.buckets ≡ some b
unfolding consume
consume_kept capacity key max window_ms now k l b ne found live =
    let kept = record l { buckets = delete_expired key now l.buckets } in
    let left = row-delete_expired key k now b ne live l.buckets found in
    elim (Option-cases (row Bucket.key key kept.buckets)) [
      | inl missing ↦
          rw (consume, missing)
            (row-open_bucket key k now b ne live capacity max window_ms (sweep capacity now kept)
              (row-sweep key k now b ne live capacity kept left))
      | inr (c, there) ↦ rw (consume, there) (row-count_request key k now b ne live max c kept left)
    ]
