-- ===== src/Drift/Handles.antt =====
-- Which handles are missing at a gate, and which are orphans.
use z_wireguard_vpn.Common.{
  ℕ, ◌≡◌, ◌⊎◌, refl, ap, Bool, true, false, not, ◌&&◌, List, [], ◌∷◌, filter, arith, Bool-cases,
  inl, inr,
}
use z_wireguard_vpn.Common.Text.{same_codes}
use z_wireguard_vpn.Drift.{
  Handle, hs_assignment, unmanaged, handle_eq, has_handle, unique, is_some_handle,
  compare_managed_handles,
}

same_codes_sound : (s t : List ℕ) → same_codes s t ≡ true → s ≡ t
same_codes_sound [] [] e = refl
same_codes_sound [] (b ∷ t) e = ground arith
same_codes_sound (a ∷ s) [] e = ground arith
same_codes_sound (a ∷ s) (b ∷ t) e =
    let head : a ≡ b = ground arith in
    let tail = same_codes_sound s t (ground arith) in rw (head, tail) refl

handle_eq_sound : (h k : Handle) → handle_eq h k ≡ true → h ≡ k
handle_eq_sound (hs_assignment a) (hs_assignment b) e =
    let same : a ≡ b = ground arith in rw same refl
handle_eq_sound (hs_assignment a) (unmanaged t) e = ground arith
handle_eq_sound (unmanaged s) (hs_assignment b) e = ground arith
handle_eq_sound (unmanaged s) (unmanaged t) e = rw (same_codes_sound s t e) refl

same_codes_refl : (s : List ℕ) → same_codes s s ≡ true
same_codes_refl [] = refl
same_codes_refl (a ∷ s) = ground (arith, same_codes_refl s)

handle_eq_refl : (h : Handle) → handle_eq h h ≡ true
handle_eq_refl (hs_assignment a) = ground arith
handle_eq_refl (unmanaged s) = same_codes_refl s

handle_eq-other : (h k : Handle) → handle_eq h k ≡ false → handle_eq k h ≡ false
handle_eq-other h k e = elim (Bool-cases (handle_eq k h)) [
  | inl same ↦
      let eq = handle_eq_sound k h same in
      let here : handle_eq h k ≡ true = rw eq (handle_eq_refl h) in ground arith
  | inr other ↦ other
]

has_handle-filter :
    (p : Handle → Bool) (hs : List Handle) (h : Handle)
    → has_handle (filter p hs) h ≡ (has_handle hs h && p h)
has_handle-filter p [] h = refl
has_handle-filter p (k ∷ ks) h =
    let ih = has_handle-filter p ks h in
    elim (Bool-cases (handle_eq k h)) [
      | inl here ↦ let same = ap p (handle_eq_sound k h here) in ground (arith, here, same, ih)
      | inr other ↦ ground (arith, other, ih)
    ]

has_handle-unique : (hs : List Handle) (h : Handle) → has_handle (unique hs) h ≡ has_handle hs h
unfolding unique
has_handle-unique [] h = refl
has_handle-unique (k ∷ ks) h =
    let ih = has_handle-unique ks h in
    let kept = has_handle-filter (λ j. not (handle_eq j k)) (unique ks) h in
    elim (Bool-cases (handle_eq k h)) [
      | inl here ↦ ground (arith, here)
      | inr other ↦
          let differ = handle_eq-other k h other in ground (arith, other, ih, kept, differ)
    ]

is_some_handle-none :
    (hs : List Handle) → is_some_handle hs ≡ false → (h : Handle) → has_handle hs h ≡ false
is_some_handle-none [] e h = refl
is_some_handle-none (k ∷ ks) e h = ground arith

is_some_handle-found :
    (hs : List Handle) → is_some_handle hs ≡ true → (h : Handle) × (has_handle hs h ≡ true)
is_some_handle-found [] e = ground arith
is_some_handle-found (k ∷ ks) e = (k, let same = handle_eq_refl k in ground (arith, same))

-- The comparison of the handles that a gate should have with those that it has: those that are missing are
-- exactly those that it should have and has not, the orphans exactly those that it has and should not have,
-- and there is drift exactly if there is one of these.
pub compare_managed_handles_lem :
    (desired actual : List Handle)
    → let d = compare_managed_handles desired actual in
      ((h : Handle)
        → has_handle d.missing_handles h ≡ (has_handle desired h && not (has_handle actual h)))
      × ((h : Handle)
          → has_handle d.orphan_handles h ≡ (has_handle actual h && not (has_handle desired h)))
      × (((d.drifted ≡ false) × ((h : Handle) → has_handle desired h ≡ has_handle actual h))
          ⊎ ((d.drifted ≡ true)
              × (h : Handle) × (has_handle desired h ≡ not (has_handle actual h))))
unfolding compare_managed_handles
compare_managed_handles_lem desired actual =
    let d = compare_managed_handles desired actual in
    let missing : (h : Handle)
        → has_handle d.missing_handles h ≡ (has_handle desired h && not (has_handle actual h)) =
      (λ h.
        rw (has_handle-filter (λ k. not (has_handle actual k)) (unique desired) h)
          (rw (has_handle-unique desired h) refl)) in
    let orphan : (h : Handle)
        → has_handle d.orphan_handles h ≡ (has_handle actual h && not (has_handle desired h)) =
      (λ h.
        rw (has_handle-filter (λ k. not (has_handle desired k)) (unique actual) h)
          (rw (has_handle-unique actual h) refl)) in
    (
      missing,
      orphan,
      elim (Bool-cases (is_some_handle d.missing_handles)) [
        | inl some_missing ↦
            let (h, found) = is_some_handle-found d.missing_handles some_missing in
            let of = missing h in inr (ground (arith, some_missing), h, ground (arith, found, of))
        | inr none_missing ↦ elim (Bool-cases (is_some_handle d.orphan_handles)) [
          | inl some_orphan ↦
              let (h, found) = is_some_handle-found d.orphan_handles some_orphan in
              let of = orphan h in inr (ground (arith, some_orphan), h, ground (arith, found, of))
          | inr none_orphan ↦ inl (
            ground (arith, none_missing, none_orphan),
            λ h.
                let m = missing h in
                let o = orphan h in
                let m' = is_some_handle-none d.missing_handles none_missing h in
                let o' = is_some_handle-none d.orphan_handles none_orphan h in
                ground (arith, m, o, m', o'),
          )
        ]
      ],
    )
