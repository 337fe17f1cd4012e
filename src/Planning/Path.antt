-- ===== src/Planning/Path.antt =====
-- Which path is chosen, and when none is.
use z_wireguard_vpn.Common.{
  ℕ, ◌≡◌, ◌≢◌, ◌⊎◌, Bool, true, false, not, ◌&&◌, String, Bool-cases, Option, none, some, List, All,
  arith, ◌==◌, inl, inr, Option-cases,
}
use z_wireguard_vpn.Common.Json.{Json, get}
use z_wireguard_vpn.Gate.Store.{
  Gate, is_candidate, is_available, is_wanted, is_malformed, SelectGateInput,
  select_schedulable_gate, first_gate,
}
use z_wireguard_vpn.Gate.Selection.{IsBest, first_gate-IsBest, first_gate-none}
use z_wireguard_vpn.Planning.{
  ClientProtocol, PathChoice, choose_path, ingress_input, egress_input,
  read_session_client_protocol,
}

module _ (to_uuid : String → Option ℕ) (now : ℕ) where
  -- What an answer of `selectSchedulableGate` says of the gates: an error is a gate id that is no uuid.
  abbrev pub Answers : SelectGateInput → List Gate → Option (Option Gate) → Type 0
  Answers input gates none = is_malformed to_uuid input.gate_id ≡ true
  Answers input gates (some none) =
      (is_malformed to_uuid input.gate_id ≡ false)
      × All (λ g. is_candidate to_uuid now input g ≡ false) gates
  Answers input gates (some (some g)) =
      (is_malformed to_uuid input.gate_id ≡ false) × IsBest (is_candidate to_uuid now input) gates g

  -- What a result of `choosePath` says of the gates.
  abbrev pub Explains : Json → List Gate → Option (Option PathChoice) → Type 0
  Explains spec gates none =
      (read_session_client_protocol (get spec "clientProtocol") ≡ none)
      ⊎ ((protocol : ClientProtocol) × (read_session_client_protocol (get spec "clientProtocol")
            ≡ some protocol)
          × (Answers (ingress_input spec protocol) gates none
              ⊎ ((i : Gate) × Answers (ingress_input spec protocol) gates (some (some i))
                  × Answers (egress_input spec i.id) gates none)))
  Explains spec gates (some none) =
      (protocol : ClientProtocol) × (read_session_client_protocol (get spec "clientProtocol")
        ≡ some protocol)
      × (Answers (ingress_input spec protocol) gates (some none)
          ⊎ ((i : Gate) × Answers (ingress_input spec protocol) gates (some (some i))
              × Answers (egress_input spec i.id) gates (some none)))
  Explains spec gates (some (some p)) =
      (protocol : ClientProtocol) × (read_session_client_protocol (get spec "clientProtocol")
        ≡ some protocol)
      × Answers (ingress_input spec protocol) gates (some (some p.ingress))
      × Answers (egress_input spec p.ingress.id) gates (some (some p.egress))
      × (p.ingress.id ≢ p.egress.id)

  select_schedulable_gate-Answers :
      (input : SelectGateInput) (gates : List Gate)
      → Answers input gates (select_schedulable_gate to_uuid now input gates)
  unfolding select_schedulable_gate
  select_schedulable_gate-Answers input gates =
      elim (Bool-cases (is_malformed to_uuid input.gate_id)) [
        | inl malformed ↦ rw (select_schedulable_gate, malformed) malformed
        | inr asked ↦
            let fits = is_candidate to_uuid now input in
            elim (Option-cases (first_gate fits gates)) [
              | inl missing ↦
                  rw (select_schedulable_gate, asked, missing)
                    (asked, first_gate-none fits gates missing)
              | inr (g, found) ↦
                  rw (select_schedulable_gate, asked, found)
                    (asked, first_gate-IsBest fits gates g found)
            ]
      ]

  and_left : (a b : Bool) → (a && b) ≡ true → a ≡ true
  and_left a b e = ground arith

  and_right : (a b : Bool) → (a && b) ≡ true → b ≡ true
  and_right a b e = ground arith

  -- A candidate for the egress is not the gate that is excluded.
  candidate-ne :
      (id : ℕ) (spec : Json) (g : Gate)
      → is_candidate to_uuid now (egress_input spec id) g ≡ true
      → id ≢ g.id
  candidate-ne id spec g e =
      let wanted = and_right (is_available now g) (is_wanted to_uuid (egress_input spec id) g) e in
      let other = and_left (not (g.id == id)) _ wanted in λ same. ground (arith, other)

-- A path is a pair of two gates that are ready for it: the ingress is a heaviest gate that fits it, and
-- the egress a heaviest of the others that fit it. There is none if no gate fits the ingress, or if the
-- ingress that was chosen leaves no gate that fits the egress. It is an error exactly if the protocol is
-- unknown, the ingress is asked for by a text that is no uuid, or, once an ingress is chosen, the egress
-- is. The cast of a text to a uuid is any.
pub choose_path_lem :
    (to_uuid : String → Option ℕ) (now : ℕ) (spec : Json) (gates : List Gate)
    → Explains to_uuid now spec gates (choose_path to_uuid now spec gates)
unfolding choose_path
choose_path_lem to_uuid now spec gates =
    elim (Option-cases (read_session_client_protocol (get spec "clientProtocol"))) [
      | inl unsupported ↦ rw (choose_path, unsupported) (inl unsupported)
      | inr (protocol, read) ↦
          let input = ingress_input spec protocol in
          let answer = select_schedulable_gate-Answers to_uuid now input gates in
          elim (Option-cases (select_schedulable_gate to_uuid now input gates)) [
            | inl thrown ↦
                rw (choose_path, read, thrown) (inr (protocol, read, inl (rw thrown at answer)))
            | inr (first, selected) ↦
                let ingress = rw selected at answer in
                elim (Option-cases first) [
                  | inl missing ↦
                      rw (choose_path, read, selected, missing)
                        (protocol, read, inl (rw missing at ingress))
                  | inr (i, found) ↦
                      let best = rw found at ingress in
                      let input' = egress_input spec i.id in
                      let answer' = select_schedulable_gate-Answers to_uuid now input' gates in
                      elim (Option-cases (select_schedulable_gate to_uuid now input' gates)) [
                        | inl thrown ↦
                            rw (choose_path, read, selected, found, thrown)
                              (inr (protocol, read, inr (i, best, rw thrown at answer')))
                        | inr (second, selected') ↦
                            let egress = rw selected' at answer' in
                            elim (Option-cases second) [
                              | inl missing ↦
                                  rw (choose_path, read, selected, found, selected', missing)
                                    (protocol, read, inr (i, best, rw missing at egress))
                              | inr (o, found') ↦
                                  let best' = rw found' at egress in
                                  rw (choose_path, read, selected, found, selected', found')
                                    (
                                      protocol,
                                      read,
                                      best,
                                      best',
                                      candidate-ne to_uuid now i.id spec o best'.1.passes,
                                    )
                            ]
                      ]
                ]
          ]
    ]
