-- ===== src/Planning.antt =====
-- The choice of a path, a pair of gates, for a session:
-- packages/control-plane/src/planning/choose-path.ts, and `readSessionClientProtocol` of
-- client-tunnel.ts. The lists of a policy keep what occurs twice, which no query tells apart.
pub mod Path
mod Tests
use text.Mathlib.Text.{◌==◌ as str_eq}
use z_wireguard_vpn.Common.{
  ℕ, Bool, true, false, not, ◌&&◌, ◌||◌, Option, none, some, String, List, [], ◌∷◌, ◌++◌, map,
  filter, if◌then◌else◌,
}
use z_wireguard_vpn.Common.Json.{Json, Items, get, str, arr, obj, nil, cons, trim, read_string}
use z_wireguard_vpn.Common.Text.{codes, lower, same_codes}
use z_wireguard_vpn.Gate.Store.{Gate, SelectGateInput, select_schedulable_gate}

pub data ClientProtocol : Type 0 where
  wireguard amneziawg : ClientProtocol

abbrev pub amnezia_wg_capability : String
amnezia_wg_capability = "client-tunnel:amneziawg-3.1"

-- `none` is a thrown error.
unfoldable pub read_session_client_protocol : Option Json → Option ClientProtocol
read_session_client_protocol none = some wireguard
read_session_client_protocol (some v) = elim v [
  | str s ↦
      if str_eq s "wireguard"
      then some wireguard
      else if str_eq s "amneziawg"
      then some amneziawg
      else none
  | _ ↦ none
]

pub record PathChoice : Type 0 where
  pub ingress : Gate
  pub egress : Gate

-- Texts that are not empty, trimmed, as their codes in lower case.
abbrev item_text : Json → List (List ℕ)
item_text (str s) = elim (codes (trim s)) [ [] ↦ [] | c ∷ cs ↦ lower (trim s) ∷ [] ]
item_text _ = []

read_items : Items → List (List ℕ)
read_items nil = []
read_items (cons x xs) = item_text x ++ read_items xs

read_string_array : Option Json → List (List ℕ)
unfolding read_items
read_string_array none = []
read_string_array (some v) = elim v [ arr xs ↦ read_items xs | _ ↦ [] ]

read_keys : Json → List String → List (List ℕ)
unfolding read_string_array
read_keys r [] = []
read_keys r (k ∷ ks) = read_string_array (get r k) ++ read_keys r ks

unfoldable pub read_path_policy_values : Json → List String → List (List ℕ)
unfolding read_keys
read_path_policy_values spec keys = elim (get spec "pathPolicy") [
  | none ↦ []
  | some policy ↦ elim policy [ obj fs ↦ read_keys (obj fs) keys | _ ↦ [] ]
]

abbrev is_word : String → List ℕ → Bool
is_word w t = same_codes t (codes w)

unfoldable pub normalize_country : List ℕ → List ℕ
normalize_country t =
    if is_word "de" t || is_word "deu" t || is_word "germany" t then codes "germany" else t

unfoldable pub normalize_region : List ℕ → List (List ℕ)
normalize_region t =
    if is_word "eu" t || is_word "europe" t
    then codes "eu" ∷ []
    else if is_word "na" t || is_word "north america" t || is_word "us" t
    then codes "na" ∷ []
    else if is_word "ap" t || is_word "apac" t || is_word "asia pacific" t
    then codes "ap" ∷ []
    else if is_word "sa" t || is_word "latam" t || is_word "south america" t
    then codes "sa" ∷ []
    else if is_word "emea" t
    then codes "eu" ∷ codes "me" ∷ codes "af" ∷ []
    else []

abbrev concat : List (List (List ℕ)) → List (List ℕ)
concat [] = []
concat (x ∷ xs) = x ++ concat xs

unfoldable pub read_excluded_countries : Json → List (List ℕ)
read_excluded_countries spec = map normalize_country (
    read_path_policy_values spec ("excludeCountries" ∷ "excludedCountries" ∷ "avoidCountries" ∷ []))

unfoldable pub read_excluded_cities : Json → List (List ℕ)
read_excluded_cities spec =
    read_path_policy_values spec ("excludeCities" ∷ "excludedCities" ∷ "avoidCities" ∷ [])

unfoldable pub read_preferred_regions : Json → List (List ℕ)
read_preferred_regions spec = concat (
    map normalize_region (read_path_policy_values spec ("preferredRegions" ∷ "egressRegions" ∷ [])))

-- `readOptionalString`, with `|| null` of the query.
unfoldable pub read_optional_string : Json → String → Option String
read_optional_string spec key =
    let value = read_string spec key in if str_eq value "" then none else some value

abbrev pub ingress_input : Json → ClientProtocol → SelectGateInput
ingress_input spec protocol = record {
  exclude_gate_id = none;
  gate_id = read_optional_string spec "ingressGateId";
  gate_name = read_optional_string spec "ingressGateName";
  excluded_countries = read_excluded_countries spec;
  excluded_cities = read_excluded_cities spec;
  preferred_regions = [];
  required_capabilities = elim protocol [ amneziawg ↦ amnezia_wg_capability ∷ [] | wireguard ↦ [] ];
}

abbrev pub egress_input : Json → ℕ → SelectGateInput
egress_input spec ingress_id = record {
  exclude_gate_id = some ingress_id;
  gate_id = read_optional_string spec "egressGateId";
  gate_name = read_optional_string spec "egressGateName";
  excluded_countries = read_excluded_countries spec;
  excluded_cities = read_excluded_cities spec;
  preferred_regions = read_preferred_regions spec;
  required_capabilities = [];
}

-- `none` is a thrown error, and `some none` the answer that there is no path.
unfoldable pub choose_path : (String → Option ℕ) → ℕ → Json → List Gate → Option (Option PathChoice)
choose_path to_uuid now spec gates =
    elim (read_session_client_protocol (get spec "clientProtocol")) [
      | none ↦ none
      | some protocol ↦
          elim (select_schedulable_gate to_uuid now (ingress_input spec protocol) gates) [
            | none ↦ none
            | some found ↦ elim found [
              | none ↦ some none
              | some ingress ↦
                  elim (select_schedulable_gate to_uuid now (egress_input spec ingress.id) gates) [
                    | none ↦ none
                    | some other ↦ elim other [
                      | none ↦ some none
                      | some egress ↦ some (some (record { ingress = ingress; egress = egress }))
                    ]
                  ]
            ]
          ]
    ]
