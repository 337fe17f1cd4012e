-- ===== src/Gate/Store.antt =====
-- The choice of a gate: `selectSchedulableGate` of
-- packages/control-plane/src/resources/gates/repository.ts, over the row of a gate joined with its
-- status, its lease, its conditions and its open deployments.
use Prim.Native.String.{compare}
use text.Mathlib.Text.{◌==◌ as str_eq, is_le}
use z_wireguard_vpn.Common.{
  ℕ, ◌+◌, Bool, true, false, not, ◌&&◌, ◌||◌, Option, none, some, String, List, [], ◌∷◌, ◌==◌, ltb,
  any, is_some, is_some_eq, if◌then◌else◌,
}
use z_wireguard_vpn.Common.Int.{ℤ, pos_part, neg_part}
use z_wireguard_vpn.Common.Json.{Json, get, str}
use z_wireguard_vpn.Common.Text.{lower, same_codes, before_first, after_first}
use z_wireguard_vpn.Gate.{GateDesiredState, is_enabled, has_capability}

-- The conditions hold whether their status is `True`, and `is_deploying` whether there is a deployment
-- in an open phase.
pub record Gate : Type 0 where
  pub id : ℕ
  pub name : String
  pub public_ipv4 : String
  pub country : String
  pub city : String
  pub desired_state : GateDesiredState
  pub scheduling_weight : ℤ
  pub spec : Json
  pub is_agent_connected : Bool
  pub is_ready : Bool
  pub is_schedulable : Bool
  pub is_deploying : Bool
  pub observed_capabilities : List String
  pub doublezero_status : Json
  pub lease_expires_at : Option ℕ

pub record SelectGateInput : Type 0 where
  pub exclude_gate_id : Option ℕ
  pub gate_id : Option String
  pub gate_name : Option String
  pub excluded_countries : List (List ℕ)
  pub excluded_cities : List (List ℕ)
  pub preferred_regions : List (List ℕ)
  pub required_capabilities : List String

-- `->>`, of values that are texts.
abbrev pub text_at : String → Json → Option String
text_at key r = elim (get r key) [ some v ↦ elim v [ str s ↦ some s | _ ↦ none ] | none ↦ none ]

abbrev pub is_text : Option String → String → Bool
is_text none t = false
is_text (some s) t = str_eq s t

-- `COALESCE(NULLIF(gates.spec->>'doubleZeroEnv', ''), 'testnet')`
abbrev pub expected_network : Json → String
expected_network spec = elim (text_at "doubleZeroEnv" spec) [
  | none ↦ "testnet"
  | some s ↦ if str_eq s "" then "testnet" else s
]

-- `doubleZeroGateSqlPredicate`, with `freshGateLeaseSqlPredicate`.
abbrev pub has_double_zero : ℕ → Gate → Bool
has_double_zero now g =
    has_capability "doublezero0:up" g.observed_capabilities
    && is_text (text_at "tunnelStatus" g.doublezero_status) "BGP Session Up"
    && not (is_text (text_at "currentDeviceStatus" g.doublezero_status) "drained")
    && is_text (text_at "network" g.doublezero_status) (expected_network g.spec)
    && is_text (text_at "tunnelSrc" g.doublezero_status) g.public_ipv4
    && elim g.lease_expires_at [ none ↦ false | some t ↦ ltb now t ]

abbrev pub mem_codes : List ℕ → List (List ℕ) → Bool
mem_codes t ts = any (same_codes t) ts

abbrev pub all_capabilities : List String → List String → Bool
all_capabilities [] have = true
all_capabilities (c ∷ cs) have = has_capability c have && all_capabilities cs have

abbrev pub is_empty : List (List ℕ) → Bool
is_empty [] = true
is_empty (_ ∷ _) = false

-- `split_part(lower(gates.name), '-', 2)`
abbrev pub region_of : Gate → List ℕ
region_of g = before_first b'-' (after_first b'-' (lower g.name))

-- The gate works, whatever is asked of it.
abbrev pub is_available : ℕ → Gate → Bool
is_available now g =
    is_enabled g.desired_state
    && g.is_agent_connected
    && g.is_ready
    && g.is_schedulable
    && not g.is_deploying
    && has_double_zero now g

abbrev pub matches_text : Option String → String → Bool
matches_text none t = true
matches_text (some s) t = str_eq t s

-- `$2::uuid IS NULL OR gates.id = $2::uuid`; `to_uuid` is the cast of the database, with `none` for an error.
abbrev pub matches_id : (String → Option ℕ) → Option String → ℕ → Bool
matches_id to_uuid none id = true
matches_id to_uuid (some s) id = is_some_eq id (to_uuid s)

abbrev pub is_malformed : (String → Option ℕ) → Option String → Bool
is_malformed to_uuid none = false
is_malformed to_uuid (some s) = not (is_some (to_uuid s))

abbrev pub is_excluded : Option ℕ → Gate → Bool
is_excluded none g = false
is_excluded (some id) g = g.id == id

-- The gate is what the input asks for.
abbrev pub is_wanted : (String → Option ℕ) → SelectGateInput → Gate → Bool
is_wanted to_uuid input g =
    not (is_excluded input.exclude_gate_id g)
    && (matches_id to_uuid input.gate_id g.id
        && matches_text input.gate_name g.name
        && not (mem_codes (lower g.country) input.excluded_countries)
        && not (mem_codes (lower g.city) input.excluded_cities)
        && (is_empty input.preferred_regions || mem_codes (region_of g) input.preferred_regions)
        && all_capabilities input.required_capabilities g.observed_capabilities)

abbrev pub is_candidate : (String → Option ℕ) → ℕ → SelectGateInput → Gate → Bool
is_candidate to_uuid now input g = is_available now g && is_wanted to_uuid input g

abbrev pub ltb_ℤ : ℤ → ℤ → Bool
ltb_ℤ a b = ltb (pos_part a + neg_part b) (pos_part b + neg_part a)

-- `ORDER BY scheduling_weight DESC, name ASC`
abbrev pub comes_first : Gate → Gate → Bool
comes_first g h =
    ltb_ℤ h.scheduling_weight g.scheduling_weight
    || not (ltb_ℤ g.scheduling_weight h.scheduling_weight) && is_le (compare g.name h.name)

-- The first row that passes a test.
unfoldable pub first_gate : (Gate → Bool) → List Gate → Option Gate
first_gate p [] = none
first_gate p (g ∷ gs) =
    let rest = first_gate p gs in
    if p g
    then elim rest [ none ↦ some g | some h ↦ if comes_first g h then some g else some h ]
    else rest

-- `none` is a thrown error: a gate id that is no uuid fails the query whatever the table holds.
unfoldable pub select_schedulable_gate :
    (String → Option ℕ) → ℕ → SelectGateInput → List Gate → Option (Option Gate)
unfolding first_gate
select_schedulable_gate to_uuid now input gates =
    if is_malformed to_uuid input.gate_id
    then none
    else some (first_gate (is_candidate to_uuid now input) gates)
