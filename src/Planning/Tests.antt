-- ===== src/Planning/Tests.antt =====
-- A path over three gates: the heaviest is the ingress, and another one the egress.
use text.Mathlib.Text.{◌==◌ as str_eq}
use z_wireguard_vpn.Common.{ℕ, String, Option, none, some, if◌then◌else◌, [], ◌∷◌, List}
use z_wireguard_vpn.Common.Int.{pos}
use z_wireguard_vpn.Common.Json.{Json, str, arr, obj, field, end, cons, nil}
use z_wireguard_vpn.Gate.Store.{Gate}
use z_wireguard_vpn.Gate.Samples.{working_gate}
use z_wireguard_vpn.Planning.{choose_path}
use z_wireguard_vpn.Planning.Path.{Explains, choose_path_lem}

abbrev gates : List Gate
gates =
    working_gate 1 "gate-eu-1" "France" (pos 5)
    ∷ working_gate 2 "gate-na-1" "USA" (pos 7)
    ∷ working_gate 3 "gate-na-2" "Canada" (pos 9)
    ∷ []

-- The egress is asked for by its id.
abbrev spec : Json
spec = obj (
    field "egressGateId" (str "6F9619FF-8B86-D011-B42D-00C04FC964FF")
      (field "pathPolicy" (obj (field "preferredRegions" (arr (cons (str " EU") nil)) end)) end))

abbrev to_uuid : String → Option ℕ
to_uuid s = if str_eq s "6F9619FF-8B86-D011-B42D-00C04FC964FF" then some 1 else none

choose_path_example : Explains to_uuid 900 spec gates (choose_path to_uuid 900 spec gates)
choose_path_example = choose_path_lem to_uuid 900 spec gates
