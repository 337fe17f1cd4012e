-- ===== src/Session/Payment.antt =====
-- Sessions that wait for a payment:
-- packages/control-plane/src/application/sessions/payment-session.scenario.ts. The condition for users is
-- left out.
use text.Mathlib.Text.{◌==◌ as str_eq}
use z_wireguard_vpn.Common.{
  ℕ, Bool, false, not, ◌&&◌, Option, none, some, String, List, [], ◌∷◌, ◌++◌, ◌==◌, any, filter,
  find?, is_some_eq, if◌then◌else◌,
}
use z_wireguard_vpn.Common.Table.{update_where}
use z_wireguard_vpn.Session.{Session, payment_pending, requested, phase_eq}
use z_wireguard_vpn.Session.Service.{SessionOwner}

-- A row of `solana_config_payments`.
pub record ConfigPayment : Type 0 where
  pub id : ℕ
  pub session_id : ℕ
  pub account_id : ℕ
  pub is_confirmed : Bool
  pub transaction_signature : Option String
  pub traffic_limit_bytes : Option ℕ

-- A row of `session_traffic_entitlements`.
pub record TrafficEntitlement : Type 0 where
  pub session_id : ℕ
  pub included_bytes : ℕ
  pub consumed_bytes : ℕ
  pub exhausted_at : Option ℕ

-- The audit event `session_payment_confirmed`: the owner, the session and the payment.
pub record PaymentAudit : Type 0 where
  pub actor : SessionOwner
  pub session_id : ℕ
  pub payment_id : ℕ

pub record PaymentDb : Type 0 where
  pub sessions : List Session
  pub payments : List ConfigPayment
  pub entitlements : List TrafficEntitlement
  pub payment_audits : List PaymentAudit

pub data ActivateResult : Type 0 where
  activated already_active not_found invalid_phase invalid_payment : ActivateResult

abbrev pub is_owned_by : ℕ → ℕ → Session → Bool
is_owned_by account_id session_id s = s.id == session_id && is_some_eq account_id s.account_id

abbrev pub is_payment_of : ℕ → ℕ → ℕ → ConfigPayment → Bool
is_payment_of payment_id session_id account_id p =
    p.id == payment_id && (p.session_id == session_id && p.account_id == account_id)

abbrev pub is_signed_by : String → Option String → Bool
is_signed_by signature none = false
is_signed_by signature (some s) = str_eq s signature

-- `ON CONFLICT (session_id) DO NOTHING`
unfoldable pub insert_entitlement : ℕ → Option ℕ → List TrafficEntitlement → List TrafficEntitlement
insert_entitlement session_id none entitlements = entitlements
insert_entitlement session_id (some bytes) entitlements =
    if any (λ (e : TrafficEntitlement). e.session_id == session_id) entitlements
    then entitlements
    else entitlements
      ++ (record {
        session_id = session_id;
        included_bytes = bytes;
        consumed_bytes = 0;
        exhausted_at = none;
      })
        ∷ []

abbrev pub set_requested : ℕ → Session → Session
set_requested now s = record s { phase = requested; status_updated_at = now }

unfoldable pub activate_paid_session :
    ℕ → SessionOwner → ℕ → ℕ → String → PaymentDb → ActivateResult × PaymentDb
activate_paid_session now actor session_id payment_id signature db =
    elim (find? (is_owned_by actor.account_id session_id) db.sessions) [
      | none ↦ (not_found, db)
      | some s ↦ elim (find? (is_payment_of payment_id session_id actor.account_id) db.payments) [
        | none ↦ (invalid_payment, db)
        | some p ↦
            let entitled = record db {
              entitlements = insert_entitlement session_id p.traffic_limit_bytes db.entitlements;
            } in
            if not (p.is_confirmed && is_signed_by signature p.transaction_signature)
            then (invalid_payment, db)
            else if phase_eq s.phase payment_pending
            then (
              activated,
              record entitled {
                sessions =
                    update_where (λ (x : Session). x.id == session_id) (set_requested now)
                      db.sessions;
                payment_audits =
                    db.payment_audits
                    ++ (record { actor = actor; session_id = session_id; payment_id = payment_id })
                      ∷ [];
              },
            )
            else if phase_eq s.phase requested
            then (already_active, entitled)
            else (invalid_phase, entitled)
      ]
    ]

-- The deletion takes the rows that refer to the session with it; of those, only a session that was
-- provisioned has any here.
unfoldable pub delete_unpaid_session : SessionOwner → ℕ → List Session → List Session
delete_unpaid_session actor session_id sessions =
    elim (find? (λ s. is_owned_by actor.account_id session_id s && phase_eq s.phase payment_pending)
      sessions) [
        | none ↦ sessions
        | some s ↦ filter (λ (x : Session). not (x.id == session_id)) sessions
      ]
