-- ===== src/Job/Leasing.antt =====
-- The claim of the next job by a gate: packages/control-plane/src/resources/jobs/leasing.ts, for jobs
-- that are kept in the relational database.
use z_wireguard_vpn.Common.{ℕ, Option, none, some, String}
use z_wireguard_vpn.Common.Json.{Json}
use z_wireguard_vpn.Assignment.{leased_assignment_transition}
use z_wireguard_vpn.Assignment.Store.{find_assignment_phase_for_update, update_assignment_phase}
use z_wireguard_vpn.Job.{Job, FleetDb, claim_job_transition}
use z_wireguard_vpn.Job.Store.{
  GateJobLane, find_claimable_gate_job_for_update, next_job_attempt_number, update_job_lease,
  insert_job_attempt_lease,
}

pub record GateJobLeaseIdentity : Type 0 where
  pub id : ℕ
  pub name : String

pub record ClaimedGateJob : Type 0 where
  pub job : Job
  pub document : Json
  pub attempt_number : ℕ

-- The lease of a job and its attempt.
unfoldable pub lease_job : ℕ → GateJobLeaseIdentity → Job → ℕ → FleetDb → FleetDb
lease_job now gate job attempt db = record db {
  jobs =
      update_job_lease now job.id claim_job_transition.0 gate.name claim_job_transition.1 db.jobs;
  attempts =
      insert_job_attempt_lease now job.id attempt gate.name claim_job_transition.1 db.attempts;
}

-- The phase of the assignment of a job that is leased; `none` where the assignment is missing.
unfoldable pub lease_assignment : Job → FleetDb → Option FleetDb
lease_assignment job db = elim job.assignment_id [
  | none ↦ some db
  | some assignment_id ↦ elim (find_assignment_phase_for_update assignment_id db.assignments) [
    | none ↦ none
    | some p ↦ some (record db {
      assignments =
          update_assignment_phase assignment_id (leased_assignment_transition job.type p)
            db.assignments;
    })
  ]
]

-- `with_client_tunnel_secret` adds the decrypted secret to the document that the gate receives, or
-- throws; the cryptography is not modelled. `none` is a thrown error.
unfoldable pub claim_gate_job :
    (Job → Option Json)
    → ℕ
    → GateJobLeaseIdentity
    → Option GateJobLane
    → FleetDb
    → Option (Option ClaimedGateJob × FleetDb)
claim_gate_job with_client_tunnel_secret now gate lane db =
    elim (find_claimable_gate_job_for_update now gate.id lane db.jobs) [
      | none ↦ some (none, db)
      | some job ↦ elim (with_client_tunnel_secret job) [
        | none ↦ none
        | some document ↦
            let attempt = next_job_attempt_number job.id db.attempts in
            elim (lease_assignment job (lease_job now gate job attempt db)) [
              | none ↦ none
              | some db' ↦
                  some (
                    some (record { job = job; document = document; attempt_number = attempt }),
                    db',
                  )
            ]
      ]
    ]
