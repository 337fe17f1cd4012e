-- ===== src/Assignment/Changes.antt =====
-- What the operations on assignments do to the rows.
use z_wireguard_vpn.Common.{
  ℕ, ◌+◌, ◌≤◌, ◌≡◌, refl, Bool, true, false, not, ◌&&◌, none, some, List, [], ◌∷◌, ◌++◌, arith,
  ◌==◌, if◌then◌else◌, All, count, find?, inl, inr, Option-cases, Bool-cases, map_option,
}
use z_wireguard_vpn.Common.Table.{
  row, row-update_any, update_where, count-append, count-update_where_le, All-Unit, row_key,
  All-update_where,
}
use z_wireguard_vpn.Assignment.{
  Assignment, AssignmentError, GateAssignmentPhase, GateAssignmentDesiredState, Role, role_eq,
  has_phase, is_provisioning_failure_dead_candidate, ingress, egress, is_desired_applied,
}
use z_wireguard_vpn.Assignment.Store.{
  CreateGateAssignmentInput, is_slot, new_assignment, set_upserted, upsert_gate_assignment,
  ensure_gate_assignment_status_phase, set_phase_unless_applied, has_assignment_id, set_phase_error,
  mark_pending_assignments_phase_for_session, update_assignment_desired_state,
  mark_assignment_revoking, set_desired, set_phase,
}
use z_wireguard_vpn.Assignment.Service.{
  create_assignment, mark_pending_assignments_dead_for_session, request_assignment_revocation,
}

-- An assignment whose revocation is requested.
abbrev pub as_revoking : ℕ → Assignment → Assignment
as_revoking now a = record a {
  desired_state = GateAssignmentDesiredState.revoked;
  generation = a.generation + 1;
  updated_at = now;
  phase =
      if has_phase a.phase GateAssignmentPhase.revoked
      then a.phase
      else GateAssignmentPhase.revoking;
}

-- A request to revoke an assignment wants it revoked at the next generation, and marks it revoking
-- unless it is revoked already; no other assignment changes.
pub request_assignment_revocation_lem :
    (now assignment_id id : ℕ) (assignments : List Assignment)
    → row Assignment.id id (request_assignment_revocation now assignment_id assignments) ≡ (
        if assignment_id == id
        then map_option (as_revoking now) (row Assignment.id id assignments)
        else row Assignment.id id assignments)
unfolding request_assignment_revocation mark_assignment_revoking update_assignment_desired_state
request_assignment_revocation_lem now assignment_id id assignments =
    let wanted = set_desired now GateAssignmentDesiredState.revoked true in
    elim (Option-cases (row Assignment.id id assignments)) [
      | inl missing ↦ ground (
        arith,
        row-update_any Assignment.id id
            (λ a.
              has_assignment_id assignment_id a
              && not (has_phase a.phase GateAssignmentPhase.revoked))
            (set_phase GateAssignmentPhase.revoking) (λ a. refl)
            (update_where (has_assignment_id assignment_id) wanted assignments),
        row-update_any Assignment.id id (has_assignment_id assignment_id) wanted (λ a. refl)
            assignments,
      )
      | inr (a, found) ↦
          let key = row_key Assignment.id id assignments found in
          ground (
            arith,
            row-update_any Assignment.id id
                (λ b.
                  has_assignment_id assignment_id b
                  && not (has_phase b.phase GateAssignmentPhase.revoked))
                (set_phase GateAssignmentPhase.revoking) (λ b. refl)
                (update_where (has_assignment_id assignment_id) wanted assignments),
            row-update_any Assignment.id id (has_assignment_id assignment_id) wanted (λ b. refl)
                assignments,
          )
    ]

-- The failure of a session's provisioning makes exactly its pending assignments dead, with the error;
-- afterwards none of its assignments is pending.
pub mark_pending_assignments_dead_for_session_lem :
    (session_id id : ℕ) (e : AssignmentError) (assignments : List Assignment)
    → let assignments' = mark_pending_assignments_dead_for_session session_id e assignments in
      (row Assignment.id id assignments'
        ≡ map_option
            (λ a.
              if a.session_id == session_id && is_provisioning_failure_dead_candidate a.phase
              then set_phase_error GateAssignmentPhase.dead e a
              else a)
            (row Assignment.id id assignments))
      × All
          (λ a. a.session_id ≡ session_id → is_provisioning_failure_dead_candidate a.phase ≡ false)
          assignments'
unfolding mark_pending_assignments_dead_for_session mark_pending_assignments_phase_for_session
mark_pending_assignments_dead_for_session_lem session_id id e assignments =
    let p : Assignment → Bool =
      λ a. a.session_id == session_id && is_provisioning_failure_dead_candidate a.phase in
    (
      row-update_any Assignment.id id p (set_phase_error GateAssignmentPhase.dead e) (λ a. refl)
          assignments,
      All-update_where (λ a. Unit {0})
          (λ a. a.session_id ≡ session_id → is_provisioning_failure_dead_candidate a.phase ≡ false)
          p (set_phase_error GateAssignmentPhase.dead e) (λ a hit u q. refl)
          (λ a miss u q. ground arith) assignments (All-Unit assignments),
    )

-- The role of a session has one assignment at most.
abbrev pub IsOnePerRole : List Assignment → Type 0
IsOnePerRole assignments =
    (session_id : ℕ) (role : Role) → count (is_slot session_id role) assignments ≤ 1

find?-none-count :
    (p : Assignment → Bool) (xs : List Assignment) → find? p xs ≡ none → count p xs ≡ 0
find?-none-count p [] e = refl
find?-none-count p (x ∷ xs) e = ground (arith, find?-none-count p xs)

role_eq→eq : (a b : Role) → role_eq a b ≡ true → a ≡ b
role_eq→eq ingress ingress e = refl
role_eq→eq egress egress e = refl
role_eq→eq ingress egress e = cc
role_eq→eq egress ingress e = cc

count-new :
    (now fresh_id : ℕ) (input : CreateGateAssignmentInput) (assignments : List Assignment)
    → IsOnePerRole assignments
    → count (is_slot input.session_id input.role) assignments ≡ 0
    → IsOnePerRole (assignments ++ new_assignment now fresh_id input ∷ [])
count-new now fresh_id input assignments h none_yet s r =
    let a = new_assignment now fresh_id input in
    let grown = count-append (is_slot s r) assignments (a ∷ []) in
    elim (Bool-cases (is_slot s r a)) [
      | inl mine ↦
          let same_session : input.session_id ≡ s = ground arith in
          let same_role = role_eq→eq input.role r (ground arith) in
          let free : count (is_slot s r) assignments ≡ 0 =
            rw (← same_session, ← same_role) none_yet in
          ground (arith, grown, free)
      | inr other ↦ ground (arith, grown, h s r)
    ]

-- Creating the assignment of a session's role keeps one assignment per role.
pub create_assignment-IsOnePerRole :
    (now fresh_id session_id gate_id : ℕ) (role : Role) (plan_id : ℕ)
    (assignments : List Assignment)
    → IsOnePerRole assignments
    → IsOnePerRole (create_assignment now fresh_id session_id gate_id role plan_id assignments).1
unfolding create_assignment upsert_gate_assignment ensure_gate_assignment_status_phase
create_assignment-IsOnePerRole now fresh_id session_id gate_id role plan_id assignments h s r =
    let input : CreateGateAssignmentInput = record {
      session_id = session_id;
      gate_id = gate_id;
      role = role;
      plan_id = plan_id;
      desired_state = GateAssignmentDesiredState.applied;
    } in
    let slot = is_slot s r in
    let ensured = λ (id : ℕ) (xs : List Assignment).
      count-update_where_le slot (has_assignment_id id)
        (set_phase_unless_applied GateAssignmentPhase.queued) (λ a t q. q) xs in
    elim (Option-cases (find? (is_slot session_id role) assignments)) [
      | inl missing ↦
          let none_yet = find?-none-count (is_slot session_id role) assignments missing in
          ground (
            arith,
            missing,
            ensured fresh_id (assignments ++ new_assignment now fresh_id input ∷ []),
            count-new now fresh_id input assignments h none_yet s r,
          )
      | inr (a, found) ↦
          let updated =
            count-update_where_le slot (is_slot session_id role) (set_upserted now input)
              (λ a t q. q) assignments in
          ground (
            arith,
            found,
            h s r,
            updated,
            ensured a.id
                (update_where (is_slot session_id role) (set_upserted now input) assignments),
          )
    ]

find?-hit :
    (p : Assignment → Bool) (xs : List Assignment) {a : Assignment}
    → find? p xs ≡ some a
    → p a ≡ true
find?-hit p [] e = cc
find?-hit p (x ∷ xs) {a} e = ground (arith, find?-hit p xs {a = a})

find?-append :
    (p : Assignment → Bool) (xs : List Assignment) (a : Assignment)
    → find? p xs ≡ none
    → find? p (xs ++ a ∷ []) ≡ (if p a then some a else none)
find?-append p [] a e = refl
find?-append p (x ∷ xs) a e = ground (arith, find?-append p xs a)

role_eq_refl : (r : Role) → role_eq r r ≡ true
role_eq_refl ingress = refl
role_eq_refl egress = refl

find?-update_where :
    (p q : Assignment → Bool) (f : Assignment → Assignment)
    → ((a : Assignment) → p (f a) ≡ p a)
    → (xs : List Assignment)
    → find? p (update_where q f xs) ≡ map_option (λ a. if q a then f a else a) (find? p xs)
find?-update_where p q f same [] = refl
find?-update_where p q f same (x ∷ xs) = ground (arith, same x, find?-update_where p q f same xs)

-- The assignment of a role that exists already, as scheduling the session again leaves it.
abbrev pub as_rescheduled : ℕ → ℕ → ℕ → Assignment → Assignment
as_rescheduled now gate_id plan_id a = record a {
  desired_state = GateAssignmentDesiredState.applied;
  gate_id = gate_id;
  plan_id = plan_id;
  generation =
      if is_desired_applied a.desired_state && (a.gate_id == gate_id && a.plan_id == plan_id)
      then a.generation
      else a.generation + 1;
  updated_at = now;
  phase =
      if has_phase a.phase GateAssignmentPhase.applied then a.phase else GateAssignmentPhase.queued;
}

-- Creating an assignment for a role that has one keeps its id. Its generation grows by one exactly if
-- the gate, the plan or the desired state changes, and it is queued unless it is applied. For a role
-- that has none, a planned row with the fresh id is added and queued.
pub create_assignment_lem :
    (now fresh_id session_id gate_id : ℕ) (role : Role) (plan_id : ℕ)
    (assignments : List Assignment)
    → let slot = is_slot session_id role in
      let (id, assignments') =
        create_assignment now fresh_id session_id gate_id role plan_id assignments in
      ((a : Assignment)
        → find? slot assignments ≡ some a
        → (id ≡ a.id) × (find? slot assignments' ≡ some (as_rescheduled now gate_id plan_id a)))
      × (find? slot assignments ≡ none
          → (id ≡ fresh_id)
            × (map_option Assignment.phase (find? slot assignments')
                ≡ some GateAssignmentPhase.queued))
unfolding create_assignment upsert_gate_assignment ensure_gate_assignment_status_phase
create_assignment_lem now fresh_id session_id gate_id role plan_id assignments =
    let slot = is_slot session_id role in
    let input : CreateGateAssignmentInput = record {
      session_id = session_id;
      gate_id = gate_id;
      role = role;
      plan_id = plan_id;
      desired_state = GateAssignmentDesiredState.applied;
    } in
    let ensured = λ (id : ℕ) (xs : List Assignment).
      find?-update_where slot (has_assignment_id id)
        (set_phase_unless_applied GateAssignmentPhase.queued) (λ a. refl) xs in
    (
      λ a found. (
        ground arith,
        ground (
          arith,
          ensured a.id (update_where slot (set_upserted now input) assignments),
          find?-update_where slot slot (set_upserted now input) (λ b. refl) assignments,
          find?-hit slot assignments found,
        ),
      ),
      λ missing. (
        ground arith,
        ground (
          arith,
          ensured fresh_id (assignments ++ new_assignment now fresh_id input ∷ []),
          find?-append slot assignments (new_assignment now fresh_id input) missing,
          role_eq_refl role,
        ),
      ),
    )
