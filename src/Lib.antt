-- ===== src/Lib.antt =====
-- Verification of the control plane of a VPN service, packages/control-plane, and of the
-- counters of requests of its HTTP service.
--
-- The program. A customer owns an account and its sessions (VPN configs). Sessions move through
-- phases, from the request through provisioning to revocation; a prepaid balance pays for them, and
-- an account that stays overdrawn past its grace has its sessions revoked. Cash can be withdrawn to
-- a Solana address while no session is open. Everything is rows of a relational database, changed
-- by transactions.
--
-- How it is modelled. A table is the list of its rows (Common/Table: UPDATE, SELECT by key), or a
-- map by account where each account has one row. A transaction is a function from the database to
-- the database with its answer; a thrown error, which rolls back, is `none`. Timestamps are numbers,
-- in the unit that each file names. Row locks are not modelled: a transaction runs alone.
--
-- The files.
--   Common       tests, lists, integers, JSON values, tables and sums over tables
--   Session      phases and transitions (packages/control-plane/src/resources/sessions/transitions.ts)
--     Store      the statements of resources/sessions/repository.ts on joined rows of `sessions` and
--                `session_status`: findOwnedSessionPhaseForUpdate is find_owned_session_phase_for_update,
--                and so on, each name in snake case
--     Creation   the creation of a session under the account's limits (resources/sessions/service.ts)
--     Quota      the limits, and the retry of a creation
--     Service    the revocation and hiding requests of resources/sessions/service.ts
--     Payment    application/sessions/payment-session.scenario.ts
--     Traffic    application/billing/admin-traffic-quota.scenario.ts
--     Revocation, Hiding   what these requests do
--   Billing      amounts, buckets and charges (application/billing/prepaid-billing.scenario.ts)
--     Store      the tables of resources/billing/prepaid-repository.ts and repository.ts
--     Settlement applyBillingCredit, settleRatingCandidate and reconcileBillingAccountState
--     Withdrawal application/billing/withdrawal.scenario.ts and its statements
--     Imports    the ledger entry of application/billing/doublezero-usage-import.scenario.ts
--     Address    application/billing/solana-address.ts
--     Buckets, Charges, Accounts, Base58   what single operations do
--     Reservations, Moves, Soundness, Keys, Postings, Windows, Ledger   invariants, operation by
--                operation: reservations, keys, and the ledger against the buckets
--     Runs       the transactions as steps, and what holds after every run of them
--   Assignment   packages/control-plane/src/resources/gate-assignments/transitions.ts
--     Store, Service   repository.ts and service.ts beside it
--     Changes    what the operations do to the rows
--   Job          packages/control-plane/src/resources/jobs/transitions.ts
--     Store, Leasing, Attempts, Service   repository.ts, leasing.ts, attempts.ts and service.ts beside it
--     Claims, Reports, Queue   what claims, reports and the upkeep of the queue do
--   Lease        the tables of resources/addresses/repository.ts
--     Allocator  resources/addresses/allocator.ts
--     Holders    which session holds an address
--     Pool, Search, Allocation   the search in one pool, in all pools, and the allocator as a whole
--   Reconciler   the state that the controllers of packages/control-plane/src/reconciler share
--     Sessions, Assignments   session-controller.ts and assignment-controller.ts
--     Scheduling, Activation   the first and the last steps of session-controller.ts, from a request to
--                two assignments, and from two applied assignments to an active session with its config
--     Batches, Draining   what one run leaves for the next, and repeated runs
--     Downloads  what the end of a revocation does to downloads
--     Beginning, Revocation, Failure, Enqueue   what their runs do to sessions, jobs, leases and artifacts
--   Gate         packages/control-plane/src/resources/gates/readiness.ts and transitions.ts, and what
--                recordGateHeartbeat of service.ts makes of them
--     Conditions when a gate can take sessions
--     Store, Selection   selectSchedulableGate of repository.ts beside it, and which gate that is
--   Planning     packages/control-plane/src/planning/choose-path.ts
--     Path       which path is chosen, and when none is
--   Artifact     packages/control-plane/src/resources/artifacts/transitions.ts and repository.ts
--     Tokens, FileName   download-tokens.ts beside it
--     Invalidation, Redemption   when a download token gives nothing, and what it gives
--   RateLimit    apps/control-plane-api/src/http/window-limiter.ts
--     Buckets, Window   one request, and the requests of a window
--   Usage        recordGateAssignmentCounter of resources/actual-state/repository.ts, the traffic of a session
--     Series, Totals   the samples of a series of reports, and what it adds
--   Drift        the tables and queries of packages/control-plane/src/reconciler/drift-controller.ts, and
--                resources/actual-state/drift-policy.ts
--     Controller the controller, function by function
--     Handles, Repair   the comparison of handles, and what a repair does
--   Runs         requests and controllers as steps on one database
--     Shape, Loops, Placement, Requests, Entries, Quotas, Controllers, Steps   the invariant of sessions and
--                leases, and each step that keeps it
--     Addresses  which session holds which address
-- Billing and Session share the sessions of an account; jobs and assignments share one
-- database; the controllers run on all of them.
--
-- Bounds and fuel. Numbers are unbounded: the columns are bigints and the source rejects amounts
-- that are no safe integers. The decoder's inner loop runs on fuel: a carry is its own fuel, as each
-- round divides it by 256, and Base58 shows that this is enough. The allocator's loop over a pool runs
-- on the number of attempts that are left, as the source's does.
--
-- Not modelled: the documents of a plan, of the network plan and of a config (functions that make
-- them are parameters, and so are the decryption of a config and the database's cast of a text to
-- a uuid), the runs of probes and the conditions shown to users, the wallet's cryptography (a
-- function from accounts to the format of the stored key is a parameter, and so is the secret that
-- a job's payload receives), the text of errors beyond its source, the deposits of Solana and the
-- sweeps after their creation, what an import of usage does beside its ledger entry, metadata
-- columns that no code reads, mails, the views of the administration, the gate agents, the web
-- app, the scripts and the measurements. Names are compared by code points.
pub mod Artifact
pub mod Assignment
pub mod Billing
pub mod Common
pub mod Drift
pub mod Gate
pub mod Job
pub mod Lease
pub mod Planning
pub mod RateLimit
pub mod Reconciler
pub mod Runs
pub mod Session
pub mod Usage
