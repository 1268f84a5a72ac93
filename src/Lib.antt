-- ===== src/Lib.antt =====
-- Shade: private settlement on Stellar. The model covers the off-chain services in TypeScript that
-- decide what is settled.
--
-- A user's intent goes to a committee of nodes with its amount secret-shared. A matching round
-- collects the shares, rebuilds the amounts, nets opposite intents and signs the matches as a
-- batch. The settler turns the matches of a stored batch into jobs of a queue, and the relayer takes
-- the jobs and calls the pool's contract.
--
-- A deposit burns USDC on Arbitrum, by the operator or the user; once Circle has attested it, the
-- relayer mints it into the pool and registers the note's commitment with a proof. The prover makes
-- the proofs of spends and deposits. The auditor recomputes the root of the commitments and, where it
-- differs from the pool's, records a finding that makes the API refuse all spends.
--
-- - Shared: names of the libraries, Boolean tests, lists, maps in insertion order, texts, results
--   (`Results`), and actions on a state that may throw (`State`).
-- - Mpc.Matching, Mpc.Priced: `matchIntents`, and `matchPricedPair` with `matchPricedIntents`, of
--   apps/mpc-committee/src/coordinator.ts.
-- - Mpc.Shamir: packages/mpc-crypto/src/shamir.ts. Random draws are arguments. The loop of `modinv`
--   is recursion on accessibility, so it needs no fuel; the loop that rejects draws ends with the list
--   of draws.
-- - Mpc.Batch: hash, signatures and their verification, of packages/mpc-crypto/src/committee.ts. The
--   hash and the signature scheme are parameters, with the law that a signature verifies.
-- - Mpc.Session: apps/mpc-committee/src/state.ts, the sessions and their shares.
-- - Mpc.Round: `runMatchingRound` of apps/mpc-committee/src/coordinator.ts and its counterpart over
--   the network in remote-coordinator.ts beside it.
-- - Mpc.Node, Mpc.Network, Mpc.Coordinator: node-server.ts, remote-coordinator.ts and
--   coordinator-server.ts of apps/mpc-committee: the nodes with their token, the round that the
--   coordinator runs over those that answer, and its handlers, one after another.
-- - Queue: packages/queue/src/index.ts, each query as one step on the tables.
--   Queue.Reported: the rows of jobs that fail, for both workers.
-- - Settler: apps/mpc-committee/src/settler.ts, and in Settler.Persist persist.ts beside it.
-- - Relayer: apps/relayer/src/worker.ts. What the chains, Circle's service and the prover answer is a
--   parameter; each request that changes something outside is logged in the state.
--   Texts of errors and of some status details are shortened.
-- - Api: the routes of note vaults, deposits and sign-in in apps/api/src/routes.ts, their queries in
--   db.ts beside it, and the recovery policy of packages/note-vault/src/index.ts.
-- - Api.Rfq: the routes from an intent to its settlement, on tables with the newest row first. The keys
--   that keep a row out and the references that make an insertion throw are those of
--   db/migrations; Api.Sql has the queries that they share.
-- - Api.Spend, Api.Reports: the routes of withdrawals and of exits to another chain, and those of view-key
--   reports.
-- - Vault: the walks of packages/note-vault/src/index.ts that refuse and redact plaintext, on JSON values.
--   Vault.Notes, Vault.Envelope and Vault.Validate: the notes, their encryption, the wrappers of the
--   key and the validation of envelopes; WebCrypto and base64 are parameters.
-- - Swap: the bytes of an atomic swap's terms that a solver signs, of packages/rfq/src/rfq.ts.
-- - Cctp: packages/cctp-utils/src/index.ts, with the polling of Circle as recursion on the list of its
--   answers. Cctp.Burn checks a user's burn and Cctp.Runs has the two runs, `runCctpInbound` and
--   `runPostUserBurnCctpInbound`, of packages/cctp/src/cctp-inbound.ts; requests outside are logged in
--   the state, and what they answer is a function of the log.
-- - RootAuditor: apps/root-auditor/src/audit.ts, and in RootAuditor.Run run.ts beside it with the count
--   of findings in apps/api/src/db.ts.
-- - Proving, Prover: the builders of packages/proving/src/prove.ts with the files that they write, and
--   apps/prover/src/worker.ts. The binaries are parameters.
-- - Sdk: the sharing and sealing of an amount in packages/sdk/src/mpc.ts.
--
-- Sorting by `Array.prototype.sort` is a parameter for the comparator of `matchIntents`, which is not
-- consistent; the rows of a batch are sorted by insertion, which is stable as the engine's sort is.
-- Printed numbers take their own successor as fuel, which is more than their number of digits.
--
-- What a user is and what the schemas let through come as arguments of the routes, which are none where
-- the authentication or the schema throws. Hashes and ids made of hashes are functions.
--
-- Not modelled: the routes of the anchor and of the committee's proxy, the solver, the proofs of
-- settlements (mpc-settlement.ts, mpc-priced.ts) and of compliance, remittances, plain reads, HTTP
-- clients, timers, key files, the sealing of shares, the circuits and contracts, the web application and
-- the scripts.
pub mod Shared
pub mod Mpc
pub mod Queue
pub mod Settler
pub mod Relayer
pub mod Api
pub mod Cctp
pub mod Vault
pub mod Swap
pub mod RootAuditor
pub mod Proving
pub mod Prover
pub mod Sdk
