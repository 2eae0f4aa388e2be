-- ===== src/Lib.antt =====
-- Verification of anti-soon: the auto-reveal relayer, the jury, and the verification.
--
-- anti-soon pays for proofs of concept of vulnerabilities. Researchers commit to a submission, reveal
-- it later, a workflow verifies it, and a jury decides the disputed ones. This library models
-- parts of three of the workflows under workflow/, as functions on values, and proves what they
-- promise.
--
-- The relayer (workflow/auto-reveal-relayer) reveals what was committed or queued, once each. It runs
-- in cycles. A cycle checks the health of its durable store, plans a window of blocks, and runs two
-- scanners over it: the one of UNIQUE projects upserts commit logs and selects the first candidate of
-- a project, the one of MULTI projects upserts queued reveals and executes those whose deadlines
-- allow it. An item is claimed in the store before it is executed and is then completed or
-- quarantined; the scanners advance the cursor of the store at their end.
--   Relayer/Idempotency, Relayer/Keys   idempotency.ts: claims and marks of keys, derivation of keys
--   Relayer/CursorState                 cursor-state.ts: State (the store, persistence, health),
--                                       Pending, Claim, Cursor, and Runs, where a sequence of the
--                                       store's operations is a list that a function applies
--   Relayer/CursorFile                  cursor-store.ts: what is written of the store; Load is the load
--                                       of a file
--   Retry, Relayer/RetryPolicy          retry-policy.ts: schedule, classification, the loop of tries
--   Relayer/RunPlan, ScanRanges         run-once-core.ts and multi-deadline.ts: windows and ranges
--   Relayer/Scan                        the world of a scanner: the session of the store and an
--                                       environment that the runtime reads and changes; a scan is a
--                                       state-passing computation that returns or throws, and what
--                                       it did before it throws stays done
--   Relayer/Unique, Relayer/Multi       unique-orchestration.ts, multi-deadline.ts
--   Relayer/Cycle                       run-once-core.ts and run-once.ts: a cycle
-- The runtime of a scanner (RPC reads, execution of a reveal, clock) is a parameter over a hidden
-- environment: the theorems hold for every such runtime, one that throws anywhere included. Locale
-- comparison, toLowerCase and the digest of a key are parameters of the same kind, and so are the text
-- functions with which the file is read; of BigInt it is assumed that it reads what toString writes.
-- Two facts about a scan take more of its runtime, as a record that the theorem is given: a journal of
-- the reveals it has executed (Relayer/Multi/Outcome/Batch; Journaled gives every runtime one), and a
-- view of the chain that its reads agree with (Relayer/Unique/Firsts).
--
-- The jury (workflow/jury-orchestrator/main.ts) has ten slots, five of LLM jurors and five of human
-- jurors. A case commits to a roster; a human slot may be reissued, and the replacements are kept in
-- the commitment and applied in their order. Each juror hands in one sealed opinion, the ledger of
-- opinions is read back after the deadline, and eight votes with three of each cohort make a
-- consensus; otherwise the case goes to the owner.
--   Jury/Types, Jury/Digest   the values that the parsers of main.ts return, and the serializers
--   Jury/Roster               resolveEffectiveRosterSlots, assertOpinionIngestRosterSlotAuthorized
--                             and, in Order, assertRosterSlotOrder
--   Jury/Reissue              reissueHumanJurorSlot and deriveEffectiveRosterDigest
--   Jury/Ledger               the keys of the ledger, ingestJurorOpinions, and in Read
--                             assertOpinionAggregationReadConsistency
--   Jury/Support, Aggregate   summarizeTargetStateOpinionSupport, aggregateTargetStateOpinionRecords
--                             and deriveTrustedOpinionAggregationEnvelope
--   Jury/Recommendation       aggregateJuryRecommendationEnvelopes, the older quorum of actions
-- The steps begin at parsed values. The digest, deriveStableDigest, is a field of the parameter
-- Digests: nothing is assumed of it, so where two keys collide the model refuses as the code does.
--
-- The verification (workflow/verify-poc/src) keeps a slot for every idempotency key and a state of
-- synchronisation for every submission, in memory and in a file that it reads again when it restarts.
-- After the verdict on a project with many submissions it groups the similar ones.
--   Verify/SyncState          idempotency.ts: transitionVerifyPocSyncState
--   Verify/Slots              idempotency.ts: the claim of a slot, its marks and its release
--   Verify/Mapping            idempotency.ts: assertVerifyPocIdempotencyMappingStable, over derivations
--                             of keys that are parameters
--   Verify/Store              idempotencyStore.ts: the durable operations and what they write; Load is
--                             the load of a file; Runs and Crash apply lists of operations
--   Verify/Grouping           multiGrouping.ts: Normalize, Similarity (of two submissions), Components
--                             (the search for the connected ones), Ranked (the group of a component),
--                             Build (pairs, groups and ranks) and PostVerdict (the entry points)
-- The floating-point numbers of the similarity are a parameter without laws, so the groups are right
-- for any scores; the texts and hashes of the groups are parameters as well.
--
-- Modelling. A JavaScript number or bigint that the code keeps at or above zero is a natural number,
-- and a subtraction is written where the code makes sure that it stays there. A Map is the list of
-- its entries in insertion order (Prelude/Map), a Set the list of its members (Prelude/Set),
-- Array.prototype.sort is a stable sort (Prelude/Sort), an exception is the err of a Result
-- (Prelude/Results), and a template literal the join of its pieces (Prelude/Template). Loops recurse
-- on the list that they walk. The ranges of blocks recurse on fuel, one round for each block of the
-- window and one more, and each round passes a block at least; the decimal digits of a number recurse
-- on its value plus one, of which each digit takes one; the search of a component takes as many rounds as there are
-- submissions, since a round takes up an id that was visited once, and only ids of submissions are.
--
-- Not modelled: the parsers of unknown JSON, SHA-256 and the canonical text of a value, the selection
-- of a roster from the candidates, and the final package of the jury;
-- the relayer's RPC clients, command lines and environment variables; the rest of the workflow
-- verify-poc, the workflow vnet-init, the back end, the front end and the Solidity contracts.
pub mod Prelude
pub mod Retry
pub mod Relayer
pub mod Jury
pub mod Verify
