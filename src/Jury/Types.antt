-- ===== src/Jury/Types.antt =====
-- The types of workflow/jury-orchestrator/main.ts that the jury's steps read and write. A literal
-- type with one value (`magic`, `reportType`, versions, `lifecycleStatus` of a case) is left out.
use anti_soon.Prelude.{ℕ, String, Bool, true, false, Option, List}

pub data Cohort : Type 0 where
  llm human : Cohort

-- `AdjudicationResolvedValidity`
pub data Validity : Type 0 where
  high medium invalid : Validity

abbrev pub same_cohort : Cohort → Cohort → Bool
same_cohort llm llm = true
same_cohort human human = true
same_cohort _ _ = false

abbrev pub same_validity : Validity → Validity → Bool
same_validity high high = true
same_validity medium medium = true
same_validity invalid invalid = true
same_validity _ _ = false

pub record RosterSlot : Type 0 where
  pub slot_index : ℕ
  pub cohort : Cohort
  pub cohort_slot_index : ℕ
  pub juror_id : String
  pub assignment_digest : String

pub record HumanSlotSelection : Type 0 where
  pub slot_index : ℕ
  pub cohort_slot_index : ℕ
  pub juror_id : String
  pub candidate_index : ℕ
  pub selection_digest : String

pub record HumanSelection : Type 0 where
  pub randomness_digest : String
  pub selection_source : String
  pub selection_nonce : String
  pub candidate_pool_digest : String
  pub slot_selections : List HumanSlotSelection

pub record Replacement : Type 0 where
  pub slot_index : ℕ
  pub cohort_slot_index : ℕ
  pub previous_juror_id : String
  pub next_juror_id : String
  pub replacement_reason : String
  pub replacement_timestamp_sec : ℕ
  pub replacement_source : String
  pub replacement_nonce : String
  pub replacement_randomness_digest : String
  pub replacement_digest : String

pub record RosterCommitment : Type 0 where
  pub commitment_digest : String
  pub roster_digest : String
  pub slots : List RosterSlot
  pub human_selection : HumanSelection
  pub human_slot_replacements : List Replacement

-- `AdjudicationCaseContext`; in a case the lifecycle status, the verdict source and the validity are
-- fixed.
pub record CasePackage : Type 0 where
  pub submission_id : ℕ
  pub project_id : ℕ
  pub jury_round_id : ℕ
  pub jury_deadline_timestamp_sec : ℕ
  pub adjudication_deadline_timestamp_sec : ℕ
  pub jury_ledger_digest : String
  pub source_event_key : String
  pub mapping_fingerprint : String
  pub sync_id : String
  pub idempotency_key : String
  pub cipher_uri : String
  pub severity : ℕ
  pub chain_selector_name : String
  pub bounty_hub_address : String
  pub oasis_envelope_hash : String
  pub roster_commitment : RosterCommitment

pub record OpinionRecord : Type 0 where
  pub slot_index : ℕ
  pub cohort : Cohort
  pub cohort_slot_index : ℕ
  pub juror_id : String
  pub final_validity : Validity
  pub rationale_digest : String
  pub testimony_digest : String
  pub ingest_timestamp_sec : ℕ
  pub scope_key : String
  pub record_key : String
  pub slot_id : String

pub record OpinionIngest : Type 0 where
  pub submission_id : ℕ
  pub project_id : ℕ
  pub jury_round_id : ℕ
  pub scope_key : String
  pub record_count : ℕ
  pub records : List OpinionRecord

-- The reasons of a failed read of the confidential ledger.
pub data ReadFailure : Type 0 where
  wrong_record_count wrong_submission wrong_project wrong_round wrong_scope_key : ReadFailure
  wrong_record_scope missing_vote : ReadFailure
  duplicate_slot late_vote wrong_roster_slot wrong_record_key wrong_slot_id : ℕ → ReadFailure

pub data JuryError : Type 0 where
  missing_slot not_human_slot wrong_cohort_slot wrong_previous_juror : ℕ → JuryError
  juror_already_active : String → JuryError
  slot_not_committed no_human_slot juror_unchanged : JuryError
  wrong_slot_count : JuryError
  misnumbered_slot misplaced_cohort misplaced_cohort_slot : ℕ → JuryError
  duplicate_juror : String → JuryError
  append_only : (record_key : String) → JuryError
  no_records : JuryError
  not_positive : (field : String) → JuryError
  before_deadline : (now deadline : ℕ) → JuryError
  read_failed : ReadFailure → JuryError
  scope_mismatch : JuryError

pub record ConsensusPayload : Type 0 where
  pub submission_id : ℕ
  pub project_id : ℕ
  pub jury_round_id : ℕ
  pub final_validity : Validity
  pub aggregated_at_timestamp_sec : ℕ
  pub jury_deadline_timestamp_sec : ℕ
  pub adjudication_deadline_timestamp_sec : ℕ
  pub scope_key : String
  pub consensus_vote_count : ℕ
  pub llm_agreeing_vote_count : ℕ
  pub human_agreeing_vote_count : ℕ
  pub supporting_opinion_record_keys : List String
  pub supporting_rationale_digests : List String
  pub supporting_testimony_digests : List String
  pub rationale : String

pub record HandoffPayload : Type 0 where
  pub submission_id : ℕ
  pub project_id : ℕ
  pub jury_round_id : ℕ
  pub aggregated_at_timestamp_sec : ℕ
  pub jury_deadline_timestamp_sec : ℕ
  pub adjudication_deadline_timestamp_sec : ℕ
  pub scope_key : String
  pub received_vote_count : ℕ
  pub required_consensus_count : ℕ
  pub required_cohort_count : ℕ
  pub leading_final_validity : Option Validity
  pub leading_vote_count : ℕ
  pub leading_llm_vote_count : ℕ
  pub leading_human_vote_count : ℕ
  pub supporting_opinion_record_keys : List String
  pub supporting_rationale_digests : List String
  pub supporting_testimony_digests : List String
  pub reason : String

-- `JuryConsensusEnvelope | OwnerAdjudicationHandoffEnvelope`
pub data Aggregation : Type 0 where
  jury_consensus : ConsensusPayload → Aggregation
  owner_handoff : HandoffPayload → Aggregation
