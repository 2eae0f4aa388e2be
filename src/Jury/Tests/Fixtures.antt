-- ===== src/Jury/Tests/Fixtures.antt =====
-- A case with ten jurors and their opinions.
use Prim.Native.String
use anti_soon.Prelude.{ℕ, ◌+◌, ◌-◌, ◌≡◌, String, refl, List, [], ◌∷◌, if◌then◌else◌, ltb, ok}
use anti_soon.Prelude.Decimal.{to_string}
use anti_soon.Jury.Types.{
  llm, human, Validity, high, medium, invalid, RosterSlot, Replacement, CasePackage,
}
use anti_soon.Jury.Digest.{
  Digests, DigestValue, Items, Fields, text, number, bigint, array, object, nil, cons, end, field,
}
use anti_soon.Jury.Roster.{
  effective_slots, ReplacementInput, resolve_effective_roster_slots, apply_replacement,
}
use anti_soon.Jury.Roster.Resolve.{IsRoster}
use anti_soon.Jury.Roster.Order.{assert_roster_slot_order, assert_roster_slot_order_iff}
use anti_soon.Jury.Ledger.{SealedOpinion}

-- A digest that writes the value out.
unfoldable mutual
  pub show : DigestValue → String
  show (text s) = s
  show (number n) = to_string n
  show (bigint n) = to_string n
  show (array xs) = show_items xs
  show (object fs) = show_fields fs

  show_items : Items → String
  show_items nil = ""
  show_items (cons x xs) = String.◌++◌ (show x) (String.◌++◌ "," (show_items xs))

  show_fields : Fields → String
  show_fields end = ""
  show_fields (field k v fs) = String.◌++◌ (show v) (String.◌++◌ ";" (show_fields fs))

unfoldable pub written_out : Digests
written_out = record {
  stable_digest = λ version value. String.◌++◌ version (show value);
  to_lower_case = λ s. s;
}

abbrev pub slot_of : ℕ → String → RosterSlot
slot_of n juror = record {
  slot_index = n;
  cohort = if ltb n 5 then llm else human;
  cohort_slot_index = if ltb n 5 then n else n - 5;
  juror_id = juror;
  assignment_digest = "0x00";
}

abbrev pub committed_slots : List RosterSlot
committed_slots =
    slot_of 0 "m0"
    ∷ slot_of 1 "m1"
    ∷ slot_of 2 "m2"
    ∷ slot_of 3 "m3"
    ∷ slot_of 4 "m4"
    ∷ slot_of 5 "ann"
    ∷ slot_of 6 "ben"
    ∷ slot_of 7 "cid"
    ∷ slot_of 8 "dot"
    ∷ slot_of 9 "eve"
    ∷ []

abbrev pub replacement : Replacement
replacement = record {
  slot_index = 9;
  cohort_slot_index = 4;
  previous_juror_id = "eve";
  next_juror_id = "fay";
  replacement_reason = "ill";
  replacement_timestamp_sec = 3;
  replacement_source = "vrf";
  replacement_nonce = "0x01";
  replacement_randomness_digest = "0x02";
  replacement_digest = "0x03";
}

abbrev pub some_case : CasePackage
some_case = record {
  submission_id = 4;
  project_id = 2;
  jury_round_id = 1;
  jury_deadline_timestamp_sec = 100;
  adjudication_deadline_timestamp_sec = 200;
  jury_ledger_digest = "0x0a";
  source_event_key = "0x0b";
  mapping_fingerprint = "0x0c";
  sync_id = "0x0d";
  idempotency_key = "0x0e";
  cipher_uri = "ipfs://x";
  severity = 3;
  chain_selector_name = "sepolia";
  bounty_hub_address = "0x0f";
  oasis_envelope_hash = "0x10";
  roster_commitment = record {
    commitment_digest = "0x11";
    roster_digest = "0x12";
    slots = committed_slots;
    human_selection = record {
      randomness_digest = "0x13";
      selection_source = "vrf";
      selection_nonce = "0x14";
      candidate_pool_digest = "0x15";
      slot_selections = [];
    };
    human_slot_replacements = replacement ∷ [];
  };
}

-- what is in effect: fay has eve's place
abbrev pub slots_in_effect : List RosterSlot
slots_in_effect =
    slot_of 0 "m0"
    ∷ slot_of 1 "m1"
    ∷ slot_of 2 "m2"
    ∷ slot_of 3 "m3"
    ∷ slot_of 4 "m4"
    ∷ slot_of 5 "ann"
    ∷ slot_of 6 "ben"
    ∷ slot_of 7 "cid"
    ∷ slot_of 8 "dot"
    ∷ record (slot_of 9 "fay") { assignment_digest = "0x03" }
    ∷ []

pub committed_slots-IsRoster : IsRoster committed_slots
unfolding assert_roster_slot_order
committed_slots-IsRoster = (assert_roster_slot_order_iff committed_slots).0 refl

pub some_case-effective : effective_slots some_case ≡ ok slots_in_effect
unfolding resolve_effective_roster_slots apply_replacement
some_case-effective = refl

abbrev pub opinion_of : ℕ → String → Validity → SealedOpinion
opinion_of n juror v = record {
  slot_index = n;
  cohort = if ltb n 5 then llm else human;
  juror_id = juror;
  final_validity = v;
  rationale_digest = "0x20";
  testimony_digest = "0x21";
  ingest_timestamp_sec = 50 + n;
}

-- eight for a high severity, not in the order of the slots
abbrev pub ten_opinions : List SealedOpinion
ten_opinions =
    opinion_of 9 "fay" high
    ∷ opinion_of 0 "m0" high
    ∷ opinion_of 1 "m1" invalid
    ∷ opinion_of 2 "m2" high
    ∷ opinion_of 3 "m3" high
    ∷ opinion_of 4 "m4" high
    ∷ opinion_of 8 "dot" high
    ∷ opinion_of 5 "ann" high
    ∷ opinion_of 6 "ben" medium
    ∷ opinion_of 7 "cid" high
    ∷ []

abbrev pub reissue_input : ReplacementInput
reissue_input = record {
  slot_index = 6;
  next_juror_id = "gus";
  replacement_reason = "conflict";
  replacement_timestamp_sec = 9;
  replacement_source = "vrf";
  replacement_nonce = "0x05";
  replacement_randomness_digest = "0x06";
}
