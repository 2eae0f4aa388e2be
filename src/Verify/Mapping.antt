-- ===== src/Verify/Mapping.antt =====
-- `assertVerifyPocIdempotencyMappingStable` of workflow/verify-poc/src/idempotency.ts: a source event
-- keeps the mapping that it was first seen with. The three derivations of keys, which encode and hash
-- with viem, are parameters.
pub mod Stable
pub mod Kept
use anti_soon.Prelude.{String, Bool, true, false, ◌&&◌, Option, none, some, Result, ok, err, str_eq}
use anti_soon.Prelude.Map
use anti_soon.Prelude.Map.{Map}

-- `VerifyPocIdempotencyMappingState`
pub record MappingState : Type 0 where
  pub mapping_fingerprint : String
  pub idempotency_key : String

-- What an accepted input is mapped to.
pub record Mapped : Type 0 where
  pub source_event_key : String
  pub idempotency_key : String
  pub mapping_fingerprint : String

-- `VERIFY_POC_IDEMPOTENCY_MAPPING_DRIFT`
pub data MappingError : Type 0 where
  mapping_drift : (source_event_key : String) (expected got : MappingState) → MappingError

pub record Derivations (Input : Type 0) : Type 0 where
  pub source_event_key : Input → String
  pub mapping_fingerprint : Input → String
  pub idempotency_key : Input → String

module _ {Input : Type 0} (keys : Derivations Input) where
  abbrev pub mapping_of : Input → MappingState
  mapping_of input = record {
    mapping_fingerprint = keys.mapping_fingerprint input;
    idempotency_key = keys.idempotency_key input;
  }

  abbrev pub mapped : Input → Mapped
  mapped input = record {
    source_event_key = keys.source_event_key input;
    idempotency_key = keys.idempotency_key input;
    mapping_fingerprint = keys.mapping_fingerprint input;
  }

  unfoldable pub is_same_mapping : MappingState → MappingState → Bool
  is_same_mapping current next =
      str_eq current.mapping_fingerprint next.mapping_fingerprint
      && str_eq current.idempotency_key next.idempotency_key

  compare_mapping : Bool → MappingState → Input → Result MappingError Mapped
  compare_mapping true current input = ok (mapped input)
  compare_mapping false current input =
      err (mapping_drift (keys.source_event_key input) current (mapping_of input))

  mapping_at :
      Option MappingState → Map MappingState → Input → Result MappingError Mapped × Map MappingState
  unfolding compare_mapping
  mapping_at none m input =
      (ok (mapped input), Map.set m (keys.source_event_key input) (mapping_of input))
  mapping_at (some current) m input =
      (compare_mapping (is_same_mapping current (mapping_of input)) current input, m)

  -- The map is changed in place: it is the second component.
  unfoldable pub assert_mapping_stable :
      Map MappingState → Input → Result MappingError Mapped × Map MappingState
  unfolding mapping_at
  assert_mapping_stable m input = mapping_at (Map.get m (keys.source_event_key input)) m input
