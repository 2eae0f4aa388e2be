-- ===== src/Verify/Mapping/Kept.antt =====
-- What the check of a mapping leaves of the mappings.
use anti_soon.Prelude.{◌≡◌, true, false, Option, none, some, ok, Option-cases, arith}
use anti_soon.Prelude.Map.{Map, get, has}
use anti_soon.Prelude.Keys.{IsKeyed, set-IsKeyed}
use anti_soon.Verify.Mapping.{
  MappingState, Mapped, Derivations, mapping_of, mapped, mapping_at, assert_mapping_stable,
}

module _ {Input : Type 0} (keys : Derivations Input) where
  pub assert_mapping_stable-IsKeyed :
      (m : Map MappingState) (input : Input)
      → IsKeyed m
      → IsKeyed (assert_mapping_stable keys m input).1
  unfolding assert_mapping_stable
  assert_mapping_stable-IsKeyed m input h = go (get m (keys.source_event_key input))
    where
      go : (o : Option MappingState) → IsKeyed (mapping_at keys o m input).1
      go none = set-IsKeyed m (keys.source_event_key input) (mapping_of keys input) h
      go (some current) = h

  -- the mappings change only where the event is new, and then the input is accepted
  pub assert_mapping_stable-known :
      (m : Map MappingState) (input : Input)
      → has m (keys.source_event_key input) ≡ true
      → (assert_mapping_stable keys m input).1 ≡ m
  unfolding assert_mapping_stable mapping_at has
  assert_mapping_stable-known m input h =
      ground (arith, Option-cases (get m (keys.source_event_key input)))

  pub assert_mapping_stable-new :
      (m : Map MappingState) (input : Input)
      → has m (keys.source_event_key input) ≡ false
      → (r : Mapped) × ((assert_mapping_stable keys m input).0 ≡ ok r)
  unfolding assert_mapping_stable mapping_at has
  assert_mapping_stable-new m input h =
      (mapped keys input, ground (arith, Option-cases (get m (keys.source_event_key input))))
