-- ===== src/Verify/Tests/Mappings.antt =====
-- Two events, and a third input that comes with another mapping of the first event.
use anti_soon.Prelude.{String, ◌≡◌, ◌↔◌, refl, List, [], ◌∷◌, ok}
use anti_soon.Prelude.Map.{get}
use anti_soon.Verify.Mapping.{Mapped, Derivations, mapping_of, mapped, assert_mapping_stable}
use anti_soon.Verify.Mapping.Stable.{run_inputs, assert_mapping_stable-stable_iff}

record Event : Type 0 where
  source : String
  mode : String

abbrev plain : Derivations Event
plain = record {
  source_event_key = λ e. e.source;
  mapping_fingerprint = λ e. e.mode;
  idempotency_key = λ e. e.source;
}

abbrev seen_first : Event
seen_first = record { source = "a"; mode = "strict" }

abbrev seen_later : Event
seen_later = record { source = "a"; mode = "loose" }

abbrev between : List Event
between = record { source = "b"; mode = "loose" } ∷ seen_later ∷ []

seen_first-accepted : (assert_mapping_stable plain [] seen_first).0 ≡ ok (mapped plain seen_first)
unfolding assert_mapping_stable get
seen_first-accepted = refl

assert_mapping_stable-stable_iff_example :
    let settled = run_inputs plain between (assert_mapping_stable plain [] seen_first).1 in
    ((s : Mapped) × ((assert_mapping_stable plain settled seen_later).0 ≡ ok s))
    ↔ (mapping_of plain seen_first ≡ mapping_of plain seen_later)
assert_mapping_stable-stable_iff_example =
    assert_mapping_stable-stable_iff plain [] seen_first seen_later between
      (mapped plain seen_first) seen_first-accepted refl
