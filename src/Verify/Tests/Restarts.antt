-- ===== src/Verify/Tests/Restarts.antt =====
-- A store that is created, used and loaded again.
use Prim.Native.Nat.{Ordering}
use anti_soon.Prelude.{String, ◌≡◌, refl, true, false, List, [], ◌∷◌, ok, eq_iff}
use anti_soon.Prelude.Map.{get, has}
use anti_soon.Verify.Mapping.{Derivations}
use anti_soon.Verify.Slots.{claim_idempotency_slot}
use anti_soon.Prelude.Json.{Disk}
use anti_soon.Verify.Store.{Store, persist_store, claim_durable_slot}
use anti_soon.Verify.Store.Load.{build_empty_store, load_store}
use anti_soon.Verify.Store.Restart.{IsDurable}
use anti_soon.Verify.Store.Runs.{
  DurableOp, claim, complete, assert_mapping, apply, run, persist_store-IsSaved,
}
use anti_soon.Verify.Store.Crash.{ComesBack, IsRefusedAfter, run-ComesBack, run-IsRefusedAfter}

abbrev flat : String → String → Ordering
flat left right = Ordering.eq

abbrev by_source : Derivations String
by_source = record {
  source_event_key = λ e. e;
  mapping_fingerprint = λ e. e;
  idempotency_key = λ e. e;
}

abbrev session : List (DurableOp String)
session = claim "a" 10 ∷ assert_mapping "event" 11 ∷ claim "b" 12 ∷ complete "b" 13 ∷ []

run-ComesBack_example :
    (s : Store) × ((load_store flat "store.json" true 1 []).0 ≡ ok s)
    × ComesBack flat "store.json" 20
        (run flat by_source session (s, (load_store flat "store.json" true 1 []).1))
unfolding has get
run-ComesBack_example = run-ComesBack flat by_source "store.json" 1 20 [] session refl

abbrev fresh : Store
fresh = build_empty_store "store.json" true

abbrev written : Disk
written = persist_store flat fresh []

fresh-IsDurable : IsDurable flat fresh written
unfolding build_empty_store
fresh-IsDurable = record {
  saved = persist_store-IsSaved flat fresh [] refl;
  file_ops = refl;
  statuses_keyed = tt;
  mappings_keyed = tt;
}

fresh-granted : (claim_durable_slot flat fresh written "a" 10).2.should_process ≡ true
unfolding claim_durable_slot build_empty_store claim_idempotency_slot get
fresh-granted = refl

abbrev in_between : List (DurableOp String)
in_between = assert_mapping "event" 11 ∷ claim "b" 12 ∷ complete "b" 13 ∷ claim "a" 14 ∷ []

run-IsRefusedAfter_example :
    IsRefusedAfter flat "a" 20
      (run flat by_source in_between (apply flat by_source (claim "a" 10) (fresh, written)))
run-IsRefusedAfter_example =
    run-IsRefusedAfter flat by_source fresh written "a" 10 20 in_between fresh-IsDurable
      fresh-granted
      (tt, (tt, ((λ q. (let t : false ≡ true = (eq_iff "b" "a").1 q in cc)), (tt, tt))))
