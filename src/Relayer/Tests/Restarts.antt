-- ===== src/Relayer/Tests/Restarts.antt =====
-- Queue items that are written, and read again after a restart.
use Prim.Native.Nat.{Ordering}
use anti_soon.Prelude.{◌≡◌, refl, sym, subst, String, some, [], ◌∷◌, ok}
use anti_soon.Prelude.Map.{set, get-set_self}
use anti_soon.Prelude.Json.{Disk}
use anti_soon.Relayer.CursorState.{CursorStore, Session, create_cursor_store}
use anti_soon.Relayer.CursorState.Runs.{run}
use anti_soon.Relayer.CursorState.Runs.Invariant.{last_saved, run-IsWellFormed}
use anti_soon.Relayer.CursorFile.{cursor_payload}
use anti_soon.Relayer.CursorFile.Load.{load_cursor_store}
use anti_soon.Relayer.CursorFile.Restored.{IsRestored, IsRewritten}
use anti_soon.Relayer.CursorFile.Restart.{load_cursor_store-IsRestored}
use anti_soon.Relayer.CursorFile.Runs.{
  IsKept, HoldsLast, Reloads, run-IsKept, last-IsStored, run-Reloads,
}
use anti_soon.Relayer.Tests.Fixtures.{empty_session}
use anti_soon.Relayer.Tests.Store.{upserts, upserts-AreAdmissible, empty-IsWellFormed}
use anti_soon.Relayer.Tests.Decimals.{decimal_numbers, decimal_numbers-ReadsDecimals}

abbrev flat : String → String → Ordering
flat left right = Ordering.eq

abbrev start : Session
start = record empty_session { saved = empty_session.store ∷ [] }

start-IsKept : IsKept start
unfolding create_cursor_store
start-IsKept = record { keyed = tt; persists = refl }

abbrev final : Session
final = run upserts start

abbrev written : Disk
written = set [] final.store.file_path (some (cursor_payload flat final.store))

written-HoldsLast : HoldsLast flat (last_saved final.saved) written
written-HoldsLast =
    let well_formed = run-IsWellFormed upserts start upserts-AreAdmissible empty-IsWellFormed in
    subst (λ o. HoldsLast flat o written)
      (sym (well_formed.durable (run-IsKept upserts start start-IsKept).persists))
      (get-set_self [] final.store.file_path (some (cursor_payload flat final.store)))

run-Reloads_example : Reloads flat decimal_numbers 500 final.store written
run-Reloads_example =
    run-Reloads flat decimal_numbers-ReadsDecimals 500 upserts start written upserts-AreAdmissible
      empty-IsWellFormed start-IsKept written-HoldsLast

load_cursor_store-IsRestored_example :
    (t : CursorStore) × (disk' : Disk) × (load_cursor_store decimal_numbers flat
        final.store.file_path 500 written
      ≡ (ok t, disk'))
    × IsRestored 500 final.store t
    × IsRewritten flat t written disk'
load_cursor_store-IsRestored_example =
    load_cursor_store-IsRestored flat decimal_numbers-ReadsDecimals 500 final.store written (
      last-IsStored flat final written
        (run-IsWellFormed upserts start upserts-AreAdmissible empty-IsWellFormed)
        (run-IsKept upserts start start-IsKept) written-HoldsLast)
