-- ===== src/Relayer/Scan/Logs.antt =====
-- The order in which the logs of a range are taken, and the window of a plan.
use Prim.Native.Nat.{Ordering}
use anti_soon.Prelude.{ℕ, String, Bool, ◌||◌, List, ◌==◌, ltb, if◌then◌else◌}
use anti_soon.Prelude.Sort
use anti_soon.Relayer.Keys.{Platform}
use anti_soon.Relayer.RunPlan.{RunOncePlan}

-- Where a log stands on the chain.
pub record LogPosition : Type 0 where
  pub block_number : ℕ
  pub log_index : ℕ
  pub transaction_hash : String

unfoldable pub compare_position : Platform → LogPosition → LogPosition → Ordering
compare_position platform left right =
    if left.block_number == right.block_number
    then (if left.log_index == right.log_index
        then platform.locale_compare left.transaction_hash right.transaction_hash
        else if ltb left.log_index right.log_index
        then Ordering.lt
        else Ordering.gt)
    else if ltb left.block_number right.block_number
    then Ordering.lt
    else Ordering.gt

unfoldable pub sort_logs : {A : Type 0} → Platform → (A → LogPosition) → List A → List A
unfolding compare_position
sort_logs platform position =
    Sort.sort (λ left right. compare_position platform (position left) (position right))

abbrev pub is_outside : RunOncePlan → ℕ → Bool
is_outside plan block = ltb block plan.from_block || ltb plan.to_block block
