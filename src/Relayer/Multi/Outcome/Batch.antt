-- ===== src/Relayer/Multi/Outcome/Batch.antt =====
-- The batch of executions, and what a scan that returns or throws promises.
use anti_soon.Prelude.{
  ℕ, ◌≤◌, ◌+◌, String, ◌≡◌, refl, length, some, List, [], ◌∷◌, ◌++◌, ok, err, arith, eq_iff,
}
use anti_soon.Prelude.Map
use anti_soon.Relayer.Idempotency.{quarantined}
use anti_soon.Relayer.CursorState.{PendingItem, Session}
use anti_soon.Relayer.CursorState.Claim.{mark_durable_queue_item_quarantined}
use anti_soon.Relayer.CursorState.Runs.Progress.{cursor, status_of}
use anti_soon.Relayer.RetryPolicy.Errors.{Thrown}
use anti_soon.Relayer.RunPlan.{RunOnceConfig, RunOncePlan}
use anti_soon.Relayer.ScanRanges.{BlockRange}
use anti_soon.Relayer.Scan.{World, ScanError, retry_error}
use anti_soon.Relayer.Multi

-- A journal of a runtime: the submissions whose reveals it has executed, the first one first. Reads and
-- executions that throw leave the journal alone, an execution that returns is entered last.
pub record Journal {E : Type 0} (runtime : Multi.MultiRuntime E) : Type 0 where
  pub executed : E → List ℕ
  pub clock : (e : E) → executed (runtime.get_now_timestamp_sec e).1 ≡ executed e
  pub logs :
      (range : BlockRange) (e : E)
      → executed (runtime.get_queued_reveal_logs range e).1 ≡ executed e
  pub submissions : (id : ℕ) (e : E) → executed (runtime.read_submission id e).1 ≡ executed e
  pub projects : (id : ℕ) (e : E) → executed (runtime.read_project id e).1 ≡ executed e
  pub reveals : (id : ℕ) (e : E) → executed (runtime.read_queued_reveal id e).1 ≡ executed e
  pub enters :
      (id : ℕ) (e : E) (tx_hash : String)
      → (runtime.execute_queued_reveal id e).0 ≡ ok tx_hash
      → executed (runtime.execute_queued_reveal id e).1 ≡ executed e ++ id ∷ []
  pub fails :
      (id : ℕ) (e : E) (t : Thrown)
      → (runtime.execute_queued_reveal id e).0 ≡ err t
      → executed (runtime.execute_queued_reveal id e).1 ≡ executed e

-- Where the error is that of an execution, some item is quarantined.
abbrev pub Blames : ScanError → Session → Type 0
Blames (retry_error _) s = (key : String) × (status_of s key ≡ some quarantined)
Blames _ s = Unit

-- No more executions than the batch allows, and each one's submission is listed.
abbrev pub IsBatch : ℕ → Multi.Execution → Type 0
IsBatch limit acc =
    (acc.executed_count ≤ limit) × (length acc.executed_submission_ids ≡ acc.executed_count)

module _ {E : Type 0} {runtime : Multi.MultiRuntime E} (journal : Journal runtime)
    (config : RunOnceConfig) (base : List ℕ) where
  -- Since the journal was `base`, exactly the submissions `ids` have been entered.
  abbrev pub HasRun : List ℕ → World E → Type 0
  HasRun ids w = journal.executed w.env ≡ base ++ ids

  -- What holds when a scan throws: the batch was kept, too.
  abbrev pub IsBroken : ScanError → World E → Type 0
  IsBroken e w =
      Blames e w.session
      × (ids : List ℕ) × (length ids ≤ config.max_execution_batch_size)
      × HasRun ids w

  -- What holds when a scan returns.
  pub record IsDone (plan : RunOncePlan) (r : Multi.ScannerResult) (w : World E) : Type 0 where
    pub executed : HasRun r.executed_submission_ids w
    pub batch : r.executed_count ≤ config.max_execution_batch_size
    pub listed : length r.executed_submission_ids ≡ r.executed_count
    pub advanced : cursor w.session ≡ plan.to_block
    pub reported : r.cursor_advanced_to_block ≡ plan.to_block

  -- the executions so far, within the batch
  abbrev pub IsBatched : Multi.Execution → World E → Type 0
  IsBatched acc w =
      IsBatch config.max_execution_batch_size acc × HasRun acc.executed_submission_ids w

  pub batch-IsBroken :
      (e : ScanError) (acc : Multi.Execution) (w : World E)
      → IsBatch config.max_execution_batch_size acc
      → HasRun acc.executed_submission_ids w
      → Blames e w.session
      → IsBroken e w
  batch-IsBroken e acc w h k b = (b, acc.executed_submission_ids, omega (arith, h), k)

pub marked_quarantined :
    (s : Session) (key : String) (now_ms : ℕ)
    → status_of (mark_durable_queue_item_quarantined s key now_ms) key ≡ some quarantined
unfolding mark_durable_queue_item_quarantined
marked_quarantined s key now_ms =
    ground (arith, Map.get-set s.store.queue_item_status key key quarantined, eq_iff key key)

length-snoc : (l : List ℕ) (x : ℕ) → length (l ++ (x ∷ [])) ≡ length l + 1
length-snoc [] x = refl
length-snoc (y ∷ l) x = ground (arith, length-snoc l x)

pub grown :
    {limit : ℕ} (item : PendingItem) (acc : Multi.Execution)
    → IsBatch limit acc
    → length (acc.executed_submission_ids ++ (item.submission_id ∷ [])) ≡ acc.executed_count + 1
grown item acc h = ground (arith, length-snoc acc.executed_submission_ids item.submission_id)
