-- ===== src/Relayer/RunPlan.antt =====
-- workflow/auto-reveal-relayer/run-once-core.ts: the configuration of a cycle and `buildRunOncePlan`.
pub mod Window
use anti_soon.Prelude.{ℕ, ◌+◌, ◌-◌, String, Option, none, some, ltb, if◌then◌else◌}

pub record RunOnceConfig : Type 0 where
  pub public_rpc_url : String
  pub admin_rpc_url : String
  pub private_key : String
  pub bounty_hub_address : String
  pub chain_id : ℕ
  pub lookback_blocks : ℕ
  pub replay_overlap_blocks : ℕ
  pub log_chunk_blocks : ℕ
  pub max_execution_batch_size : ℕ
  pub cursor_file : String

pub record RunOncePlan : Type 0 where
  pub chain_id : ℕ
  pub public_rpc_url : String
  pub admin_rpc_url : String
  pub bounty_hub_address : String
  pub cursor_file : String
  pub cursor_last_finalized_block : ℕ
  pub recovered_processing_count : ℕ
  pub quarantined_item_count : ℕ
  pub replay_overlap_blocks : ℕ
  pub log_chunk_blocks : ℕ
  pub max_execution_batch_size : ℕ
  pub from_block : ℕ
  pub to_block : ℕ

-- The optional `cursorState`.
pub record CursorCounts : Type 0 where
  pub recovered_processing_count : Option ℕ
  pub quarantined_item_count : Option ℕ

-- `o ?? 0`
abbrev or_zero : Option ℕ → ℕ
or_zero none = 0
or_zero (some n) = n

abbrev pub safe_anchor : ℕ → ℕ → ℕ
safe_anchor last_processed overlap =
    if ltb overlap last_processed then last_processed - overlap else 0

unfoldable pub build_run_once_plan : RunOnceConfig → ℕ → CursorCounts → RunOncePlan
build_run_once_plan config last_processed_block cursor_state =
    let from = safe_anchor last_processed_block config.replay_overlap_blocks + 1 in
    record {
      chain_id = config.chain_id;
      public_rpc_url = config.public_rpc_url;
      admin_rpc_url = config.admin_rpc_url;
      bounty_hub_address = config.bounty_hub_address;
      cursor_file = config.cursor_file;
      cursor_last_finalized_block = last_processed_block;
      recovered_processing_count = or_zero cursor_state.recovered_processing_count;
      quarantined_item_count = or_zero cursor_state.quarantined_item_count;
      replay_overlap_blocks = config.replay_overlap_blocks;
      log_chunk_blocks = config.log_chunk_blocks;
      max_execution_batch_size = config.max_execution_batch_size;
      from_block = from;
      to_block = from + config.lookback_blocks - 1;
    }
