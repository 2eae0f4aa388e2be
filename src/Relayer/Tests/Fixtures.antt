-- ===== src/Relayer/Tests/Fixtures.antt =====
-- The inputs of the tests.
use anti_soon.Prelude.{none, some, [], true}
use anti_soon.Relayer.CursorState.{Session, create_cursor_store}
use anti_soon.Relayer.CursorState.Claim.{claim_durable_queue_item}
use anti_soon.Relayer.CursorState.Pending.{NewItem}
use anti_soon.Relayer.RunPlan.{RunOnceConfig}

abbrev pub empty_session : Session
empty_session = record { store = create_cursor_store none true; saved = [] }

abbrev pub claimed_session : Session
claimed_session =
    (claim_durable_queue_item empty_session "a" 7 100
      (some (record { submission_id = 4; project_id = 2 }))).0

abbrev pub some_item : NewItem
some_item = record {
  idempotency_key = "a";
  submission_id = 4;
  project_id = 2;
  block_number = 7;
  tx_hash = "0xaa";
  log_index = 1;
}

abbrev pub config : RunOnceConfig
config = record {
  public_rpc_url = "http://public";
  admin_rpc_url = "http://admin";
  private_key = "0x01";
  bounty_hub_address = "0xBB";
  chain_id = 11155111;
  lookback_blocks = 5000;
  replay_overlap_blocks = 12;
  log_chunk_blocks = 5000;
  max_execution_batch_size = 25;
  cursor_file = "cursor.json";
}
