-- ===== src/Relayer/Keys.antt =====
-- workflow/auto-reveal-relayer/idempotency.ts: the idempotency keys. The digest (viem's `sha256` of
-- the text's bytes) and `toLowerCase` are parameters. The numbers are bigints that are not negative.
use Prim.Native.Nat.{Ordering}
use Prim.Native.String
use anti_soon.Prelude.{ℕ, String, Result, ok, err, List, [], ◌∷◌, ◌==◌, if◌then◌else◌}
use anti_soon.Prelude.Decimal.{to_string}
use package.text.Mathlib.Text.{starts_with}

-- What the relayer uses of its host.
pub record Platform : Type 0 where
  pub to_lower_case : String → String
  pub sha256 : String → String
  pub locale_compare : String → String → Ordering

-- `AutoRevealQueueItemIdentity` and `AutoRevealCommittedCandidateIdentity`: the same fields, but for
-- the prefix `queue` or `commit` of the hash, the log index and the block number.
pub record ItemIdentity : Type 0 where
  pub chain_id : ℕ
  pub bounty_hub_address : String
  pub tx_hash : String
  pub log_index : ℕ
  pub block_number : ℕ
  pub project_id : ℕ
  pub submission_id : ℕ

-- `label must be a 32-byte hex value`
pub data KeyError : Type 0 where
  not_bytes32 : (label : String) → KeyError

unfoldable pub normalize_bytes32 : Platform → String → String → Result KeyError String
normalize_bytes32 platform value label =
    let lower = platform.to_lower_case value in
    let normalized : String = if starts_with lower "0x" then lower else String.◌++◌ "0x" lower in
    if String.count normalized == 66 then ok normalized else err (not_bytes32 label)

-- `parts.join("|")`
join : List String → String
join [] = ""
join (x ∷ []) = x
join (x ∷ y ∷ xs) = String.◌++◌ x (String.◌++◌ "|" (join (y ∷ xs)))

payload : Platform → String → ItemIdentity → String → String
unfolding join to_string
payload platform version item tx_hash = join (
    version
    ∷ to_string item.chain_id
    ∷ platform.to_lower_case item.bounty_hub_address
    ∷ tx_hash
    ∷ to_string item.log_index
    ∷ to_string item.block_number
    ∷ to_string item.project_id
    ∷ to_string item.submission_id
    ∷ [])

derive_key : String → String → Platform → ItemIdentity → Result KeyError String
unfolding normalize_bytes32 payload
derive_key version label platform item = elim (normalize_bytes32 platform item.tx_hash label) [
  | err e ↦ err e
  | ok tx_hash ↦ ok (platform.sha256 (payload platform version item tx_hash))
]

unfoldable pub derive_queue_item_idempotency_key : Platform → ItemIdentity → Result KeyError String
unfolding derive_key
derive_queue_item_idempotency_key = derive_key "anti-soon.auto-reveal.idempotency.v1" "queueTxHash"

unfoldable pub derive_committed_candidate_idempotency_key :
    Platform → ItemIdentity → Result KeyError String
unfolding derive_key
derive_committed_candidate_idempotency_key =
    derive_key "anti-soon.auto-reveal.unique-commit.v1" "commitTxHash"
