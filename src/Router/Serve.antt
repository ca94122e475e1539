-- ===== src/Router/Serve.antt =====
-- What the router serves once a request is authenticated: HEADER_SYNC, DATA_SYNC, FULL_SYNC and
-- REQUEST_MERKLE of core/protocol/router/data_router.go.
use Prim.Native.String.{String}
use jmdn_fast_sync.Common.{
  ℕ, Bool, ◌+◌, Option, none, some, List, [], ◌∷◌, ◌++◌, length, add64, sub64, ltb, ◌==◌,
  if◌then◌else◌,
}
use jmdn_fast_sync.Common.Result.{Result, ok, fails, Answer, answered, panicked, endless}
use jmdn_fast_sync.Bisection.{Trees}
use jmdn_fast_sync.Checksum.{MerkleRange, PriorSync}
use jmdn_fast_sync.Pots.BlockMap.{Bytes}
use jmdn_fast_sync.Router.{
  Transfer, NonHeaders, Chain, HeaderSyncMessage, PriorSyncMessage, HeaderSyncResponse,
  DataSyncResponse, refused, failed_phase,
}
use jmdn_fast_sync.Tag.{RangeTag, Tag, Tagging, new_tagging, tag_accounts}
use jmdn_fast_sync.Tag.Divide.{divide_tags}
use jmdn_fast_sync.Wire.{
  Ack, Phase, failure, accepted, success_phase, header_sync_request, header_sync_response,
  data_sync_response,
}

abbrev pub merge_request : String
merge_request = "state:merge:mergerequest"

abbrev pub full_sync_request : String
full_sync_request = "state:priorsync:fullsyncrequest"

abbrev pub request_merkle : String
request_merkle = "state:merkle:merklerequest"

abbrev pub response_merkle : String
response_merkle = "state:merkle:merkleresponse"

abbrev pub no_chain : String
no_chain = "nodeinfo or blockinfo is nil"

-- The loop over `Tag.Range`, which appends what each range returns.
unfoldable pub fetch_ranges {ℓ} :
    {A : Type ℓ} → (ℕ → ℕ → Result (List A)) → List A → List RangeTag → Result (List A)
fetch_ranges query found [] = ok found
fetch_ranges query found (r ∷ rs) = elim (query r.start r.end) [
  | fails e ↦ fails e
  | ok more ↦ fetch_ranges query (found ++ more) rs
]

abbrev pub headers_refused : String → HeaderSyncResponse
headers_refused text = record {
  header = [];
  ack = refused text;
  phase = failed_phase header_sync_response failure text none;
}

-- HEADER_SYNC
unfoldable pub header_sync : Option Chain → Tag → HeaderSyncResponse
unfolding fetch_ranges
header_sync none tag = headers_refused no_chain
header_sync (some chain) tag = elim (chain.headers tag.block_number) [
  | fails e ↦ headers_refused e
  | ok found ↦ elim (fetch_ranges chain.headers_range found tag.range) [
    | fails e ↦ headers_refused e
    | ok all ↦ record {
      header = all;
      ack = accepted;
      phase = success_phase header_sync_response merge_request none;
    }
  ]
]

abbrev pub data_refused : String → DataSyncResponse
data_refused text = record {
  content = [];
  taggedaccounts = [];
  ack = refused text;
  phase = failed_phase data_sync_response failure text none;
}

-- `hex.EncodeToString` is a parameter.
module _ (encode : Bytes → String) where
  -- `if len(address) > 0 { tagger.TagAccounts(...) }`
  abbrev pub tag_address : Bytes → Tagging → Tagging
  tag_address address t = if length address == 0 then t else tag_accounts t (encode address)

  unfoldable pub tag_transfers : Tagging → List (Option Transfer) → Tagging
  tag_transfers t [] = t
  tag_transfers t (none ∷ txs) = tag_transfers t txs
  tag_transfers t (some tx ∷ txs) = tag_transfers (tag_address tx.to (tag_address tx.from t)) txs

  unfoldable pub tag_blocks : Tagging → List NonHeaders → Tagging
  unfolding tag_transfers
  tag_blocks t [] = t
  tag_blocks t (b ∷ bs) = tag_blocks (tag_transfers t b.transactions) bs

  -- DATA_SYNC, for a request with a tag. The block numbers are queried only if there are any.
  unfoldable pub data_sync : Option Chain → Tag → DataSyncResponse
  unfolding fetch_ranges tag_blocks
  data_sync none tag = data_refused no_chain
  data_sync (some chain) tag =
      let single =
        if ltb 0 (length tag.block_number) then chain.non_headers tag.block_number else ok [] in
      elim single [
        | fails e ↦ data_refused e
        | ok found ↦ elim (fetch_ranges chain.non_headers_range found tag.range) [
          | fails e ↦ data_refused e
          | ok all ↦ record {
            content = all;
            taggedaccounts = (tag_blocks new_tagging all).account_tag;
            ack = accepted;
            phase = success_phase data_sync_response merge_request none;
          }
        ]
      ]

abbrev pub header_sync_message : Option Tag → Phase → HeaderSyncMessage
header_sync_message tag phase = record { tag = tag; ack = accepted; phase = phase }

-- FULL_SYNC
unfoldable pub full_sync :
    {Snapshot : Type 0} → PriorSync Snapshot → ℕ → Answer (PriorSyncMessage Snapshot)
full_sync request blocknumber =
    elim (divide_tags (blocknumber + 2) request.blocknumber blocknumber) [
      | none ↦ endless
      | some tags ↦ answered (record {
        priorsync = some request;
        ack = some accepted;
        phase = some (success_phase full_sync_request header_sync_request none);
        headersync = some (
            header_sync_message (some tags)
              (success_phase header_sync_request header_sync_response none));
      })
    ]

-- `SnapshotConfig` of common/proto/merkle; both numbers are machine integers.
pub record SnapshotConfig : Type 0 where
  pub block_merge : ℕ
  pub expected_total : ℕ

-- A Merkle reply; the snapshot is missing on an error.
pub record MerkleMessage (Snapshot : Type 0) : Type 0 where
  pub snapshot : Option Snapshot
  pub ack : Ack
  pub phase : Phase

-- The configuration that REQUEST_MERKLE builds with: the requester's if it names a positive merge, else
-- one of 5 % of the range. The ceiling of the product in doubles is a parameter.
unfoldable pub merkle_config : (ℕ → ℕ) → MerkleRange → Option SnapshotConfig → SnapshotConfig
merkle_config merge_of range requested =
    let total = add64 (sub64 range.end range.start) 1 in
    let default : SnapshotConfig = record {
      block_merge = merge_of total;
      expected_total = total;
    } in
    elim requested [
      | none ↦ default
      | some config ↦ if ltb 0 config.block_merge then config else default
    ]

-- The text of an error of the Merkle library, by the call that failed.
pub data Stage : Type 0 where
  reconstruction generation target_root local_root bisection conversion : Stage

module _ (trees : Trees) (to_snapshot : trees.Builder → Option trees.Snapshot) where
  -- REQUEST_MERKLE. `panics` says of which ranges the generation panics, as a gap in the range is longer than
  -- `make` allows.
  unfoldable pub serve_merkle :
      (Stage → String)
      → (ℕ → ℕ → Bool)
      → (ℕ → ℕ)
      → Option Chain
      → MerkleRange
      → Option SnapshotConfig
      → Answer (MerkleMessage trees.Snapshot)
  unfolding merkle_config
  serve_merkle text panics merge_of chain range requested =
      let config = merkle_config merge_of range requested in
      let refuse : String → MerkleMessage trees.Snapshot = λ e. record {
        snapshot = none;
        ack = refused e;
        phase = failed_phase request_merkle failure e none;
      } in
      let generated : MerkleMessage trees.Snapshot =
        elim (trees.generate range.start range.end config.block_merge config.expected_total) [
          | none ↦ refuse (text generation)
          | some tree ↦ elim (to_snapshot tree) [
            | none ↦ refuse (text conversion)
            | some snapshot ↦ record {
              snapshot = some snapshot;
              ack = accepted;
              phase = success_phase request_merkle response_merkle none;
            }
          ]
        ] in
      elim chain [
        | none ↦ answered (refuse no_chain)
        | some chain' ↦ if panics range.start range.end then panicked else answered generated
      ]
