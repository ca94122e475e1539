-- ===== src/HeaderSync/Confirm.antt =====
-- SyncConfirmation of core/headersync/headersync.go, with refreshAuthForRemotes, tryRefreshAuth,
-- sendPriorSyncToRemotes, buildPriorSyncMsg, priorSyncRange and interpretSyncResponse. The peers are
-- asked for new tokens one after the other, where the source asks them at once. What a peer answers may
-- change with every call: the network is part of a state.
pub mod Answers
use Prim.Native.String.{String}
use text.Mathlib.Text.{◌==◌ as str_eq}
use jmdn_fast_sync.Common.{
  ℕ, zero, suc, Bool, true, false, ◌&&◌, Option, none, some, List, [], ◌∷◌, if◌then◌else◌,
}
use jmdn_fast_sync.Common.Result.{Result, ok, fails}
use jmdn_fast_sync.Checksum.{MerkleRange, PriorMetadata, PriorSync, Encoded, u16, create_from_pb}
use jmdn_fast_sync.DataSync.Queue.Fetch.{Remote}
use jmdn_fast_sync.Pots.BlockMap.{Bytes}
use jmdn_fast_sync.Router.{PriorSyncMessage, HeaderSyncMessage}
use jmdn_fast_sync.Router.Sync.{Registration, register_with_client}
use jmdn_fast_sync.Tag.{Tag}
use jmdn_fast_sync.Wire.{Auth, Phase, data_sync_request}

abbrev pub max_retries : ℕ
max_retries = 2

-- What a response says: the trees match, they differ in the blocks of a tag, it is a success without its
-- payload, or it does not say.
pub data Verdict : Type 0 where
  matching invalid ambiguous : Verdict
  differing : Tag → Verdict

-- The second test of interpretSyncResponse.
unfoldable pub tag_of_response : Option HeaderSyncMessage → Verdict
tag_of_response none = ambiguous
tag_of_response (some h) = elim h.tag [ none ↦ ambiguous | some tag ↦ differing tag ]

-- `resp.Phase != nil && resp.Phase.Success`
abbrev pub is_success : Option Phase → Bool
is_success none = false
is_success (some phase) = phase.success

-- `resp.Headersync.Tag == nil && resp.Phase.SuccessivePhase == DATA_SYNC_REQUEST`
abbrev pub is_match : HeaderSyncMessage → Option Phase → Bool
is_match h none = false
is_match h (some phase) = elim h.tag [
  | none ↦ str_eq phase.successive_phase data_sync_request
  | some tag ↦ false
]

-- `interpretSyncResponse`
unfoldable pub interpret : {Snapshot : Type 0} → PriorSyncMessage Snapshot → Verdict
unfolding tag_of_response
interpret m =
    if is_success m.phase
    then elim m.headersync [
      | none ↦ invalid
      | some h ↦ if is_match h m.phase then matching else tag_of_response (some h)
    ]
    else tag_of_response m.headersync

-- The node's own latest block, as `GetBlockDetails` returns it.
pub record Details : Type 0 where
  pub blocknumber : ℕ
  pub stateroot : Bytes
  pub blockhash : Bytes
  pub range : Option MerkleRange
  pub version : ℕ

unfoldable pub prior_sync_range : Details → MerkleRange
prior_sync_range details = elim details.range [
  | some range ↦ range
  | none ↦ record { start = 0; end = details.blocknumber }
]

abbrev pub own_prior_sync : {Snapshot : Type 0} → Details → Bytes → PriorSync Snapshot
own_prior_sync details checksum = record {
  blocknumber = details.blocknumber;
  stateroot = details.stateroot;
  blockhash = details.blockhash;
  metadata = some (record { checksum = checksum; version = details.version });
  merklesnapshot = none;
  range = some (prior_sync_range details);
}

-- The outcome of a confirmation, with the token of the peer that answered.
pub data Confirmation : Type 0 where
  synced : Auth → Confirmation
  diverged : Tag → Auth → Confirmation
  aborted : Confirmation

-- The node and the network: `build_snapshot` is buildMerkleSnapshot up to a height, `ask` sends an
-- availability request, `compare` a PriorSync message with the snapshot. `none` is an error.
pub record Network (State Peer Snapshot : Type 0) : Type 0 where
  pub details : State → Details
  pub build_snapshot : State → ℕ → Option Snapshot
  pub ask : State → Peer → ℕ → State × Option Registration
  pub compare :
      State
      → Snapshot
      → Peer
      → PriorSync Snapshot
      → Auth
      → State × Option (PriorSyncMessage Snapshot)
  pub crc32 : Bytes → ℕ
  pub sha256 : Bytes → Bytes
  pub marshal : Encoded → Result Bytes

module _ {State Peer Snapshot : Type 0} (network : Network State Peer Snapshot) where
  open network use {details, build_snapshot, ask, compare, crc32, sha256, marshal}

  -- `buildPriorSyncMsg`, which computes the checksum before it sets the version.
  unfoldable pub build_prior_sync_msg : Details → Option (PriorSync Snapshot)
  unfolding prior_sync_range
  build_prior_sync_msg d =
      elim (create_from_pb crc32 sha256 marshal (own_prior_sync {Snapshot = Snapshot} d [])
        (u16 d.version)) [ fails e ↦ none | ok checksum ↦ some (own_prior_sync d checksum) ]

  -- The attempts of `tryRefreshAuth`.
  unfoldable pub try_refresh : ℕ → State → Peer → ℕ → State × Option Auth
  try_refresh zero s peer top = (s, none)
  try_refresh (suc left) s peer top =
      let (s', reply) = ask s peer top in
      let retry = try_refresh left s' peer top in
      elim (register_with_client reply) [
        | none ↦ retry
        | some uuid ↦ (s', some (record { uuid = uuid }))
      ]

  -- `refreshAuthForRemotes`: the remotes with their new tokens, and the peers that gave one.
  unfoldable pub refresh :
      State → List (Remote Peer) → ℕ → State × List (Remote Peer) × List (Peer × Auth)
  unfolding try_refresh
  refresh s [] top = (s, [], [])
  refresh s (r ∷ rs) top = elim r.peer [
    | none ↦ let (s', rs', fresh) = refresh s rs top in (s', r ∷ rs', fresh)
    | some peer ↦
        let (s1, token) = try_refresh max_retries s peer top in
        let (s2, rs', fresh) = refresh s1 rs top in
        elim token [
          | none ↦ (s2, r ∷ rs', fresh)
          | some auth ↦ (s2, record r { auth = some auth } ∷ rs', (peer, auth) ∷ fresh)
        ]
  ]

  -- `sendPriorSyncToRemotes`
  unfoldable pub send_prior_sync :
      State → Snapshot → Details → List (Peer × Auth) → State × Confirmation
  unfolding build_prior_sync_msg interpret
  send_prior_sync s snapshot d [] = (s, aborted)
  send_prior_sync s snapshot d ((peer, auth) ∷ peers) = elim (build_prior_sync_msg d) [
    | none ↦ (s, aborted)
    | some message ↦
        let (s', reply) = compare s snapshot peer message auth in
        let next = send_prior_sync s' snapshot d peers in
        elim reply [
          | none ↦ next
          | some m ↦ elim (interpret m) [
            | matching ↦ (s', synced auth)
            | differing tag ↦ (s', diverged tag auth)
            | invalid ↦ (s', aborted)
            | ambiguous ↦ next
          ]
        ]
  ]

  -- `SyncConfirmation`, with the remotes before and after.
  unfoldable pub sync_confirmation :
      State → List (Remote Peer) → State × List (Remote Peer) × Confirmation
  unfolding refresh send_prior_sync
  sync_confirmation s remotes =
      let d = details s in
      elim (build_snapshot s d.blocknumber) [
        | none ↦ (s, remotes, aborted)
        | some snapshot ↦
            let (s', remotes', fresh) = refresh s remotes d.blocknumber in
            let (s'', outcome) = send_prior_sync s' snapshot d fresh in (s'', remotes', outcome)
      ]
