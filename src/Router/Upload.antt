-- ===== src/Router/Upload.antt =====
-- The upload of a client's nonces: HandleAccountsSync and ACCOUNTS_SYNC of
-- core/protocol/router/data_router.go, the loop of HandleAccountsSync and the drain of
-- core/sync/sync_protocols.go, ARTChecksumValid, LockedART and the factory of replies of
-- core/protocol/router/helper/accounts. The tree of nonces, its encoding, the two checksums and the dispatch
-- of the missing accounts, which AccountSync models, are parameters. Heartbeats are left out.
pub mod Frames
pub mod Sessions
pub mod Chunks
use Prim.Native.String.{String, ◌++◌ as joined}
use text.Mathlib.Text.{◌==◌ as str_eq}
use jmdn_fast_sync.Common.{
  ℕ, Bool, true, false, not, Option, none, some, List, [], ◌∷◌, length, ◌==◌, if◌then◌else◌,
}
use jmdn_fast_sync.Common.Result.{Result, ok, fails, Answer, answered, ◌>>=◌}
use jmdn_fast_sync.AccountSync.Dispatcher.{
  Dispatcher, Callbacks, Summary, default_config, new_dispatcher, summarise,
}
use jmdn_fast_sync.Checksum.{Encoded, verify}
use jmdn_fast_sync.Pots.BlockMap.{Bytes}
use jmdn_fast_sync.Router.{
  Tokens, Service, refused, failed_phase, auth_required, authentication_failed, gate,
}
use jmdn_fast_sync.Router.Replies.{unknown_state}
use jmdn_fast_sync.Tag.{RangeTag}
use jmdn_fast_sync.Wire.{Auth, Ack, Phase, failure, accepted, success_phase}

abbrev pub accounts_sync_request : String
accounts_sync_request = "state:accountssync:accountssyncrequest"

abbrev pub accounts_sync_response : String
accounts_sync_response = "state:accountssync:accountssyncresponse"

-- `Checksum` of common/proto/checksum.
pub record ArtChecksum : Type 0 where
  pub checksum : Bytes
  pub version : ℕ

-- `AccountNonceSyncRequest`
pub record UploadRequest : Type 0 where
  pub art : Bytes
  pub total_keys : ℕ
  pub keys_range : Option RangeTag
  pub batch_index : ℕ
  pub is_last : Bool
  pub phase : Option Phase
  pub checksum : Option ArtChecksum

-- The replies that the upload has, of `AccountSyncServerMessage`.
pub data ServerMessage : Type 0 where
  batch_ack : (batch_index : ℕ) (ack : Ack) → ServerMessage
  end_of_stream :
      (total_pages total_accounts : ℕ) (ack : Ack) (phase : Option Phase) → ServerMessage

-- `ErrEndOfStream`
abbrev pub err_end_of_stream : String → ServerMessage
err_end_of_stream text =
    end_of_stream 0 0 (refused text) (some (failed_phase accounts_sync_response failure text none))

-- `BatchAck`
abbrev pub ok_batch_ack : ℕ → ServerMessage
ok_batch_ack index = batch_ack index accepted

-- The end of ACCOUNTS_SYNC.
abbrev pub diff_complete : Summary → Option Auth → ServerMessage
diff_complete summary auth =
    end_of_stream summary.delivered_pages summary.delivered_accounts accepted
      (some (success_phase accounts_sync_response accounts_sync_response auth))

-- The switch of the upload loop: an end closes the stream, as does an acknowledgement that cannot be
-- written.
abbrev pub stays_open : ServerMessage → Bool → Bool
stays_open (batch_ack index ack) sent = sent
stays_open (end_of_stream pages accounts ack phase) sent = false

-- `drainAndRejectAccountsSync`, over the frames that can be read.
unfoldable pub drain_and_reject : String → List UploadRequest → List ServerMessage
drain_and_reject text [] = []
drain_and_reject text (request ∷ frames) =
    if request.is_last
    then end_of_stream 0 0 (refused text) none ∷ []
    else ok_batch_ack 0 ∷ drain_and_reject text frames

-- The tree of a session: `art.Decode`, and `Merge` and `Close` of a SwappableART, which return the tree as
-- they leave it and the text of their error. `run_diff` is what the dispatcher has become when
-- ComputeAccountDiff, on the tree and the number of the client's keys, and Run are done.
pub record Art : Type 1 where
  pub Tree : Type 0
  pub Chunk : Type 0
  pub decode : Bytes → Result Chunk
  pub merge : Tree → Chunk → Tree × Option String
  pub close : Tree → Tree × Option String
  pub run_diff : Tree → ℕ → Option Auth → Dispatcher → Result Dispatcher
  pub new_error : String
  pub version_text : ℕ → String
  pub crc32 : Bytes → ℕ
  pub sha256 : Bytes → Bytes
  pub marshal : Encoded → Result Bytes

module _ (art : Art) where
  open art use {Tree, Chunk, decode, merge, close, run_diff, new_error, version_text}

  -- `ARTChecksumValid`
  unfoldable pub art_checksum_valid : Bytes → Option ArtChecksum → Result Bool
  art_checksum_valid bytes none = fails "data is nil, checksum object is nil or checksum is empty"
  art_checksum_valid bytes (some object) =
      if length object.checksum == 0
      then fails "data is nil, checksum object is nil or checksum is empty"
      else (if object.version == 1
          then verify art.crc32 art.sha256 art.marshal (some bytes) 1 object.checksum
          else (if object.version == 2
              then verify art.crc32 art.sha256 art.marshal (some bytes) 2 object.checksum
              else fails (
                  joined "unsupported checksum version, unsupported checksum version: "
                    (version_text object.version))))

  abbrev pub auth_of_request : UploadRequest → Option Auth
  auth_of_request request = elim request.phase [ none ↦ none | some phase ↦ phase.auth ]

  abbrev pub all_callbacks : Callbacks
  all_callbacks = record { fetch_accounts = true; open_stream = true; send_page_on_stream = true }

  -- From the dispatcher on, for a tree that is closed.
  unfoldable pub dispatch_missing : UploadRequest → Tree → ServerMessage
  dispatch_missing request tree = elim (new_dispatcher default_config all_callbacks) [
    | none ↦ err_end_of_stream (joined "dispatcher init: " new_error)
    | some d ↦ elim (run_diff tree request.total_keys (auth_of_request request) d) [
      | fails e ↦ err_end_of_stream (joined "diff computation: " e)
      | ok done ↦ diff_complete (summarise done) (auth_of_request request)
    ]
  ]

  -- The last chunk has been merged.
  unfoldable pub finish_upload : UploadRequest → Tree → ServerMessage × Tree
  unfolding dispatch_missing
  finish_upload request tree =
      let (closed, outcome) = close tree in
      elim outcome [
        | some e ↦ (err_end_of_stream e, closed)
        | none ↦ (dispatch_missing request closed, closed)
      ]

  -- `LockedART.Merge` with what follows it.
  unfoldable pub merge_chunk : UploadRequest → Tree → ServerMessage × Tree
  unfolding finish_upload
  merge_chunk request tree = elim (decode request.art) [
    | fails e ↦ (err_end_of_stream (joined "art decode: " e), tree)
    | ok chunk ↦
        let (merged, outcome) = merge tree chunk in
        elim outcome [
          | some e ↦ (err_end_of_stream (joined "art merge: " e), merged)
          | none ↦
              if not request.is_last
              then (ok_batch_ack request.batch_index, merged)
              else finish_upload request merged
        ]
  ]

  -- `ACCOUNTS_SYNC`
  unfoldable pub accounts_sync : UploadRequest → Tree → ServerMessage × Tree
  unfolding merge_chunk
  accounts_sync request tree =
      if length request.art == 0
      then (err_end_of_stream "accounts sync art is nil", tree)
      else elim (art_checksum_valid request.art request.checksum) [
        | fails e ↦ (err_end_of_stream e, tree)
        | ok valid ↦
            if not valid
            then (err_end_of_stream "ART checksum mismatch", tree)
            else merge_chunk request tree
      ]

  -- The body of HandleAccountsSync.
  unfoldable pub serve_upload : UploadRequest → Phase → Tree → ServerMessage × Tree
  unfolding accounts_sync
  serve_upload request phase tree =
      if str_eq phase.present_phase accounts_sync_request
      then elim request.keys_range [
        | none ↦ (err_end_of_stream "accounts sync request is nil", tree)
        | some range ↦ accounts_sync request tree
      ]
      else (err_end_of_stream (unknown_state phase.present_phase), tree)

  module _ (tokens : Tokens) where
    open tokens use {Cache, Peer}

    -- `HandleAccountsSync` of the router.
    unfoldable pub handle_accounts_sync :
        Service → Cache → UploadRequest → Peer → Tree → Answer ((ServerMessage × Tree) × Cache)
    unfolding gate serve_upload
    handle_accounts_sync node cache request remote tree = elim request.phase [
      | none ↦ answered ((err_end_of_stream auth_required, tree), cache)
      | some phase ↦
          gate tokens node cache phase.auth remote (err_end_of_stream auth_required, tree)
            (err_end_of_stream authentication_failed, tree)
            (answered (serve_upload request phase tree))
    ]

    -- The upload loop over the frames that can be read, each with whether the reply to it can be written.
    -- It returns the replies that it writes or tries to write.
    unfoldable pub upload_loop :
        Service
        → Peer
        → List (UploadRequest × Bool)
        → Cache
        → Tree
        → Answer (List ServerMessage × Cache × Tree)
    unfolding handle_accounts_sync
    upload_loop node remote [] cache tree = answered ([], cache, tree)
    upload_loop node remote ((request, sent) ∷ frames) cache tree =
        handle_accounts_sync node cache request remote tree >>= λ ((result, tree'), cache').
        elim (stays_open result sent) [
          | false ↦ answered (result ∷ [], cache', tree')
          | true ↦ upload_loop node remote frames cache' tree' >>= λ (replies, cache'', tree'').
              answered (result ∷ replies, cache'', tree'')
        ]
