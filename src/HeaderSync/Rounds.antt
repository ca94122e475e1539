-- ===== src/HeaderSync/Rounds.antt =====
-- HeaderSync of core/headersync/headersync.go: the rounds in which the queue is fetched and a peer is asked
-- whether the Merkle trees match.
use jmdn_fast_sync.Common.{
  ℕ, zero, suc, ◌≡◌, Bool, true, Option, none, some, List, length, ◌==◌, if◌then◌else◌,
}
use jmdn_fast_sync.Common.Result.{Result, ok, fails}
use jmdn_fast_sync.DataSync.Queue.Fetch.{Remote}
use jmdn_fast_sync.HeaderSync.Batches.{build_batches}
use jmdn_fast_sync.HeaderSync.Confirm.{
  Network, Confirmation, synced, diverged, aborted, sync_confirmation,
}
use jmdn_fast_sync.HeaderSync.Confirm.Answers.{IsConfirmedBy}
use jmdn_fast_sync.HeaderSync.Queue.{HeaderReply, process_queue}
use jmdn_fast_sync.Pots.Response.{Header}
use jmdn_fast_sync.Tag.{Tag}
use jmdn_fast_sync.Wal.Log.{Disk}
use jmdn_fast_sync.Wal.Operations.{Wal}
use jmdn_fast_sync.Wal.Types.{Event}
use jmdn_fast_sync.Wire.{
  Auth, Phase, HeaderSyncRequest, DataSyncRequest, accepted, success_phase, header_sync_response,
  data_sync_request,
}

abbrev pub max_sync_rounds : ℕ
max_sync_rounds = 4

-- The request that is returned, with the tag that was asked for at first.
abbrev pub request_data : ℕ → Tag → Option Auth → DataSyncRequest
request_data version tag auth = record {
  tag = tag;
  version = version;
  ack = accepted;
  phase = success_phase header_sync_response data_sync_request auth;
}

-- The token of the given phase.
abbrev pub token_given : Option Phase → Option Auth
token_given phase = elim phase [ none ↦ none | some p ↦ p.auth ]

unfoldable returned_of : Result (Option DataSyncRequest) → Option DataSyncRequest
returned_of (ok r) = r
returned_of (fails e) = none

data Outcome (c : Confirmation) : Type 0 where
  agree : (auth : Auth) → c ≡ synced auth → Outcome c
  differ : (tag : Tag) (auth : Auth) → c ≡ diverged tag auth → Outcome c
  stop : c ≡ aborted → Outcome c

module _ {State Peer Snapshot : Type 0} (network : Network State Peer Snapshot) where
  module _ (disk : Disk) (send : State → Peer → HeaderSyncRequest → State × Option HeaderReply)
      (write_headers : State → List Header → Option State) (event : List Header → Event)
      (now version : ℕ) where
    open disk use {Log}

    -- The loop over the rounds; `none` is an error.
    unfoldable pub rounds :
        ℕ
        → Tag
        → State
        → Option (Wal Log)
        → List HeaderSyncRequest
        → List (Remote Peer)
        → State × Option (Wal Log) × Option DataSyncRequest
    rounds zero tag s log queue remotes = (s, log, none)
    rounds (suc left) tag s log queue remotes =
        let (s1, log1, written) =
          process_queue disk write_headers event now send s log queue remotes in
        let (s2, remotes', outcome) = sync_confirmation network s1 remotes in
        if written
        then elim outcome [
          | synced auth ↦ (s2, log1, some (request_data version tag (some auth)))
          | diverged found auth ↦ rounds left tag s2 log1 (build_batches found (some auth)) remotes'
          | aborted ↦ (s2, log1, none)
        ]
        else (s1, log1, none)

    -- The rounds, or the single fetch without the confirmation.
    unfoldable pub header_sync_tag :
        State
        → Option (Wal Log)
        → Tag
        → Option Phase
        → List (Remote Peer)
        → Bool
        → State × Option (Wal Log) × Option DataSyncRequest
    unfolding rounds
    header_sync_tag s log tag phase remotes confirmation =
        let auth = token_given phase in
        let queue = build_batches tag auth in
        let first = process_queue disk write_headers event now send s log queue remotes in
        if confirmation
        then rounds max_sync_rounds tag s log queue remotes
        else (first.0, first.1, if first.2 then some (request_data version tag auth) else none)

    -- `HeaderSync`; the request is its tag and its phase. The answer without a request is that there is
    -- nothing to do.
    unfoldable pub header_sync :
        State
        → Option (Wal Log)
        → Option (Option Tag × Option Phase)
        → List (Remote Peer)
        → Bool
        → State × Option (Wal Log) × Result (Option DataSyncRequest)
    unfolding header_sync_tag
    header_sync s log none remotes confirmation = (s, log, fails "headersync request or tag is nil")
    header_sync s log (some (tag, phase)) remotes confirmation =
        if length remotes == 0 then (s, log, fails "no remotes provided") else elim tag [
          | none ↦ (s, log, ok none)
          | some t ↦
              let (s', log', request) = header_sync_tag s log t phase remotes confirmation in
              (s', log', elim request [ none ↦ fails "header sync failed" | some r ↦ ok (some r) ])
        ]

    -- The first part of a round, and the confirmation after it.
    abbrev pub fetched :
        State
        → Option (Wal Log)
        → List HeaderSyncRequest
        → List (Remote Peer)
        → State × Option (Wal Log) × Bool
    fetched s log queue remotes =
        process_queue disk write_headers event now send s log queue remotes

    abbrev pub asked_round :
        State
        → Option (Wal Log)
        → List HeaderSyncRequest
        → List (Remote Peer)
        → State × List (Remote Peer) × Confirmation
    asked_round s log queue remotes =
        sync_confirmation network (fetched s log queue remotes).0 remotes

    -- The rounds: from the state, the log, the queue and the remotes at the start of one round, those at the
    -- start of the same or of a later round, after the headers of the earlier rounds have been written
    -- and a peer has answered each time in which blocks the trees differ.
    pub data Reached
        : State
          → Option (Wal Log)
          → List HeaderSyncRequest
          → List (Remote Peer)
          → State
          → Option (Wal Log)
          → List HeaderSyncRequest
          → List (Remote Peer)
          → Type 0 where
      this_round :
          {s : State} {log : Option (Wal Log)} {queue : List HeaderSyncRequest}
          {remotes : List (Remote Peer)}
          → Reached s log queue remotes s log queue remotes
      next_round :
          {s s' : State} {log log' : Option (Wal Log)} {queue queue' : List HeaderSyncRequest}
          {remotes remotes' : List (Remote Peer)} (found : Tag) (auth : Auth)
          → (fetched s log queue remotes).2 ≡ true
          → (asked_round s log queue remotes).2 ≡ diverged found auth
          → Reached
              (asked_round s log queue remotes).0
              (fetched s log queue remotes).1
              (build_batches found (some auth))
              (asked_round s log queue remotes).1
              s'
              log'
              queue'
              remotes'
          → Reached s log queue remotes s' log' queue' remotes'

    -- What is returned asks for the tag, with the token of a peer that has confirmed the trees, for the
    -- state in which the write of a round has left the node.
    pub record IsConfirmed (s : State) (log : Option (Wal Log)) (queue : List HeaderSyncRequest)
        (remotes : List (Remote Peer)) (tag : Tag) (request : DataSyncRequest) : Type 0 where
      pub token : Auth
      pub asked : request ≡ request_data version tag (some token)
      pub state : State
      pub log_then : Option (Wal Log)
      pub queue_then : List HeaderSyncRequest
      pub remotes_then : List (Remote Peer)
      pub reached : Reached s log queue remotes state log_then queue_then remotes_then
      pub written : (fetched state log_then queue_then remotes_then).2 ≡ true
      pub confirmed :
          IsConfirmedBy network
            (fetched state log_then queue_then remotes_then).0
            remotes_then
            token
