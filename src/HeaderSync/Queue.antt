-- ===== src/HeaderSync/Queue.antt =====
-- processQueue and fetchWorker of core/headersync/headersync.go. The batches are fetched one after the
-- other, where the source has workers: their results are sorted before they are written. The network
-- and the database are parts of one state.
use jmdn_fast_sync.Common.{
  ℕ, zero, suc, Bool, true, false, Option, none, some, List, [], ◌∷◌, length, ◌==◌, if◌then◌else◌,
}
use jmdn_fast_sync.Common.Sort.{sort}
use jmdn_fast_sync.DataSync.Queue.Fetch.{Remote, is_refusal}
use jmdn_fast_sync.HeaderSync.Confirm.{max_retries}
use jmdn_fast_sync.Pots.Response.{Header}
use jmdn_fast_sync.Wal.Durable.{log_event}
use jmdn_fast_sync.Wal.Log.{Disk}
use jmdn_fast_sync.Wal.Operations.{Wal, create_checkpoint}
use jmdn_fast_sync.Wal.Types.{Event}
use jmdn_fast_sync.Wire.{Auth, Ack, HeaderSyncRequest}

-- `HeaderSyncResponse`, as far as it is read.
pub record HeaderReply : Type 0 where
  pub ack : Option Ack
  pub header : List Header

-- The request with the token of the remote.
abbrev pub with_remote_auth : HeaderSyncRequest → Option Auth → HeaderSyncRequest
with_remote_auth request auth = record request { phase = record request.phase { auth = auth } }

-- `send` is SendHeaderSyncRequest.
module _ {State Peer : Type 0}
    (send : State → Peer → HeaderSyncRequest → State × Option HeaderReply) where
  -- The loop over the attempts of one remote.
  unfoldable pub attempt_headers :
      ℕ → State → Peer → HeaderSyncRequest → State × Option (List Header)
  attempt_headers zero s peer request = (s, none)
  attempt_headers (suc left) s peer request =
      let (s', answer) = send s peer request in
      let retry = attempt_headers left s' peer request in
      elim answer [
        | none ↦ retry
        | some reply ↦
            if is_refusal reply.ack
            then retry
            else (if length reply.header == 0
                then retry
                else (s', some (sort (λ h. h.block_number) reply.header)))
      ]

  -- The loop over the remotes; the flag says whether there has been an error. Without any, the result of
  -- the job has no headers.
  unfoldable pub fetch_headers :
      Bool → State → HeaderSyncRequest → List (Remote Peer) → State × Option (List Header)
  unfolding attempt_headers
  fetch_headers failed s request [] = (s, if failed then none else some [])
  fetch_headers failed s request (r ∷ rs) = elim r.peer [
    | none ↦ fetch_headers true s request rs
    | some peer ↦
        let (s', found) = attempt_headers max_retries s peer (with_remote_auth request r.auth) in
        elim found [ none ↦ fetch_headers true s' request rs | some headers ↦ (s', some headers) ]
  ]

  -- The results of all jobs; `none` when one of them is an error.
  unfoldable pub fetch_all :
      State → List HeaderSyncRequest → List (Remote Peer) → State × Option (List (List Header))
  unfolding fetch_headers
  fetch_all s [] remotes = (s, some [])
  fetch_all s (request ∷ queue) remotes =
      let (s', found) = fetch_headers false s request remotes in
      let (s'', others) = fetch_all s' queue remotes in
      (
        s'',
        elim found [
          | none ↦ none
          | some headers ↦ elim others [ none ↦ none | some results ↦ some (headers ∷ results) ]
        ],
      )

-- The order of the results: those without headers first.
abbrev pub first_block : List Header → ℕ
first_block [] = 0
first_block (h ∷ headers) = suc h.block_number

module _ (disk : Disk) {State : Type 0} (write_headers : State → List Header → Option State)
    (event : List Header → Event) (now : ℕ) where
  open disk use {Log}

  -- `WriteHeaders`, with the checkpoint behind it, whose error is only reported.
  unfoldable pub write_result :
      State → Option (Wal Log) → List Header → State × Option (Wal Log) × Bool
  write_result s log headers = elim (write_headers s headers) [
    | none ↦ (s, log, false)
    | some s' ↦ (s', elim log [ none ↦ none | some w ↦ some (create_checkpoint disk w).0 ], true)
  ]

  -- The event is on disk before the headers are written.
  unfoldable pub log_and_write :
      State → Option (Wal Log) → List Header → State × Option (Wal Log) × Bool
  unfolding write_result log_event
  log_and_write s none headers = write_result s none headers
  log_and_write s (some w) headers =
      let (w', logged) = log_event disk w (event headers) now in
      if logged then write_result s (some w') headers else (s, some w', false)

  -- The loop that writes the results in order.
  unfoldable pub write_all :
      State → Option (Wal Log) → List (List Header) → State × Option (Wal Log) × Bool
  unfolding log_and_write
  write_all s log [] = (s, log, true)
  write_all s log (headers ∷ results) =
      let skipped = write_all s log results in
      let (s', log', written) = log_and_write s log headers in
      let rest = write_all s' log' results in
      if length headers == 0 then skipped else (if written then rest else (s', log', false))

  -- `processQueue`
  unfoldable pub process_queue :
      {Peer : Type 0}
      → (State → Peer → HeaderSyncRequest → State × Option HeaderReply)
      → State
      → Option (Wal Log)
      → List HeaderSyncRequest
      → List (Remote Peer)
      → State × Option (Wal Log) × Bool
  unfolding fetch_all write_all
  process_queue send s log queue remotes =
      let (s', found) = fetch_all send s queue remotes in
      elim found [
        | none ↦ (s', log, false)
        | some results ↦ write_all s' log (sort first_block results)
      ]
