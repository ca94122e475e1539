-- ===== src/DataSync/Queue/Fetch.antt =====
-- `dataFetchWorker` of core/datasync/datasync.go: one batch is asked of the remotes in turn, twice of each,
-- until one returns data. What the network answers may change with every call: it is a state that
-- `send` takes and returns.
pub mod Usable
use Prim.Native.String.{String}
use jmdn_fast_sync.Common.{
  ℕ, zero, suc, ◌+◌, ◌*◌, ◌≤◌, ◌≡◌, ◌≢◌, refl, ◌∙◌, ◌⊎◌, inl, inr, Bool, true, false, Option, none,
  some, List, [], ◌∷◌, length, ◌==◌, if◌then◌else◌, not, Bool-cases, Option-cases, arith,
}
use jmdn_fast_sync.Common.Sort.{sort, IsSorted, length-sort, sort-IsSorted}
use jmdn_fast_sync.DataSync.Queue.{Arrival}
use jmdn_fast_sync.DataSync.Queue.Write.{Batch}
use jmdn_fast_sync.Router.{NonHeaders}
use jmdn_fast_sync.Wire.{Auth, Ack, DataSyncRequest}

abbrev pub max_retries : ℕ
max_retries = 2

-- `AvailabilityResponse`, as far as it is read; the node is `none` when ToNodeinfo fails.
pub record Remote (Peer : Type 0) : Type 0 where
  pub peer : Option Peer
  pub auth : Option Auth

-- `DataSyncResponse`, as far as it is read.
pub record Reply : Type 0 where
  pub ack : Option Ack
  pub content : List NonHeaders
  pub accounts : List String

-- `resp.Ack != nil && !resp.Ack.Ok`
abbrev pub is_refusal : Option Ack → Bool
is_refusal none = false
is_refusal (some ack) = not ack.succeeded

-- The copy of the request with the remote's token.
unfoldable pub with_token : DataSyncRequest → Option Auth → DataSyncRequest
with_token request none = request
with_token request (some auth) = record request {
  phase = record request.phase { auth = some auth };
}

module _ {Net Peer : Type 0} (send : Net → Peer → DataSyncRequest → Net × Option Reply) where
  -- The loop over the attempts.
  unfoldable pub attempt : ℕ → Net → Peer → DataSyncRequest → Net × Option Batch
  attempt zero net peer request = (net, none)
  attempt (suc left) net peer request =
      let (net', answer) = send net peer request in
      let retry = attempt left net' peer request in
      elim answer [
        | none ↦ retry
        | some reply ↦
            if is_refusal reply.ack
            then retry
            else (if length reply.content == 0 then retry else (
              net',
              some (record {
                non_headers = sort (λ b. b.block_number) reply.content;
                accounts = reply.accounts;
              }),
            ))
      ]

  -- The loop over the remotes; the flag says whether there has been an error.
  unfoldable pub fail_over :
      Bool → Net → DataSyncRequest → List (Remote Peer) → Net × Option Batch × Bool
  unfolding attempt with_token
  fail_over failed net request [] = (net, none, failed)
  fail_over failed net request (r ∷ rs) = elim r.peer [
    | none ↦ fail_over true net request rs
    | some peer ↦
        let (net', found) = attempt max_retries net peer (with_token request r.auth) in
        elim found [ none ↦ fail_over true net' request rs | some b ↦ (net', some b, failed) ]
  ]

  -- The result of one job. Without remotes there is no error to report, and the result is an empty
  -- batch.
  unfoldable pub fetch_batch : Net → ℕ → DataSyncRequest → List (Remote Peer) → Net × Arrival Batch
  unfolding fail_over
  fetch_batch net id request remotes =
      let (net', found, failed) = fail_over false net request remotes in
      (
        net',
        record {
          batch_id = id;
          fetched = elim found [
            | some b ↦ some b
            | none ↦ if failed then none else some (record { non_headers = []; accounts = [] })
          ];
        },
      )
