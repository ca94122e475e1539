-- ===== src/DataSync/Queue/Fetch/Usable.antt =====
-- What a worker that has asked the remotes returns.
use jmdn_fast_sync.Common.{
  ℕ, zero, suc, ◌≡◌, ◌≢◌, refl, ◌∙◌, inl, inr, Bool, true, false, Option, none, some, List, [], ◌∷◌,
  length, ◌==◌, Bool-cases, Option-cases, arith,
}
use jmdn_fast_sync.Common.Sort.{sort, IsSorted, length-sort, sort-IsSorted}
use jmdn_fast_sync.DataSync.Queue.Write.{Batch}
use jmdn_fast_sync.Wire.{DataSyncRequest}
use jmdn_fast_sync.DataSync.Queue.Fetch.{
  max_retries, Remote, Reply, is_refusal, with_token, attempt, fail_over, fetch_batch,
}

-- What can be written in one event and one call: some data, in the order of the blocks.
pub record IsUsable (b : Batch) : Type 0 where
  pub filled : length b.non_headers ≢ 0
  pub sorted : IsSorted (λ x. x.block_number) b.non_headers

module _ {Net Peer : Type 0} (send : Net → Peer → DataSyncRequest → Net × Option Reply) where
  attempt-IsUsable :
      (left : ℕ) (net : Net) (peer : Peer) (request : DataSyncRequest) (b : Batch)
      → (attempt send left net peer request).1 ≡ some b
      → IsUsable b
  unfolding attempt
  attempt-IsUsable zero net peer request b h = cc
  attempt-IsUsable (suc left) net peer request b h =
      let (net', answer) = send net peer request in
      elim (Option-cases answer) [
        | inl lost ↦ attempt-IsUsable left net' peer request b (rw (lost, attempt) at h)
        | inr (reply, got) ↦ elim (Bool-cases (is_refusal reply.ack)) [
          | inl refused ↦
              attempt-IsUsable left net' peer request b (rw refused at (rw (got, attempt) at h))
          | inr fine ↦ elim (Bool-cases (length reply.content == 0)) [
            | inl empty ↦
                attempt-IsUsable left net' peer request b
                  (rw empty at (rw fine at (rw (got, attempt) at h)))
            | inr filled ↦
                let e : some _ ≡ some b = rw filled at (rw fine at (rw (got, attempt) at h)) in
                usable reply b filled cc
          ]
        ]
      ]
    where
      usable :
          (reply : Reply) (b : Batch)
          → (length reply.content == 0) ≡ false
          → record {
            non_headers = sort (λ x. x.block_number) reply.content;
            accounts = reply.accounts;
          }
            ≡ b
          → IsUsable b
      usable reply b filled e = rw (← e) (record {
        filled = ground (arith, length-sort (λ x. x.block_number) reply.content, filled);
        sorted = sort-IsSorted (λ x. x.block_number) reply.content;
      })

  fail_over-IsUsable :
      (failed : Bool) (net : Net) (request : DataSyncRequest) (rs : List (Remote Peer)) (b : Batch)
      → (fail_over send failed net request rs).1 ≡ some b
      → IsUsable b
  unfolding fail_over
  fail_over-IsUsable failed net request [] b h = cc
  fail_over-IsUsable failed net request (r ∷ rs) b h = elim (Option-cases r.peer) [
    | inl unknown ↦ fail_over-IsUsable true net request rs b (rw (unknown, fail_over) at h)
    | inr (peer, named) ↦
        let (net', found) = attempt send max_retries net peer (with_token request r.auth) in
        elim (Option-cases found) [
          | inl absent ↦
              fail_over-IsUsable true net' request rs b (rw absent at (rw (named, fail_over) at h))
          | inr (b', here) ↦
              let e : some b' ≡ some b = rw here at (rw (named, fail_over) at h) in
              attempt-IsUsable max_retries net peer (with_token request r.auth) b (here ∙ e)
        ]
  ]

  -- The loop after one remote, when the rest of it keeps an error that has been seen.
  fail_over-step :
      (failed : Bool) (net : Net) (request : DataSyncRequest) (r : Remote Peer)
      (rs : List (Remote Peer))
      → ((net' : Net)
          → (fail_over send true net' request rs).1 ≡ none
          → (fail_over send true net' request rs).2 ≡ true)
      → (fail_over send failed net request (r ∷ rs)).1 ≡ none
      → (fail_over send failed net request (r ∷ rs)).2 ≡ true
  unfolding fail_over
  fail_over-step failed net request r rs noted h = elim (Option-cases r.peer) [
    | inl unknown ↦ rw (unknown, fail_over) (noted net (rw (unknown, fail_over) at h))
    | inr (peer, named) ↦
        let (net', found) = attempt send max_retries net peer (with_token request r.auth) in
        elim (Option-cases found) [
          | inl absent ↦
              rw (named, fail_over)
                (rw absent (noted net' (rw absent at (rw (named, fail_over) at h))))
          | inr (b, here) ↦ let e : some b ≡ none = rw here at (rw (named, fail_over) at h) in cc
        ]
  ]

  fail_over-noted :
      (net : Net) (request : DataSyncRequest) (rs : List (Remote Peer))
      → (fail_over send true net request rs).1 ≡ none
      → (fail_over send true net request rs).2 ≡ true
  unfolding fail_over
  fail_over-noted net request [] h = refl
  fail_over-noted net request (r ∷ rs) h =
      fail_over-step true net request r rs (λ net' k. fail_over-noted net' request rs k) h

  -- With at least one remote, a batch that is fetched holds data and holds it in the order of the block
  -- numbers; where no remote returns data the result is an error, and not an empty batch.
  pub fetch_batch-IsUsable :
      (net : Net) (id : ℕ) (request : DataSyncRequest) (r : Remote Peer) (rs : List (Remote Peer))
      (b : Batch)
      → (fetch_batch send net id request (r ∷ rs)).1.fetched ≡ some b
      → IsUsable b
  unfolding fetch_batch
  fetch_batch-IsUsable net id request r rs b h =
      let looked = fail_over send false net request (r ∷ rs) in
      elim (Option-cases looked.1) [
        | inl absent ↦
            let noted =
              fail_over-step false net request r rs (λ net' k. fail_over-noted net' request rs k)
                absent in
            let e : none ≡ some b = rw noted at (rw (absent, fetch_batch) at h) in cc
        | inr (b', here) ↦
            let e : some b' ≡ some b = rw (here, fetch_batch) at h in
            fail_over-IsUsable false net request (r ∷ rs) b (here ∙ e)
      ]
