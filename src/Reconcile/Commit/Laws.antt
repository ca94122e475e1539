-- ===== src/Reconcile/Commit/Laws.antt =====
-- The three phases: what is logged, and that the database is changed at once or not at all.
use jmdn_fast_sync.Common.{
  ℕ, ◌+◌, ◌<◌, ◌≡◌, ◌⊎◌, refl, ap, ◌∙◌, Bool, true, Option, none, some, List, [], ◌∷◌, ◌==◌,
  Bool-cases, Option-cases, inl, inr, length, map, u64_mod, arith,
}
use jmdn_fast_sync.Reconcile.Balance.{Roles, AccountUpdate, AccountDelta}
use jmdn_fast_sync.Reconcile.Commit.{
  AccountManager, ReconcileError, computation_failed, log_failed, commit_failed, Reconciled,
  compute_account_update, compute_update_from_delta, compute_all, pre_create, log_updates, store,
  commit, finish, reconcile, reconcile_with_deltas,
}
use jmdn_fast_sync.Wal.Durable.{log_event_lem}
use jmdn_fast_sync.Wal.Log.{Disk}
use jmdn_fast_sync.Wal.Operations.{Wal, get_event}
use jmdn_fast_sync.Wal.Operations.Events.{entry_of}
use jmdn_fast_sync.Wal.Operations.Invariant.{IsValid}
use jmdn_fast_sync.Wal.Types.{Event}

module _ (manager : AccountManager) (disk : Disk) (header_of : ℕ → Option Roles)
    (batch_event : List AccountUpdate → Event) (now : ℕ) where
  open manager use {Db, batch_update}
  open disk use {Log}

  abbrev logged_updates : Wal Log → List AccountUpdate → Wal Log × Bool
  logged_updates = log_updates manager disk header_of batch_event now

  -- Phase 2 from a valid log whose counter is not at its end, for updates whose event can be serialised,
  -- when it succeeds: the log is valid, its buffer is empty and everything is
  -- on disk, and the event with all the updates is read at the LSN that follows.
  pub log_updates_lem :
      (w : Wal Log) (updates : List AccountUpdate) (payload : List ℕ)
      → IsValid disk w
      → w.current_lsn + 1 < u64_mod
      → (batch_event updates).serialized ≡ some payload
      → (log_updates manager disk header_of batch_event now w updates).1 ≡ true
      → let w' = (log_updates manager disk header_of batch_event now w updates).0 in
        let lsn = w.current_lsn + 1 in
        IsValid disk w'
        × (w'.buffer ≡ [])
        × (w'.last_flushed_lsn ≡ lsn)
        × (get_event disk w' lsn ≡ some (entry_of disk (batch_event updates) payload lsn now))
  unfolding log_updates
  log_updates_lem w updates payload v small ser ok =
      log_event_lem disk w (batch_event updates) payload now v small ser ok

  -- What a reconciliation of accounts without a remote returns: all the computed updates were committed
  -- at once, or there is an error and the database is as it was.
  abbrev pub AllOrNone :
      {A : Type 0} → Db → (A → Option AccountUpdate) → List A → Reconciled Db Log → Type 0
  AllOrNone db compute accounts r =
      ((updates : List AccountUpdate) × (r.error ≡ none)
        × (map some updates ≡ map compute accounts)
        × (batch_update db updates ≡ some r.db)
        × (r.count ≡ length accounts)
        × (r.failed ≡ []))
      ⊎ ((e : ReconcileError) × (r.error ≡ some e) × (r.db ≡ db) × (r.count ≡ 0))

  compute_everything :
      {A : Type 0} → (A → ℕ) → (A → Option AccountUpdate) → List A → List AccountUpdate × List ℕ
  compute_everything = compute_all manager disk header_of batch_event now

  compute_all_lem :
      {A : Type 0} (address_of : A → ℕ) (compute : A → Option AccountUpdate) (accounts : List A)
      → length (compute_everything address_of compute accounts).1 ≡ 0
      → (map some (compute_everything address_of compute accounts).0 ≡ map compute accounts)
        × (length (compute_everything address_of compute accounts).0 ≡ length accounts)
  unfolding compute_everything compute_all
  compute_all_lem address_of compute [] h = (refl, refl)
  compute_all_lem address_of compute (a ∷ accounts) h = elim (Option-cases (compute a)) [
    | inl failed ↦ absurd (let k = rw (failed, compute_all) at h in omega (arith, k))
    | inr (update, computed) ↦
        let (same, many) =
          compute_all_lem address_of compute accounts (rw (computed, compute_all) at h) in
        rw (computed, compute_all) (ap (λ xs. some update ∷ xs) same, omega (arith, many))
  ]

  -- The end of a run, for updates that were computed.
  abbrev Ends : Db → List AccountUpdate → Reconciled Db Log → Type 0
  Ends db updates r =
      ((r.error ≡ none)
        × (batch_update db updates ≡ some r.db)
        × (r.count ≡ length updates)
        × (r.failed ≡ []))
      ⊎ ((e : ReconcileError) × (r.error ≡ some e) × (r.db ≡ db) × (r.count ≡ 0))

  store-Ends :
      (db : Db) (log : Option (Wal Log)) (updates : List AccountUpdate)
      → Ends db updates (store manager disk header_of batch_event now db log updates)
  unfolding store
  store-Ends db log updates = elim (Option-cases (batch_update db updates)) [
    | inl failed ↦ rw (failed, store) (inr (commit_failed, refl, refl, refl))
    | inr (db', stored) ↦ rw (stored, store) (inl (refl, refl, refl, refl))
  ]

  commit-Ends :
      (db : Db) (log : Option (Wal Log)) (updates : List AccountUpdate)
      → Ends db updates (commit manager disk header_of batch_event now db log updates)
  unfolding commit
  commit-Ends db none updates = store-Ends db none updates
  commit-Ends db (some w) updates = elim (Bool-cases (logged_updates w updates).1) [
    | inr failed ↦ rw failed (inr (log_failed, refl, refl, refl))
    | inl logged ↦ rw logged (store-Ends db (some (logged_updates w updates).0) updates)
  ]

  finish-AllOrNone :
      {A : Type 0} (address_of : A → ℕ) (compute : A → Option AccountUpdate) (accounts : List A)
      (db : Db) (log : Option (Wal Log))
      → AllOrNone db compute accounts (
          finish manager disk header_of batch_event now none db log
            (compute_everything address_of compute accounts))
  unfolding finish pre_create
  finish-AllOrNone address_of compute accounts db log =
      elim (Bool-cases (length (compute_everything address_of compute accounts).1 == 0)) [
        | inr some_failed ↦ rw some_failed (inr (computation_failed, refl, refl, refl))
        | inl all_computed ↦
            let (same, many) = compute_all_lem address_of compute accounts (ground arith) in
            let updates = (compute_everything address_of compute accounts).0 in
            rw all_computed (elim (commit-Ends db log updates) [
              | inl (fine, stored, count, failed) ↦
                  inl (updates, fine, same, stored, count ∙ many, failed)
              | inr failure ↦ inr failure
            ])
      ]

  -- `Reconcile` of at least one account without a remote either commits the updates of all the accounts
  -- at once and returns their number, or returns an error and leaves the database as it was.
  pub reconcile-AllOrNone :
      (db : Db) (log : Option (Wal Log)) (from to account : ℕ) (accounts : List ℕ)
      → AllOrNone db
          (λ a. compute_account_update manager disk header_of batch_event now db from to a)
          (account ∷ accounts)
          (reconcile manager disk header_of batch_event now none db log from to
            (account ∷ accounts))
  unfolding reconcile compute_everything
  reconcile-AllOrNone db log from to account accounts =
      finish-AllOrNone (λ a. a)
        (λ a. compute_account_update manager disk header_of batch_event now db from to a)
        (account ∷ accounts) db log

  -- `ReconcileWithDeltas` of at least one account without a remote either commits the updates of all the
  -- accounts at once and returns their number, or returns an error and leaves the database as it was.
  pub reconcile_with_deltas-AllOrNone :
      (db : Db) (log : Option (Wal Log)) (delta : ℕ × AccountDelta)
      (deltas : List (ℕ × AccountDelta))
      → AllOrNone db
          (λ e. compute_update_from_delta manager disk header_of batch_event now db e)
          (delta ∷ deltas)
          (reconcile_with_deltas manager disk header_of batch_event now none db log
            (delta ∷ deltas))
  unfolding reconcile_with_deltas compute_everything
  reconcile_with_deltas-AllOrNone db log delta deltas =
      finish-AllOrNone (λ e. e.0)
        (λ e. compute_update_from_delta manager disk header_of batch_event now db e)
        (delta ∷ deltas) db log
