-- ===== src/Wal/Log.antt =====
-- What the write-ahead log uses and does not implement: the segmented log of
-- github.com/tidwall/wal, and the JSON form of an entry. They are parameters; the laws are what their
-- documentation says.
use jmdn_fast_sync.Common.{ℕ, Bool, ◌+◌, ◌≤◌, ◌≡◌, ◌≢◌, Option, some, List}
use jmdn_fast_sync.Wal.Types.{Entry}

abbrev pub Bytes : Type 0
Bytes = List ℕ

-- An operation that fails, for any reason, returns `none` and leaves the log as it was.
pub record LogApi : Type 1 where
  pub Log : Type 0
  pub first_index : Log → ℕ
  pub last_index : Log → ℕ
  pub read : Log → ℕ → Option Bytes
  pub write : Log → ℕ → Bytes → Option Log
  pub truncate_front : Log → ℕ → Option Log
  -- `ErrOutOfOrder`: the index of a write is the one after the last index.
  pub write_order :
      (l : Log) (i : ℕ) (d : Bytes) (l' : Log) → write l i d ≡ some l' → i ≡ last_index l + 1
  pub write_last :
      (l : Log) (i : ℕ) (d : Bytes) (l' : Log) → write l i d ≡ some l' → last_index l' ≡ i
  pub read-write_self :
      (l : Log) (i : ℕ) (d : Bytes) (l' : Log) → write l i d ≡ some l' → read l' i ≡ some d
  pub read-write_ne :
      (l : Log) (i j : ℕ) (d : Bytes) (l' : Log)
      → write l i d ≡ some l'
      → j ≢ i
      → read l' j ≡ read l j
  -- `TruncateFront(i)` drops the entries below `i`.
  pub truncate_last :
      (l : Log) (i : ℕ) (l' : Log) → truncate_front l i ≡ some l' → last_index l' ≡ last_index l
  pub truncate_first :
      (l : Log) (i : ℕ) (l' : Log) → truncate_front l i ≡ some l' → first_index l' ≡ i
  pub read-truncate :
      (l : Log) (i j : ℕ) (l' : Log) → truncate_front l i ≡ some l' → i ≤ j → read l' j ≡ read l j

-- `json.Marshal` and `json.Unmarshal` of a `WALEntry`.
pub record Codec : Type 0 where
  pub marshal : Entry → Bytes
  pub unmarshal : Bytes → Option Entry
  pub unmarshal-marshal : (e : Entry) → unmarshal (marshal e) ≡ some e

-- All that a write-ahead log stands on. `save_ok` and `mark_ok` say whether writing the metadata file,
-- at a current LSN, and writing or removing the file of a checkpoint marker succeed.
pub record Disk : Type 1 where
  pub log_api : LogApi
  pub open log_api use *
  pub codec : Codec
  pub open codec use *
  pub save_ok : ℕ → Bool
  pub mark_ok : ℕ → Bool
