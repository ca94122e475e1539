-- ===== src/Wal/Types.antt =====
-- common/types/wal/wal.go and the `WALEntry` of common/WAL/WAL.go.
use Prim.Native.String.{String}
use jmdn_fast_sync.Common.{ℕ, Option, List}

pub data WalType : Type 0 where
  header_sync merkle_sync prior_sync data_sync reconciliation pots account_sync : WalType

abbrev pub type_text : WalType → String
type_text header_sync = "wal:headersync"
type_text merkle_sync = "wal:merklesync"
type_text prior_sync = "wal:priorsync"
type_text data_sync = "wal:datasync"
type_text reconciliation = "wal:reconciliation"
type_text pots = "wal:pots"
type_text account_sync = "wal:accountsync"

pub record Entry : Type 0 where
  pub wal_type : WalType
  pub payload : List ℕ
  pub lsn : ℕ
  pub timestamp : ℕ

-- An `EventAdapter`: its type, and what `Serialize` returns, `none` for an error.
pub record Event : Type 0 where
  pub event_type : WalType
  pub serialized : Option (List ℕ)

abbrev pub max_snapshot_limit : ℕ
max_snapshot_limit = 10

abbrev pub default_batch_size : ℕ
default_batch_size = 1000
