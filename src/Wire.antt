-- ===== src/Wire.antt =====
-- The envelope of the protocol's messages (common/proto/phase, common/proto/ack,
-- common/proto/availability/auth) and the phase names of common/types/constants/constants.go.
use Prim.Native.String.{String}
use jmdn_fast_sync.Common.{ℕ, Bool, true, Option}
use jmdn_fast_sync.Tag.{Tag}

-- A token is its UUID.
pub record Auth : Type 0 where
  pub uuid : String

pub record Ack : Type 0 where
  pub succeeded : Bool
  pub error : String

pub record Phase : Type 0 where
  pub present_phase : String
  pub successive_phase : String
  pub success : Bool
  pub error : String
  pub auth : Option Auth

abbrev pub failure : String
failure = "failure"

abbrev pub header_sync_request : String
header_sync_request = "state:headersync:headersyncrequest"

abbrev pub header_sync_response : String
header_sync_response = "state:headersync:headersyncresponse"

abbrev pub data_sync_request : String
data_sync_request = "state:datasync:datasyncrequest"

abbrev pub data_sync_response : String
data_sync_response = "state:datasync:datasyncresponse"

abbrev pub pots_response : String
pots_response = "state:pots:potsresponse"

-- `Ack{Ok: true, Error: ""}`
abbrev pub accepted : Ack
accepted = record { succeeded = true; error = "" }

-- A `Phase` with `Success: true, Error: ""`.
abbrev pub success_phase : String → String → Option Auth → Phase
success_phase present successive auth = record {
  present_phase = present;
  successive_phase = successive;
  success = true;
  error = "";
  auth = auth;
}

-- `HeaderSyncRequest` of common/proto/headersync.
pub record HeaderSyncRequest : Type 0 where
  pub tag : Tag
  pub ack : Ack
  pub phase : Phase

-- `DataSyncRequest` of common/proto/datasync.
pub record DataSyncRequest : Type 0 where
  pub tag : Tag
  pub version : ℕ
  pub ack : Ack
  pub phase : Phase
