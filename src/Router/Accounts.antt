-- ===== src/Router/Accounts.antt =====
-- HandleAccountsFetch of core/protocol/router/data_router.go, with FetchAccountsByAddresses and
-- lookupKeyForFetch of core/protocol/router/helper/accounts/accounts_fetch_helper.go. The string
-- functions of Go and the account manager are parameters. The set of addresses is the list of its keys in
-- the order of the iteration.
use Prim.Native.String.{String}
use text.Mathlib.Text.{◌==◌ as str_eq}
use jmdn_fast_sync.Common.{ℕ, Bool, Option, none, some, List, [], ◌∷◌, if◌then◌else◌}
use jmdn_fast_sync.Common.Result.{Result, ok, fails, Answer, answered}
use jmdn_fast_sync.Pots.BlockMap.{Bytes}
use jmdn_fast_sync.Router.{
  Tokens, Service, refused, failed_phase, auth_required, authentication_failed, gate,
}
use jmdn_fast_sync.Router.Replies.{unknown_state}
use jmdn_fast_sync.Wire.{Auth, Ack, Phase, failure, accepted, success_phase}

abbrev pub accounts_request : String
accounts_request = "state:accountssync:accountssyncrequest:accounts"

abbrev pub accounts_response : String
accounts_response = "state:accountssync:accountssyncrequest:accounts:response"

-- `types.Account`, as far as it is read, and `Account` of the protocol.
pub record Account : Type 0 where
  pub did_address : String
  pub address : Bytes
  pub balance : String
  pub nonce : ℕ
  pub account_type : String
  pub created_at : ℕ
  pub updated_at : ℕ

pub record AccountSyncResponse : Type 0 where
  pub accounts : List Account
  pub page_index : ℕ
  pub ack : Ack
  pub phase : Phase

-- `strings.HasPrefix`, `strings.Split`, and `GetAccountByAddress`, whose `none` is a nil account.
pub record Lookup : Type 0 where
  pub has_prefix : String → String → Bool
  pub split : String → String → List String
  pub account_by_address : String → Result (Option Account)

-- `parts[len(parts)-1]`, or the text itself where there are no parts.
unfoldable pub last_part : String → List String → String
last_part text [] = text
last_part text (part ∷ parts) = last_part part parts

abbrev pub refuse_accounts : String → String → Option Auth → AccountSyncResponse
refuse_accounts present text auth = record {
  accounts = [];
  page_index = 0;
  ack = refused text;
  phase = failed_phase present failure text auth;
}

-- The account with the balance that is sent.
abbrev pub without_balance : Account → Account
without_balance account = record account { balance = "0" }

module _ (lookup : Lookup) where
  open lookup use {has_prefix, split, account_by_address}

  unfoldable pub lookup_key_for_fetch : String → String
  unfolding last_part
  lookup_key_for_fetch addr =
      if has_prefix addr "did:" then last_part addr (split addr ":") else addr

  unfoldable pub fetch_accounts_by_addresses : List String → List Account
  unfolding lookup_key_for_fetch
  fetch_accounts_by_addresses [] = []
  fetch_accounts_by_addresses (addr ∷ addresses) =
      let rest = fetch_accounts_by_addresses addresses in
      elim (account_by_address (lookup_key_for_fetch addr)) [
        | fails e ↦ rest
        | ok found ↦ elim found [ none ↦ rest | some account ↦ without_balance account ∷ rest ]
      ]

  -- The error of FetchAccountsByAddresses is always nil, and the branch for it is never taken.
  unfoldable pub serve_accounts : Phase → List String → AccountSyncResponse
  unfolding fetch_accounts_by_addresses
  serve_accounts phase addresses =
      if str_eq phase.present_phase accounts_request
      then record {
        accounts = fetch_accounts_by_addresses addresses;
        page_index = 0;
        ack = accepted;
        phase = success_phase accounts_response "success" phase.auth;
      }
      else refuse_accounts phase.present_phase (unknown_state phase.present_phase) phase.auth

  module _ (tokens : Tokens) where
    open tokens use {Cache, Peer}

    unfoldable pub handle_accounts_fetch :
        Service → Cache → Option Phase → List String → Peer → Answer (AccountSyncResponse × Cache)
    unfolding gate serve_accounts
    handle_accounts_fetch node cache none addresses remote =
        answered (refuse_accounts accounts_request auth_required none, cache)
    handle_accounts_fetch node cache (some phase) addresses remote =
        gate tokens node cache phase.auth remote
          (refuse_accounts accounts_request auth_required none)
          (refuse_accounts accounts_request authentication_failed phase.auth)
          (answered (serve_accounts phase addresses))
