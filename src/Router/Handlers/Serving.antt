-- ===== src/Router/Handlers/Serving.antt =====
-- What HandleHeaderSync and HandleDataSync serve to an authorized peer: the tagged blocks.
use Prim.Native.String.{String}
use text.Mathlib.Text.{◌==◌ as str_eq}
use jmdn_fast_sync.Common.{
  ℕ, ◌+◌, ◌-◌, ◌≤◌, ◌≡◌, refl, ap, sym, ◌∙◌, Bool, true, false, ◌||◌, ◌&&◌, not, Option, none, some,
  List, [], ◌∷◌, ◌++◌, map, append_assoc, append-nil, map-append, any, All, length, ltb, ◌==◌,
  if◌then◌else◌, Bool-cases, inl, inr, arith,
}
use jmdn_fast_sync.Common.Result.{Result, ok, answered}
use jmdn_fast_sync.Common.Span.{span}
use jmdn_fast_sync.Pots.BlockMap.{Bytes}
use jmdn_fast_sync.Pots.Response.{Header}
use jmdn_fast_sync.Router.{Transfer, NonHeaders, DataSyncResponse, Chain, Tokens, Service}
use jmdn_fast_sync.Router.Handlers.{handle_header_sync, handle_data_sync}
use jmdn_fast_sync.Router.Handlers.Gate.{IsAuthorized, gate-IsAuthorized}
use jmdn_fast_sync.Router.Serve.{
  merge_request, fetch_ranges, header_sync, tag_address, tag_transfers, tag_blocks, data_sync,
}
use jmdn_fast_sync.Tag.{RangeTag, Tag, Tagging, new_tagging, get_account}
use jmdn_fast_sync.Tag.Covers.{get_account-tag_accounts}
use jmdn_fast_sync.Tag.Divide.{blocks_of}
use jmdn_fast_sync.Wire.{
  Phase, accepted, success_phase, header_sync_request, header_sync_response, data_sync_request,
  data_sync_response,
}

-- The blocks that a tag names, in the order in which they are served.
abbrev pub tagged_blocks : Tag → List ℕ
tagged_blocks tag = tag.block_number ++ blocks_of tag.range

-- A store that finds the item of every block up to its height.
pub record IsExact {A : Type 0} (height : ℕ) (numbers : List ℕ → Result (List A))
    (range : ℕ → ℕ → Result (List A)) (item_of : ℕ → A) : Type 0 where
  pub on_numbers : (ns : List ℕ) → All (λ n. n ≤ height) ns → numbers ns ≡ ok (map item_of ns)
  pub on_range : (a b : ℕ) → b ≤ height → range a b ≡ ok (map item_of (span a (b + 1 - a)))

-- Every block of the tag is in the chain.
pub record IsHeld (height : ℕ) (tag : Tag) : Type 0 where
  pub numbers : All (λ n. n ≤ height) tag.block_number
  pub ranges : All (λ r. r.end ≤ height) tag.range

fetch_ranges-IsExact :
    {A : Type 0} (height : ℕ) (numbers : List ℕ → Result (List A)) (range : ℕ → ℕ → Result (List A))
    (item_of : ℕ → A) (rs : List RangeTag) (found : List A)
    → IsExact height numbers range item_of
    → All (λ r. r.end ≤ height) rs
    → fetch_ranges range found rs ≡ ok (found ++ map item_of (blocks_of rs))
unfolding fetch_ranges
fetch_ranges-IsExact height numbers range item_of [] found x held = ap ok (sym (append-nil found))
fetch_ranges-IsExact height numbers range item_of (r ∷ rs) found x held =
    rw (x.on_range r.start r.end held.0, fetch_ranges)
      (fetch_ranges-IsExact height numbers range item_of rs
          (found ++ map item_of (span r.start (r.end + 1 - r.start))) x held.1
        ∙ ap ok (rw map-append (rw append_assoc refl)))

single_query :
    {A : Type 0} (numbers : List ℕ → Result (List A)) (item_of : ℕ → A) (ns : List ℕ)
    → numbers ns ≡ ok (map item_of ns)
    → (if ltb 0 (length ns) then numbers ns else ok []) ≡ ok (map item_of ns)
single_query numbers item_of [] e = refl
single_query numbers item_of (n ∷ ns) e =
    let some_numbers : ltb 0 (length (n ∷ ns)) ≡ true = ground arith in rw some_numbers e

-- The transfer sends from or to an address whose encoding is the key.
module _ (encode : Bytes → String) (key : String) where
  abbrev pub is_key : Bytes → Bool
  is_key address = not (length address == 0) && str_eq (encode address) key

  abbrev pub moves : Option Transfer → Bool
  moves none = false
  moves (some tx) = is_key tx.from || is_key tx.to

  abbrev pub touched : NonHeaders → Bool
  touched b = any moves b.transactions

  get_account-tag_address :
      (address : Bytes) (t : Tagging)
      → get_account (tag_address encode address t).account_tag key
        ≡ (is_key address || get_account t.account_tag key)
  get_account-tag_address address t = elim (Bool-cases (length address == 0)) [
    | inl empty ↦ rw empty refl
    | inr filled ↦ rw filled (get_account-tag_accounts t (encode address) key)
  ]

  get_account-tag_transfers :
      (t : Tagging) (txs : List (Option Transfer))
      → get_account (tag_transfers encode t txs).account_tag key
        ≡ (get_account t.account_tag key || any moves txs)
  unfolding tag_transfers
  get_account-tag_transfers t [] = ground arith
  get_account-tag_transfers t (none ∷ txs) = get_account-tag_transfers t txs
  get_account-tag_transfers t (some tx ∷ txs) =
      let t' = tag_address encode tx.from t in
      ground (
        arith,
        get_account-tag_address tx.from t,
        get_account-tag_address tx.to t',
        get_account-tag_transfers (tag_address encode tx.to t') txs,
      )

  get_account-tag_blocks :
      (t : Tagging) (bs : List NonHeaders)
      → get_account (tag_blocks encode t bs).account_tag key
        ≡ (get_account t.account_tag key || any touched bs)
  unfolding tag_blocks
  get_account-tag_blocks t [] = ground arith
  get_account-tag_blocks t (b ∷ bs) = ground (
    arith,
    get_account-tag_transfers t b.transactions,
    get_account-tag_blocks (tag_transfers encode t b.transactions) bs,
  )

module _ (chain : Chain) (tag : Tag) (held : IsHeld chain.block_number tag) where
  header_sync-IsExact :
      (header_of : ℕ → Header)
      → IsExact chain.block_number chain.headers chain.headers_range header_of
      → header_sync (some chain) tag ≡ record {
        header = map header_of (tagged_blocks tag);
        ack = accepted;
        phase = success_phase header_sync_response merge_request none;
      }
  unfolding header_sync
  header_sync-IsExact header_of x =
      rw (x.on_numbers tag.block_number held.numbers, header_sync)
        (rw (fetch_ranges-IsExact _ _ _ header_of _ _ x held.ranges) (rw map-append refl))

  data_sync-IsExact :
      (encode : Bytes → String) (body_of : ℕ → NonHeaders)
      → IsExact chain.block_number chain.non_headers chain.non_headers_range body_of
      → data_sync encode (some chain) tag ≡ record {
        content = map body_of (tagged_blocks tag);
        taggedaccounts =
            (tag_blocks encode new_tagging (map body_of (tagged_blocks tag))).account_tag;
        ack = accepted;
        phase = success_phase data_sync_response merge_request none;
      }
  unfolding data_sync
  data_sync-IsExact encode body_of x =
      let numbers = x.on_numbers tag.block_number held.numbers in
      rw (single_query chain.non_headers body_of tag.block_number numbers, data_sync)
        (rw (fetch_ranges-IsExact _ _ _ body_of _ _ x held.ranges) (rw map-append refl))

module _ (tokens : Tokens) (node : Service) (cache : tokens.Cache) (remote : tokens.Peer)
    (chain : Chain) (present : node.chain ≡ some chain) (p : Phase)
    (known : IsAuthorized tokens node cache p.auth remote) (tag : Tag)
    (held : IsHeld chain.block_number tag) where
  -- HandleHeaderSync serves an authorized peer exactly the headers of the blocks that its tag names, in
  -- the order of the tag, when the chain holds these blocks.
  pub handle_header_sync-IsExact :
      (header_of : ℕ → Header)
      → IsExact chain.block_number chain.headers chain.headers_range header_of
      → str_eq p.present_phase header_sync_request ≡ true
      → handle_header_sync tokens node cache (record { tag = some tag; phase = some p }) remote
        ≡ answered (
          record {
            header = map header_of (tagged_blocks tag);
            ack = accepted;
            phase = success_phase header_sync_response merge_request p.auth;
          },
          tokens.reset_ttl cache remote,
        )
  unfolding handle_header_sync header_sync
  handle_header_sync-IsExact header_of x asks =
      gate-IsAuthorized tokens node cache remote p.auth _ _ _ chain known present
      ∙ rw asks (rw present (rw (header_sync-IsExact chain tag held header_of x) refl))

  -- HandleDataSync serves an authorized peer exactly the bodies of the blocks that its tag names, in the
  -- order of the tag, when the chain holds these blocks; and it tags exactly the accounts that some
  -- transaction of these bodies sends from or to.
  pub handle_data_sync-IsExact :
      (encode : Bytes → String) (body_of : ℕ → NonHeaders)
      → IsExact chain.block_number chain.non_headers chain.non_headers_range body_of
      → str_eq p.present_phase data_sync_request ≡ true
      → (reply : DataSyncResponse) × (handle_data_sync tokens encode node cache
            (record { tag = some tag; phase = some p })
            remote
          ≡ answered (reply, tokens.reset_ttl cache remote))
        × (reply.content ≡ map body_of (tagged_blocks tag))
        × ((key : String)
            → get_account reply.taggedaccounts key
              ≡ any (touched encode key) (map body_of (tagged_blocks tag)))
        × (reply.phase ≡ success_phase data_sync_response merge_request p.auth)
  unfolding handle_data_sync get_account
  handle_data_sync-IsExact encode body_of x asks =
      let content = map body_of (tagged_blocks tag) in
      let served : DataSyncResponse = record {
        content = content;
        taggedaccounts = (tag_blocks encode new_tagging content).account_tag;
        ack = accepted;
        phase = success_phase data_sync_response merge_request p.auth;
      } in
      (
        served,
        gate-IsAuthorized tokens node cache remote p.auth _ _ _ chain known present
            ∙ rw asks (rw present (rw (data_sync-IsExact chain tag held encode body_of x) refl)),
        refl,
        λ key. get_account-tag_blocks encode key new_tagging content,
        refl,
      )
