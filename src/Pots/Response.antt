-- ===== src/Pots/Response.antt =====
-- `ProcessPoTSRequest` of core/protocol/router/helper/pots/pots_tags.go, with the builder of
-- pots_response.go. The block store is a parameter.
use Prim.Native.String.{String}
use jmdn_fast_sync.Common.{
  ℕ, ◌≡◌, ◌≢◌, ◌<◌, refl, ap, ◌∙◌, sym, ◌↔◌, ◌⊎◌, Bool, true, false, ◌||◌, Option, none, some, List,
  [], ◌∷◌, add64, leb, ◌==◌, if◌then◌else◌, Bool-cases, Option-cases, length, inl, inr, arith,
}
use jmdn_fast_sync.Pots.BlockMap.{Bytes, BlockMap, lookup, store, has_key, lookup-store}
use jmdn_fast_sync.Pots.Compare.{Distinct, compare_maps, lookup-compare_maps}
use jmdn_fast_sync.Pots.Tags.{generate_tags, covers-generate_tags}
use jmdn_fast_sync.Tag.{Tag, empty_tag}
use jmdn_fast_sync.Tag.Covers.{covers}
use jmdn_fast_sync.Wire.{Phase, failure, header_sync_request, pots_response}

pub record Header : Type 0 where
  pub block_number : ℕ
  pub block_hash : Bytes

-- The part of `types.BlockInfo` that is called: the height, and the headers of a range or an error.
pub record BlockInfo : Type 0 where
  pub height : ℕ
  pub headers_range : ℕ → ℕ → Option (List Header)

pub record PotsRequest : Type 0 where
  pub latest_block_number : ℕ
  pub blocks : BlockMap

pub record PotsResponse : Type 0 where
  pub tag : Option Tag
  pub latest_block_number : ℕ
  pub phase : Phase

pub data PotsError : Type 0 where
  nil_request not_initialized query_failed no_headers : PotsError

-- The builder with the fields that were added; the others keep their zero values.
abbrev pub built : Option Tag → ℕ → Bool → String → String → PotsResponse
built tag latest success error successive = record {
  tag = tag;
  latest_block_number = latest;
  phase = record {
    present_phase = pots_response;
    successive_phase = successive;
    success = success;
    error = error;
    auth = none;
  };
}

-- The loop that fills `serverMap`: a later header of one number replaces an earlier one.
unfoldable pub server_map : BlockMap → List Header → BlockMap
server_map m [] = m
server_map m (h ∷ hs) = server_map (store h.block_number h.block_hash m) hs

-- `message` is the text of an error, which the source formats.
module _ (message : PotsError → String) where
  abbrev pub refusal : PotsError → ℕ → PotsResponse × Option PotsError
  refusal e latest = (built none latest false (message e) failure, some e)

  unfoldable pub answer : BlockInfo → PotsRequest → PotsResponse × Option PotsError
  answer info request =
      let server_latest = info.height in
      let client_latest = request.latest_block_number in
      if leb server_latest client_latest
      then (built (some empty_tag) server_latest true "" header_sync_request, none)
      else elim (info.headers_range (add64 client_latest 1) server_latest) [
        | none ↦ refusal query_failed server_latest
        | some headers ↦
            if length headers == 0
            then refusal no_headers server_latest
            else let diff = compare_maps (server_map [] headers) request.blocks in
              (built (some (generate_tags diff)) server_latest true "" header_sync_request, none)
      ]

  unfoldable pub process_pots_request :
      Option BlockInfo → Option PotsRequest → PotsResponse × Option PotsError
  unfolding answer
  process_pots_request info none = refusal nil_request 0
  process_pots_request none (some request) = refusal not_initialized 0
  process_pots_request (some info) (some request) = answer info request

has_key-store :
    (key b : ℕ) (v : Bytes) (m : BlockMap) → has_key b (store key v m) ≡ ((key == b) || has_key b m)
unfolding store
has_key-store key b v [] = refl
has_key-store key b v ((k, w) ∷ m) = ground (arith, has_key-store key b v m)

store-Distinct : (key : ℕ) (v : Bytes) (m : BlockMap) → Distinct m → Distinct (store key v m)
unfolding store
store-Distinct key v [] d = (refl, tt)
store-Distinct key v ((k, w) ∷ m) d = elim (Bool-cases (k == key)) [
  | inl same ↦ rw same d
  | inr other ↦ rw other (ground (arith, has_key-store key k v m, d.0), store-Distinct key v m d.1)
]

server_map-Distinct : (hs : List Header) (m : BlockMap) → Distinct m → Distinct (server_map m hs)
unfolding server_map
server_map-Distinct [] m d = d
server_map-Distinct (h ∷ hs) m d =
    server_map-Distinct hs (store h.block_number h.block_hash m)
      (store-Distinct h.block_number h.block_hash m d)

-- The hash of the last of the headers with a number.
abbrev pub hash_given : List Header → ℕ → Option Bytes
hash_given [] b = none
hash_given (h ∷ hs) b = elim (hash_given hs b) [
  | some hash ↦ some hash
  | none ↦ if h.block_number == b then some h.block_hash else none
]

abbrev or_else : Option Bytes → Option Bytes → Option Bytes
or_else none other = other
or_else (some hash) other = some hash

lookup-server_map :
    (hs : List Header) (m : BlockMap) (b : ℕ)
    → lookup b (server_map m hs) ≡ or_else (hash_given hs b) (lookup b m)
unfolding server_map
lookup-server_map [] m b = refl
lookup-server_map (h ∷ hs) m b =
    lookup-server_map hs (store h.block_number h.block_hash m) b
    ∙ ap (or_else (hash_given hs b)) (lookup-store h.block_number b h.block_hash m)
    ∙ (elim (Option-cases (hash_given hs b)) [
      | inr (hash, later) ↦ rw later refl
      | inl no_later ↦ elim (Bool-cases (h.block_number == b)) [
        | inl same ↦ rw no_later (rw same refl)
        | inr other ↦ rw no_later (rw other refl)
      ]
    ])

lookup-server : (hs : List Header) (b : ℕ) → lookup b (server_map [] hs) ≡ hash_given hs b
unfolding lookup
lookup-server hs b = lookup-server_map hs [] b ∙ right_none (hash_given hs b)
  where
    right_none : (o : Option Bytes) → or_else o none ≡ o
    right_none none = refl
    right_none (some hash) = refl

-- A key is in the map exactly when a lookup finds a value.
has_key_iff : (b : ℕ) (m : BlockMap) → (has_key b m ≡ true) ↔ ((v : Bytes) × (lookup b m ≡ some v))
unfolding lookup
has_key_iff b [] = (λ h. cc, λ h. cc (h.1))
has_key_iff b ((k, w) ∷ m) = elim (Bool-cases (k == b)) [
  | inl same ↦ rw same (λ _. (w, refl), λ _. refl)
  | inr other ↦ rw other (has_key_iff b m)
]

-- For a client behind the server, when the block store returns headers: the response succeeds with no
-- error and the server's height, and its tag names a block exactly when the server has returned a header of
-- it and the hash of the last such header is not the hash in the client's map.
pub process_pots_request_lem :
    (message : PotsError → String) (info : BlockInfo) (request : PotsRequest)
    (headers : List Header)
    → request.latest_block_number < info.height
    → info.headers_range (add64 request.latest_block_number 1) info.height ≡ some headers
    → length headers ≢ 0
    → (tag : Tag) × (process_pots_request message (some info) (some request)
        ≡ (built (some tag) info.height true "" header_sync_request, none))
      × ((b : ℕ)
          → (covers tag b ≡ true) ↔ (
              (hash : Bytes) × (hash_given headers b ≡ some hash)
              × (lookup b request.blocks ≢ some hash)))
unfolding process_pots_request
process_pots_request_lem message info request headers behind found some_headers =
    (generate_tags diff, run, λ b. (to b, from b))
  where
    diff : BlockMap
    diff = compare_maps (server_map [] headers) request.blocks

    run :
        process_pots_request message (some info) (some request)
        ≡ (built (some (generate_tags diff)) info.height true "" header_sync_request, none)
    run =
        let older : leb info.height request.latest_block_number ≡ false = ground arith in
        let filled : (length headers == 0) ≡ false = ground arith in
        rw (older, answer) (rw found (rw filled))

    distinct : Distinct (server_map [] headers)
    distinct = server_map-Distinct headers [] tt

    to :
        (b : ℕ)
        → covers (generate_tags diff) b ≡ true
        → (hash : Bytes) × (hash_given headers b ≡ some hash)
          × (lookup b request.blocks ≢ some hash)
    to b e =
        let (hash, at) = (has_key_iff b diff).0 (sym (covers-generate_tags diff b) ∙ e) in
        let (mine, other) =
          (lookup-compare_maps (server_map [] headers) request.blocks b hash distinct).0 at in
        (hash, sym (lookup-server headers b) ∙ mine, other)

    from :
        (b : ℕ)
        → ((hash : Bytes) × (hash_given headers b ≡ some hash)
            × (lookup b request.blocks ≢ some hash))
        → covers (generate_tags diff) b ≡ true
    from b (hash, mine, other) =
        covers-generate_tags diff b
        ∙ (has_key_iff b diff).1 (
          hash,
          (lookup-compare_maps (server_map [] headers) request.blocks b hash distinct).1
              (lookup-server headers b ∙ mine, other),
        )

-- Every answer either has no error, reports success, carries a tag and points to HeaderSync, or it has
-- an error, reports failure with the error's text and carries no tag.
pub process_pots_request-status :
    (message : PotsError → String) (info : Option BlockInfo) (request : Option PotsRequest)
    → let (response, error) = process_pots_request message info request in
      ((tag : Tag) × (error ≡ none)
        × (response.tag ≡ some tag)
        × (response.phase.success ≡ true)
        × (response.phase.successive_phase ≡ header_sync_request))
      ⊎ ((e : PotsError) × (error ≡ some e)
          × (response.tag ≡ none)
          × (response.phase.success ≡ false)
          × (response.phase.error ≡ message e)
          × (response.phase.successive_phase ≡ failure))
unfolding process_pots_request
process_pots_request-status message info none = inr (nil_request, refl, refl, refl, refl, refl)
process_pots_request-status message none (some request) =
    inr (not_initialized, refl, refl, refl, refl, refl)
process_pots_request-status message (some info) (some request) =
    elim (Bool-cases (leb info.height request.latest_block_number)) [
      | inl current ↦ rw (current, answer) (inl (empty_tag, refl, refl, refl, refl))
      | inr older ↦
          elim (Option-cases
            (info.headers_range (add64 request.latest_block_number 1) info.height)) [
              | inl failed ↦
                  rw (older, answer) (rw failed (inr (query_failed, refl, refl, refl, refl, refl)))
              | inr (headers, found) ↦ elim (Bool-cases (length headers == 0)) [
                | inl absent ↦
                    rw (older, answer)
                      (rw found (rw absent (inr (no_headers, refl, refl, refl, refl, refl))))
                | inr filled ↦
                    rw (older, answer) (rw found (rw filled (inl (_, refl, refl, refl, refl))))
              ]
            ]
    ]
