-- ===== src/Router/Sync/Covers.antt =====
-- What SYNC_REQUEST tells a client to synchronise: all blocks on a full synchronisation, and every differing
-- block after a comparison of the trees.
use Prim.Native.String.{String}
use text.Mathlib.Text.{◌==◌ as str_eq}
use jmdn_fast_sync.Common.{
  ℕ, ◌+◌, ◌-◌, ◌≤◌, ◌<◌, ◌≡◌, refl, ◌∙◌, sym, ◌⊎◌, inl, inr, true, false, ◌||◌, ◌&&◌, none, some,
  List, [], u64_mod, sub64, leb, ltb, any, Option-cases, arith, if◌then◌else◌,
}
use jmdn_fast_sync.Common.Result.{ok, answered, ◌>>=◌}
use jmdn_fast_sync.Common.Span.{span}
use jmdn_fast_sync.Bisection.{Diff}
use jmdn_fast_sync.Bisection.Complete.{Reports, data_bisect-covers}
use jmdn_fast_sync.Bisection.Layers.{diff_holds}
use jmdn_fast_sync.Checksum.{PriorSync, PriorMetadata, u16, verify_from_pb}
use jmdn_fast_sync.HeaderSync.Batches.{max_headers_per_request}
use jmdn_fast_sync.Router.{Chain}
use jmdn_fast_sync.Router.Serve.{
  SnapshotConfig, full_sync, full_sync_request, header_sync_message, bisection,
}
use jmdn_fast_sync.Router.Sync.{
  World, refuse, to_sync, min_blocks, clamp_range, needs_full_sync, bisect_trees, compare_roots,
  compare_chains, sync_request, ensure_registered, target_tree,
}
use jmdn_fast_sync.Tag.{Tag}
use jmdn_fast_sync.Tag.Covers.{covers}
use jmdn_fast_sync.Tag.Divide.{blocks_of, divide_tags_lem}
use jmdn_fast_sync.Wire.{accepted, success_phase, header_sync_request, header_sync_response}

-- A full synchronisation is chosen for a client of at most 500 blocks that is 500 blocks behind, or that is
-- ahead of the server, where the difference of the 64-bit heights wraps around.
needs_full_sync_lem :
    (client server : ℕ)
    → client < u64_mod
    → server < u64_mod
    → needs_full_sync client server
      ≡ (leb client min_blocks && (leb (client + min_blocks) server || ltb server client))
unfolding needs_full_sync sub64
needs_full_sync_lem client server c s = ground arith

-- A request that passes the checks before the comparison.
pub record IsVerified (world : World) (request : PriorSync world.trees.Snapshot) : Type 0 where
  pub metadata : PriorMetadata
  pub present : request.metadata ≡ some metadata
  pub verified :
      verify_from_pb world.crc32 world.sha256 world.marshal request
        (u16 metadata.version)
        metadata.checksum
      ≡ ok true

module _ (world : World) (uuid : String) (chain : Chain) (request : PriorSync world.trees.Snapshot)
    (known : IsVerified world request) where
  open world.trees use {
    Builder, Snapshot, Hash, same_hash, finalize, tree_diff, from_snapshot, generate,
  }

  sync_request-IsVerified : sync_request world uuid (some chain) request ≡ (
      if needs_full_sync request.blocknumber chain.block_number
      then (full_sync request chain.block_number >>= λ m. answered (m, uuid))
      else compare_chains world uuid chain.block_number request)
  unfolding sync_request
  sync_request-IsVerified = elim (Option-cases request.metadata) [
    | inl absent ↦ let e : none ≡ some known.metadata = sym absent ∙ known.present in cc
    | inr (m, found) ↦
        let same : m ≡ known.metadata =
          let e : some m ≡ some known.metadata = sym found ∙ known.present in cc in
        simp (found, same, known.verified, sync_request)
  ]

  -- A verified request of a client that has at most 500 blocks, and is either at least 500 blocks behind the
  -- server or ahead of it, is answered with a full synchronisation: the reply succeeds, and its tag holds
  -- only ranges, which list exactly the blocks from the client's height to the server's, each once; for a
  -- client that is ahead that is no block at all. The server's height is below the greatest 64-bit number
  -- less 1500.
  pub sync_request-full :
      request.blocknumber ≤ min_blocks
      → (request.blocknumber + min_blocks ≤ chain.block_number)
        ⊎ (chain.block_number < request.blocknumber)
      → chain.block_number + max_headers_per_request < u64_mod
      → (tag : Tag) × (sync_request world uuid (some chain) request
          ≡ answered (
            record {
              priorsync = some request;
              ack = some accepted;
              phase = some (success_phase full_sync_request header_sync_request none);
              headersync = some (
                  header_sync_message
                    (some tag)
                    (success_phase header_sync_request header_sync_response none));
            },
            uuid,
          ))
        × (blocks_of tag.range
            ≡ span request.blocknumber (chain.block_number + 1 - request.blocknumber))
        × (tag.block_number ≡ [])
  unfolding full_sync
  sync_request-full small far fits =
      let full : needs_full_sync request.blocknumber chain.block_number ≡ true =
        (needs_full_sync_lem _ _ (omega arith) (omega arith) ∙ ground arith) in
      let (tag, e, blocks, none_single, sizes) =
        divide_tags_lem (chain.block_number + 2) request.blocknumber chain.block_number fits
          (omega arith) (omega arith) in
      (tag, sync_request-IsVerified ∙ rw full (rw (e, full_sync) refl), blocks, none_single)

  -- The two trees that the comparison is about.
  pub record IsComparable : Type 0 where
    pub snapshot : Snapshot
    pub config : SnapshotConfig
    pub target : Builder
    pub mine : Builder
    pub sent : request.merklesnapshot ≡ some snapshot
    pub configured : world.config snapshot ≡ some config
    pub rebuilt : from_snapshot snapshot ≡ some target
    pub built :
        let range = clamp_range chain.block_number request.range in
        generate range.start range.end config.block_merge config.expected_total ≡ some mine
    pub theirs : Hash
    pub ours : Hash
    pub target_root : finalize target ≡ some theirs
    pub own_root : finalize mine ≡ some ours
    pub unequal : same_hash theirs ours ≡ false
    pub unequal' : same_hash ours theirs ≡ false

  -- The request as it is returned, with the range that was compared.
  abbrev clamped : PriorSync Snapshot
  clamped = record request { range = some (clamp_range chain.block_number request.range) }

  -- For a verified request that needs no full synchronisation, to a router that is registered with the
  -- client: let the two trees be built, let their roots have unequal hashes, let the nodes differ in a
  -- block, and let the tree comparisons report it, as `Reports` says. The reply either has a tag that
  -- covers the block, or it is the refusal of a failed bisection.
  pub sync_request-covers :
      (Differs : ℕ → Type 0) (reports : Reports world.trees Differs) (b : ℕ)
      → Differs b
      → (built : IsComparable) → needs_full_sync request.blocknumber chain.block_number ≡ false
      → str_eq uuid "" ≡ false
      → ((ds : List Diff)
          → tree_diff built.mine built.target ≡ some ds
          → any (diff_holds b) ds ≡ true)
      → ((tag : Tag) × (sync_request world uuid (some chain) request
            ≡ answered (to_sync world clamped tag, uuid))
          × (covers tag b ≡ true))
        ⊎ (sync_request world uuid (some chain) request
            ≡ answered (refuse world clamped (world.text bisection), uuid))
  unfolding compare_chains target_tree compare_roots bisect_trees ensure_registered
  sync_request-covers Differs reports b differs built small registered reported =
      elim (data_bisect-covers world.trees Differs reports b differs built.mine built.target
        unequal_roots reported) [
          | inl (tag, e, c) ↦ inl (tag, bisected ∙ rw (registered, bisect_trees) (rw e refl), c)
          | inr e ↦ inr (bisected ∙ rw (registered, bisect_trees) (rw e refl))
        ]
    where
      unequal_roots :
          (x y : Hash)
          → finalize built.mine ≡ some x
          → finalize built.target ≡ some y
          → same_hash x y ≡ false
      unequal_roots x y p q =
          let e : built.ours ≡ x =
            let e' : some built.ours ≡ some x = sym built.own_root ∙ p in cc in
          let k : built.theirs ≡ y =
            let k' : some built.theirs ≡ some y = sym built.target_root ∙ q in cc in
          rw (← e) (rw (← k) built.unequal')

      bisected :
          sync_request world uuid (some chain) request
          ≡ bisect_trees world uuid clamped built.mine built.target
      bisected =
          sync_request-IsVerified
          ∙ rw small (
              simp (
                built.sent, built.configured, built.rebuilt, built.built, built.target_root,
                built.own_root, built.unequal, compare_chains, target_tree, compare_roots,
              ))
