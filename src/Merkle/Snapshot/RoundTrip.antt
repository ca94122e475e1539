-- ===== src/Merkle/Snapshot/RoundTrip.antt =====
-- helper/merkle/merkle_converter.go: a snapshot that is sent and received.
use jmdn_fast_sync.Common.{
  ◌-◌, ◌%◌, ◌^◌, ◌<◌, ◌≡◌, ◌↔◌, refl, ap, ap₂, inl, inr, List, [], ◌∷◌, map, length, ltb, ◌==◌,
  Bool-cases, All, arith,
}
use jmdn_fast_sync.Common.Int.{ℤ, pos, negsuc}
use jmdn_fast_sync.Common.Result.{answered}
use jmdn_fast_sync.Merkle.Snapshot.{
  TreeNode, nil_node, node, TreeSnapshot, int32, snapshot_node_to_proto, merkle_snapshot_to_proto,
  proto_to_snapshot_node, proto_to_merkle_snapshot,
}

-- An integer of 32 bits.
abbrev pub IsInt32 : ℤ → Type 0
IsInt32 (pos n) = n < 2 ^ 31
IsInt32 (negsuc n) = n < 2 ^ 31

-- Every node of the tree has a root of 32 bytes.
abbrev pub IsWhole : TreeNode → Type 0
IsWhole nil_node = Unit
IsWhole (node left right root start count contents has_data) =
    (length root ≡ 32) × IsWhole left × IsWhole right

int32_iff : (z : ℤ) → (int32 z ≡ z) ↔ IsInt32 z
unfolding int32
int32_iff (pos n) = elim (Bool-cases (ltb (n % 2 ^ 32) (2 ^ 31))) [
  | inl low ↦
      rw (low, int32)
        (
          λ h. let same : n % 2 ^ 32 ≡ n = cc in ground (arith, same, low),
          λ h. ap pos (omega (arith, h)),
        )
  | inr high ↦ rw (high, int32) (λ h. cc, λ h. absurd (ground (arith, h, high)))
]
int32_iff (negsuc n) = elim (Bool-cases (ltb (2 ^ 32 - 1 - n % 2 ^ 32) (2 ^ 31))) [
  | inl low ↦ rw (low, int32) (λ h. cc, λ h. absurd (ground (arith, h, low)))
  | inr high ↦
      rw (high, int32)
        (
          λ h.
              let same : 2 ^ 32 - 1 - (2 ^ 32 - 1 - n % 2 ^ 32) ≡ n = cc in
              ground (arith, same, high),
          λ h. ap negsuc (omega (arith, h)),
        )
]

node_iff : (n : TreeNode) → (proto_to_snapshot_node (snapshot_node_to_proto n) ≡ n) ↔ IsWhole n
unfolding proto_to_snapshot_node snapshot_node_to_proto
node_iff nil_node = (λ h. tt, λ h. refl)
node_iff (node left right root start count contents has_data) =
    let l = node_iff left in
    let r = node_iff right in
    elim (Bool-cases (length root == 32)) [
      | inl whole ↦
          let n : length root ≡ 32 = ground arith in
          rw (whole, proto_to_snapshot_node)
            (
              λ h. (n, l.0 cc, r.0 cc),
              λ w. ap₂ (λ a b. node a b root start count contents has_data) (l.1 w.1) (r.1 w.2),
            )
      | inr short ↦
          rw (short, proto_to_snapshot_node)
            (λ h. cc, λ w. absurd (let n = w.0 in ground (arith, n, short)))
    ]

peaks_iff :
    (ns : List TreeNode)
    → (map proto_to_snapshot_node (map snapshot_node_to_proto ns) ≡ ns) ↔ All IsWhole ns
peaks_iff [] = (λ h. tt, λ h. refl)
peaks_iff (n ∷ ns) =
    let head = node_iff n in
    let rest = peaks_iff ns in
    (λ h. (head.0 cc, rest.0 cc), λ w. ap₂ (λ a b. a ∷ b) (head.1 w.0) (rest.1 w.1))

answered-injective : {A : Type 0} {x y : A} → answered x ≡ answered y → x ≡ y
answered-injective h = cc

-- A snapshot that its message can carry.
pub record IsCarried (m : TreeSnapshot) : Type 0 where
  pub version : IsInt32 m.version
  pub block_merge : IsInt32 m.config.block_merge
  pub peaks : All IsWhole m.peaks

-- A snapshot comes back as it was from its message exactly when its version and its block merge are integers
-- of 32 bits and every node below its peaks has a root of 32 bytes; a peak that is nil may be anywhere.
pub proto_to_merkle_snapshot-merkle_snapshot_to_proto :
    (m : TreeSnapshot)
    → (proto_to_merkle_snapshot (merkle_snapshot_to_proto m) ≡ answered m) ↔ IsCarried m
unfolding proto_to_merkle_snapshot merkle_snapshot_to_proto
proto_to_merkle_snapshot-merkle_snapshot_to_proto m =
    let v = int32_iff m.version in
    let b = int32_iff m.config.block_merge in
    let p = peaks_iff m.peaks in
    (
      λ h.
          let same = answered-injective h in
          record {
            version = v.0 (ap (λ (s : TreeSnapshot). s.version) same);
            block_merge = b.0 (ap (λ (s : TreeSnapshot). s.config.block_merge) same);
            peaks = p.0 (ap (λ (s : TreeSnapshot). s.peaks) same);
          },
      λ c. rw (v.1 c.version) (rw (b.1 c.block_merge) (rw (p.1 c.peaks) refl)),
    )
