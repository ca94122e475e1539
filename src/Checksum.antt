-- ===== src/Checksum.antt =====
-- internal/checksum/checksum.go and common/checksum/checksum_priorsync/priorsync_checksum.go: the
-- checksum of a PriorSync message. The two checksum functions and the protobuf encoder are parameters.
use jmdn_fast_sync.Common.{
  ℕ, ◌/◌, ◌%◌, ◌^◌, ◌≡◌, ◌↔◌, refl, ap, Bool, true, false, ◌||◌, Option, none, some, [], ◌∷◌, ◌==◌,
  if◌then◌else◌, not, length, Bool-cases, inl, inr, arith,
}
use jmdn_fast_sync.Common.Result.{Result, ok, fails, Result-cases}
use jmdn_fast_sync.Pots.BlockMap.{Bytes}

pub record MerkleRange : Type 0 where
  pub start : ℕ
  pub end : ℕ

pub record PriorMetadata : Type 0 where
  pub checksum : Bytes
  pub version : ℕ

-- `PriorSync` of common/proto/priorsync.
pub record PriorSync (Snapshot : Type 0) : Type 0 where
  pub blocknumber : ℕ
  pub stateroot : Bytes
  pub blockhash : Bytes
  pub metadata : Option PriorMetadata
  pub merklesnapshot : Option Snapshot
  pub range : Option MerkleRange

-- `uint16(version)`
abbrev pub u16 : ℕ → ℕ
u16 n = n % 2 ^ 16

unfoldable pub check_version : ℕ → Bool
check_version version = (version == 1) || (version == 2)

-- `binary.BigEndian.PutUint32`
abbrev pub big_endian : ℕ → Bytes
big_endian n = n / 2 ^ 24 % 256 ∷ n / 2 ^ 16 % 256 ∷ n / 2 ^ 8 % 256 ∷ n % 256 ∷ []

-- The loop of `Verify`, for slices of one length.
unfoldable pub equal_bytes : Bytes → Bytes → Bool
equal_bytes [] expected = true
equal_bytes (b ∷ got) [] = true
equal_bytes (b ∷ got) (e ∷ expected) = if not (b == e) then false else equal_bytes got expected

-- What the encoder is given: `PriorSync` with an empty snapshot and empty metadata.
pub record Encoded : Type 0 where
  pub number : ℕ
  pub root : Bytes
  pub hash : Bytes
  pub span : Option MerkleRange

abbrev pub encoded : {Snapshot : Type 0} → PriorSync Snapshot → Encoded
encoded input = record {
  number = input.blocknumber;
  root = input.stateroot;
  hash = input.blockhash;
  span = input.range;
}

-- `crc32.ChecksumIEEE`, `sha256.Sum256` and `proto.Marshal`, which returns no nil slice.
module _ (crc32 : Bytes → ℕ) (sha256 : Bytes → Bytes) (marshal : Encoded → Result Bytes) where
  unfoldable pub create : Option Bytes → ℕ → Result Bytes
  create none version = fails "data is nil"
  create (some input) version =
      if version == 1
      then ok (big_endian (crc32 input))
      else (if version == 2 then ok (sha256 input) else fails "unsupported checksum version")

  unfoldable pub verify : Option Bytes → ℕ → Bytes → Result Bool
  unfolding create equal_bytes
  verify input version expected = elim (create input version) [
    | fails e ↦ fails e
    | ok got ↦
        if not (length got == length expected) then ok false else ok (equal_bytes got expected)
  ]

  unfoldable pub create_from_pb : {Snapshot : Type 0} → PriorSync Snapshot → ℕ → Result Bytes
  unfolding create check_version
  create_from_pb input version =
      if not (check_version version)
      then fails "unsupported checksum version"
      else elim (marshal (encoded input)) [
        | fails e ↦ fails e
        | ok bytes ↦ create (some bytes) version
      ]

  -- `VerifyfromPB`, with the `Verify` that it calls.
  unfoldable pub verify_from_pb : {Snapshot : Type 0} → PriorSync Snapshot → ℕ → Bytes → Result Bool
  unfolding verify check_version
  verify_from_pb input version expected =
      if not (check_version version)
      then fails "unsupported checksum version"
      else elim (marshal (encoded input)) [
        | fails e ↦ fails e
        | ok bytes ↦ verify (some bytes) version expected
      ]

pub equal_bytes_iff :
    (got expected : Bytes)
    → length got ≡ length expected
    → (equal_bytes got expected ≡ true) ↔ (got ≡ expected)
unfolding equal_bytes
equal_bytes_iff [] [] n = (λ h. refl, λ h. refl)
equal_bytes_iff [] (e ∷ es) n = ground (arith, n)
equal_bytes_iff (b ∷ bs) [] n = ground (arith, n)
equal_bytes_iff (b ∷ bs) (e ∷ es) n =
    let ih = equal_bytes_iff bs es (omega (arith, n)) in
    elim (Bool-cases (b == e)) [
      | inl same ↦
          let same' : b ≡ e = ground arith in
          rw same (rw same' (λ h. ap (◌∷◌ e) (ih.0 h), λ h. ih.1 cc))
      | inr other ↦ rw other (λ h. cc, λ h. let head : b ≡ e = cc in ground (arith, head, other))
    ]

module _ (crc32 : Bytes → ℕ) (sha256 : Bytes → Bytes) (marshal : Encoded → Result Bytes) where
  pub verify_iff :
      (input : Option Bytes) (version : ℕ) (expected : Bytes)
      → (verify crc32 sha256 marshal input version expected ≡ ok true)
        ↔ (create crc32 sha256 marshal input version ≡ ok expected)
  unfolding verify
  verify_iff input version expected =
      elim (Result-cases (create crc32 sha256 marshal input version)) [
        | inl (e, failed) ↦ rw (failed, verify) (λ h. cc, λ h. cc)
        | inr (got, made) ↦ elim (Bool-cases (length got == length expected)) [
          | inl same ↦
              let n : length got ≡ length expected = ground arith in
              let e = equal_bytes_iff got expected n in
              rw (made, verify) (rw same (λ h. ap ok (e.0 cc), λ h. ap ok (e.1 cc)))
          | inr other ↦
              rw (made, verify)
                (rw other
                  (λ h. cc, λ h. let same : got ≡ expected = cc in ground (arith, same, other)))
        ]
      ]

  -- The verification of a message under a version accepts exactly the checksum that the creation
  -- computes for it.
  pub verify_from_pb_iff :
      {Snapshot : Type 0} (input : PriorSync Snapshot) (version : ℕ) (expected : Bytes)
      → (verify_from_pb crc32 sha256 marshal input version expected ≡ ok true)
        ↔ (create_from_pb crc32 sha256 marshal input version ≡ ok expected)
  unfolding verify_from_pb create_from_pb
  verify_from_pb_iff input version expected = elim (Bool-cases (check_version version)) [
    | inr old ↦ rw old (λ h. cc, λ h. cc)
    | inl known ↦ rw known (elim (Result-cases (marshal (encoded input))) [
      | inl (e, failed) ↦ rw failed (λ h. cc, λ h. cc)
      | inr (bytes, made) ↦ rw made (verify_iff (some bytes) version expected)
    ])
  ]
