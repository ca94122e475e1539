-- ===== src/Pots/Compare.antt =====
-- core/protocol/router/helper/pots/compare_maps.go: which of the server's blocks the client lacks.
use jmdn_fast_sync.Common.{
  ℕ, ◌≡◌, refl, ◌↔◌, Bool, true, false, ◌&&◌, none, some, List, [], ◌∷◌, ◌==◌, length,
  if◌then◌else◌, Bool-cases, ◌≢◌, ap, sym, ◌||◌, Option-cases, inl, inr, arith,
}
use jmdn_fast_sync.Pots.BlockMap.{Bytes, BlockMap, lookup, delete, has_key, lookup-delete}

-- The loop of `bytesEqual`, for slices of one length.
same_bytes : Bytes → Bytes → Bool
same_bytes (x ∷ xs) (y ∷ ys) = if x == y then same_bytes xs ys else false
same_bytes xs ys = true

unfoldable pub bytes_equal : Bytes → Bytes → Bool
unfolding same_bytes
bytes_equal a b = if length a == length b then same_bytes a b else false

-- The test of one round of `CompareMaps`: the client holds the block with the server's hash.
unfoldable pub client_has : BlockMap → ℕ → Bytes → Bool
client_has client key server_hash = elim (lookup key client) [
  | none ↦ false
  | some client_hash ↦ bytes_equal server_hash client_hash
]

-- The loop: `left` are the entries of the server's map that are still to be visited.
compare_entries : BlockMap → BlockMap → List (ℕ × Bytes) → BlockMap
compare_entries server client [] = server
compare_entries server client ((key, hash) ∷ left) =
    compare_entries (if client_has client key hash then delete key server else server) client left

unfoldable pub compare_maps : BlockMap → BlockMap → BlockMap
unfolding compare_entries
compare_maps server client = compare_entries server client server

same_bytes_iff : (a b : Bytes) → length a ≡ length b → (same_bytes a b ≡ true) ↔ (a ≡ b)
unfolding same_bytes
same_bytes_iff [] [] h = (λ _. refl, λ _. refl)
same_bytes_iff [] (y ∷ ys) h = absurd (omega arith)
same_bytes_iff (x ∷ xs) [] h = absurd (omega arith)
same_bytes_iff (x ∷ xs) (y ∷ ys) h =
    let (to, from) = same_bytes_iff xs ys (omega arith) in (λ e. ground arith, λ e. ground arith)

length-eq : (a b : Bytes) → a ≡ b → length a ≡ length b
length-eq a b e = ap length e

-- `bytesEqual` decides equality.
pub bytes_equal_iff : (a b : Bytes) → (bytes_equal a b ≡ true) ↔ (a ≡ b)
unfolding bytes_equal
bytes_equal_iff a b = elim (Bool-cases (length a == length b)) [
  | inl e ↦ rw e (same_bytes_iff a b (ground arith))
  | inr n ↦ rw n (λ h. cc, λ h. absurd (ground (arith, length-eq a b h)))
]

-- Some entry that is visited has the key, and the client holds it.
abbrev dropped : BlockMap → ℕ → List (ℕ × Bytes) → Bool
dropped client b [] = false
dropped client b ((k, h) ∷ left) = (k == b) && client_has client k h || dropped client b left

lookup-compare_entries :
    (left server client : BlockMap) (b : ℕ)
    → lookup b (compare_entries server client left)
      ≡ (if dropped client b left then none else lookup b server)
unfolding compare_entries
lookup-compare_entries [] server client b = refl
lookup-compare_entries ((k, h) ∷ left) server client b = elim (Bool-cases (client_has client k h)) [
  | inl held ↦ rw held (
      ground
        (arith, lookup-compare_entries left (delete k server) client b, lookup-delete k b server))
  | inr lacks ↦ rw lacks (ground (arith, lookup-compare_entries left server client b))
]

-- A Go map holds each key once.
abbrev pub Distinct : BlockMap → Type 0
Distinct [] = Unit
Distinct ((k, v) ∷ m) = (has_key k m ≡ false) × Distinct m

dropped-absent :
    (client : BlockMap) (b : ℕ) (m : BlockMap) → has_key b m ≡ false → dropped client b m ≡ false
dropped-absent client b [] h = refl
dropped-absent client b ((k, v) ∷ m) h = ground (arith, dropped-absent client b m)

-- For a key of the map, what is dropped is what the client holds.
dropped_lem :
    (client : BlockMap) (b : ℕ) (m : BlockMap) (hash : Bytes)
    → Distinct m
    → lookup b m ≡ some hash
    → dropped client b m ≡ client_has client b hash
unfolding lookup
dropped_lem client b [] hash d e = cc
dropped_lem client b ((k, v) ∷ m) hash d e = elim (Bool-cases (k == b)) [
  | inl same ↦
      let kb : k ≡ b = ground arith in
      let e' : some v ≡ some hash = rw same at e in
      let vh : v ≡ hash = cc in
      rw (dropped-absent client b m (rw (← kb) d.0)) (rw same (rw (kb, vh) (ground arith)))
  | inr other ↦ rw other (dropped_lem client b m hash d.1 (rw other at e))
]

client_has_iff :
    (client : BlockMap) (b : ℕ) (hash : Bytes)
    → (client_has client b hash ≡ true) ↔ (lookup b client ≡ some hash)
unfolding client_has
client_has_iff client b hash = elim (Option-cases (lookup b client)) [
  | inl e ↦ rw (e, client_has) (λ h. cc, λ h. cc)
  | inr (c, e) ↦
      rw (e, client_has)
        (
          λ h. ap some (sym ((bytes_equal_iff hash c).0 h)),
          λ h. let same : hash ≡ c = cc in (bytes_equal_iff hash c).1 same,
        )
]

-- The map that `CompareMaps` returns holds a hash for a block exactly when the server's map does and
-- the client's map does not hold that hash for the block. The server's keys are distinct.
pub lookup-compare_maps :
    (server client : BlockMap) (b : ℕ) (hash : Bytes)
    → Distinct server
    → (lookup b (compare_maps server client) ≡ some hash)
      ↔ ((lookup b server ≡ some hash) × (lookup b client ≢ some hash))
unfolding compare_maps
lookup-compare_maps server client b hash d = (to, from)
  where
    result :
        lookup b (compare_maps server client)
        ≡ (if dropped client b server then none else lookup b server)
    result = lookup-compare_entries server server client b

    to :
        lookup b (compare_maps server client) ≡ some hash
        → (lookup b server ≡ some hash) × (lookup b client ≢ some hash)
    to e =
        let kept : dropped client b server ≡ false = ground (arith, result) in
        let held : lookup b server ≡ some hash = ground (arith, result) in
        (
          held,
          λ c.
              ground (
                arith,
                dropped_lem client b server hash d held,
                (client_has_iff client b hash).1 c,
              ),
        )

    from :
        (lookup b server ≡ some hash) × (lookup b client ≢ some hash)
        → lookup b (compare_maps server client) ≡ some hash
    from (held, lacks) = elim (Bool-cases (client_has client b hash)) [
      | inl h ↦ absurd (lacks ((client_has_iff client b hash).0 h))
      | inr n ↦ ground (arith, result, dropped_lem client b server hash d held)
    ]
