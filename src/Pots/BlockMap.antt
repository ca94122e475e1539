-- ===== src/Pots/BlockMap.antt =====
-- A Go `map[uint64][]byte` of block number to block hash, as an association list, and `PoTS_Helper`
-- of core/pots/helper/helper.go, which fills one.
use jmdn_fast_sync.Common.{
  ℕ, ◌≡◌, refl, Bool, false, ◌||◌, Option, none, some, List, [], ◌∷◌, ◌==◌, if◌then◌else◌, arith,
}

-- A block hash.
abbrev pub Bytes : Type 0
Bytes = List ℕ

abbrev pub BlockMap : Type 0
BlockMap = List (ℕ × Bytes)

-- `value, exists := m[key]`
unfoldable pub lookup : ℕ → BlockMap → Option Bytes
lookup key [] = none
lookup key ((k, v) ∷ m) = if k == key then some v else lookup key m

-- `m[key] = value`
unfoldable pub store : ℕ → Bytes → BlockMap → BlockMap
store key value [] = (key, value) ∷ []
store key value ((k, v) ∷ m) = if k == key then (k, value) ∷ m else (k, v) ∷ store key value m

-- `delete(m, key)`
unfoldable pub delete : ℕ → BlockMap → BlockMap
delete key [] = []
delete key ((k, v) ∷ m) = let rest = delete key m in if k == key then rest else (k, v) ∷ rest

abbrev pub has_key : ℕ → BlockMap → Bool
has_key key [] = false
has_key key ((k, v) ∷ m) = (k == key) || has_key key m

pub lookup-store :
    (key j : ℕ) (value : Bytes) (m : BlockMap)
    → lookup j (store key value m) ≡ (if key == j then some value else lookup j m)
unfolding lookup store
lookup-store key j value [] = refl
lookup-store key j value ((k, v) ∷ m) = ground (arith, lookup-store key j value m)

pub lookup-delete :
    (key j : ℕ) (m : BlockMap) → lookup j (delete key m) ≡ (if key == j then none else lookup j m)
unfolding lookup delete
lookup-delete key j [] = ground arith
lookup-delete key j ((k, v) ∷ m) = ground (arith, lookup-delete key j m)

-- `AddBlock`
unfoldable pub add_block : BlockMap → ℕ → Bytes → BlockMap
add_block m number hash = store number hash m

-- `AddBlockBatch`: `blockHashes[i]` out of range panics, which is `none`.
unfoldable pub add_block_batch : BlockMap → List ℕ → List Bytes → Option BlockMap
unfolding add_block
add_block_batch m [] hashes = some m
add_block_batch m (n ∷ ns) [] = none
add_block_batch m (n ∷ ns) (h ∷ hs) = add_block_batch (add_block m n h) ns hs

-- `RemoveBlock`
unfoldable pub remove_block : BlockMap → ℕ → BlockMap
remove_block m number = delete number m
