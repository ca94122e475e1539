-- ===== src/Tag.antt =====
-- core/protocol/tagging/tag.go: a tag names the blocks to be synchronised, as ranges and as single
-- block numbers, and the accounts to be reconciled.
pub mod Covers
pub mod Divide
pub mod Packing
use Prim.Native.String.{String}
use text.Mathlib.Text.{◌==◌ as str_eq}
use jmdn_fast_sync.Common.{ℕ, Bool, true, false, List, [], ◌∷◌, ◌++◌, if◌then◌else◌}

-- `RangeTag` of common/proto/tagging: both ends are included.
pub record RangeTag : Type 0 where
  pub start : ℕ
  pub end : ℕ

-- `Tag` of common/proto/tagging.
pub record Tag : Type 0 where
  pub block_number : List ℕ
  pub range : List RangeTag

-- The map `TaggedAccounts.accounts`, of address to flag: the keys are distinct.
abbrev pub TaggedAccounts : Type 0
TaggedAccounts = List (String × Bool)

pub record Tagging : Type 0 where
  pub tag : Tag
  pub account_tag : TaggedAccounts

-- `&taggingpb.Tag{}`
abbrev pub empty_tag : Tag
empty_tag = record { block_number = []; range = [] }

abbrev pub new_tagging : Tagging
new_tagging = record { tag = empty_tag; account_tag = [] }

abbrev pub push_block : Tag → ℕ → Tag
push_block t block = record t { block_number = t.block_number ++ block ∷ [] }

abbrev pub push_range : Tag → RangeTag → Tag
push_range t r = record t { range = t.range ++ r ∷ [] }

unfoldable pub tag_block : Tagging → ℕ → Tagging
tag_block t block = record t { tag = push_block t.tag block }

unfoldable pub tag_range : Tagging → ℕ → ℕ → Tagging
tag_range t start end = record t { tag = push_range t.tag (record { start = start; end = end }) }

-- `m[account] = true` on a Go map.
unfoldable pub set_account : String → TaggedAccounts → TaggedAccounts
set_account account [] = (account, true) ∷ []
set_account account ((a, flag) ∷ m) =
    if str_eq a account then (a, true) ∷ m else (a, flag) ∷ set_account account m

unfoldable pub tag_accounts : Tagging → String → Tagging
unfolding set_account
tag_accounts t account = record t { account_tag = set_account account t.account_tag }

-- A missing key reads as `false`.
unfoldable pub get_account : TaggedAccounts → String → Bool
get_account [] key = false
get_account ((a, flag) ∷ m) key = if str_eq a key then flag else get_account m key
