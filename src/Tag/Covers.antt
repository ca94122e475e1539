-- ===== src/Tag/Covers.antt =====
-- The blocks that a tag names, and what each tagging operation adds to them.
use Prim.Native.String.{String}
use text.Mathlib.Text.{◌==◌ as str_eq}
use text.Mathlib.TextEquality.{eq_iff}
use jmdn_fast_sync.Common.{ℕ, ◌≡◌, Bool, ◌||◌, ◌&&◌, [], ◌∷◌, leb, ◌==◌, any, any-append, arith}
use jmdn_fast_sync.Tag.{
  RangeTag, Tag, Tagging, TaggedAccounts, push_block, push_range, tag_block, tag_range, set_account,
  tag_accounts, get_account,
}

abbrev pub in_range : ℕ → RangeTag → Bool
in_range b r = leb r.start b && leb b r.end

abbrev pub covers : Tag → ℕ → Bool
covers t b = any (in_range b) t.range || any (λ n. n == b) t.block_number

pub covers-push_range :
    (t : Tag) (r : RangeTag) (b : ℕ) → covers (push_range t r) b ≡ (covers t b || in_range b r)
covers-push_range t r b = ground (arith, any-append (in_range b) t.range (r ∷ []))

pub covers-push_block : (t : Tag) (n b : ℕ) → covers (push_block t n) b ≡ (covers t b || (n == b))
covers-push_block t n b = ground (arith, any-append (λ n. n == b) t.block_number (n ∷ []))

pub covers-tag_range :
    (t : Tagging) (s e b : ℕ)
    → covers (tag_range t s e).tag b ≡ (covers t.tag b || (leb s b && leb b e))
unfolding tag_range
covers-tag_range t s e b = covers-push_range t.tag (record { start = s; end = e }) b

pub covers-tag_block :
    (t : Tagging) (n b : ℕ) → covers (tag_block t n).tag b ≡ (covers t.tag b || (n == b))
unfolding tag_block
covers-tag_block t n b = covers-push_block t.tag n b

get_account-set_account :
    (m : TaggedAccounts) (a key : String)
    → get_account (set_account a m) key ≡ (str_eq a key || get_account m key)
unfolding get_account set_account
get_account-set_account [] a key = ground arith
get_account-set_account ((j, flag) ∷ m) a key =
    ground (arith, eq_iff j a, eq_iff j key, eq_iff a key, get_account-set_account m a key)

-- Tagging an account adds that account and changes the answer for no other one.
pub get_account-tag_accounts :
    (t : Tagging) (a key : String)
    → get_account (tag_accounts t a).account_tag key
      ≡ (str_eq a key || get_account t.account_tag key)
unfolding tag_accounts
get_account-tag_accounts t a key = get_account-set_account t.account_tag a key
