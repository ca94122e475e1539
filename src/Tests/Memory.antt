-- ===== src/Tests/Memory.antt =====
-- A log in memory and a plain encoding of entries: the parameters of the write-ahead log's model, made
-- concrete.
use jmdn_fast_sync.Common.{
  ℕ, zero, suc, ◌+◌, ◌≤◌, ◌≡◌, ◌≢◌, refl, ap, sym, ◌∙◌, Bool, true, ◌&&◌, Option, none, some, List,
  [], ◌∷◌, ltb, leb, ◌==◌, if◌then◌else◌, Bool-cases, inl, inr, arith,
}
use jmdn_fast_sync.Wal.Log.{Bytes, LogApi, Codec, Disk}
use jmdn_fast_sync.Wal.Types.{
  WalType, header_sync, merkle_sync, prior_sync, data_sync, reconciliation, pots, account_sync,
  Entry,
}

-- `capacity` is the greatest index that can be written.
pub record Memory : Type 0 where
  pub capacity : ℕ
  pub first : ℕ
  pub last : ℕ
  pub at : ℕ → Option Bytes

abbrev pub empty_memory : ℕ → Memory
empty_memory capacity = record { capacity = capacity; first = 0; last = 0; at = λ j. none }

abbrev pub fits : Memory → ℕ → Bool
fits l i = (i == (l.last + 1)) && leb i l.capacity

abbrev pub with_entry : Memory → ℕ → Bytes → Memory
with_entry l i d = record l { last = i; at = λ j. if j == i then some d else l.at j }

abbrev pub put : Memory → ℕ → Bytes → Option Memory
put l i d = if fits l i then some (with_entry l i d) else none

abbrev pub without_front : Memory → ℕ → Memory
without_front l i = record l { first = i; at = λ j. if ltb j i then none else l.at j }

abbrev pub cut : Memory → ℕ → Option Memory
cut l i = if leb i l.last then some (without_front l i) else none

-- What a write that succeeded returned.
pub put_inv :
    (l : Memory) (i : ℕ) (d : Bytes) (l' : Memory)
    → put l i d ≡ some l'
    → (i ≡ l.last + 1) × (with_entry l i d ≡ l')
put_inv l i d l' h = elim (Bool-cases (fits l i)) [
  | inr n ↦ cc (rw n at h)
  | inl y ↦ let e : some (with_entry l i d) ≡ some l' = rw y at h in (ground arith, cc)
]

pub cut_inv : (l : Memory) (i : ℕ) (l' : Memory) → cut l i ≡ some l' → without_front l i ≡ l'
cut_inv l i l' h = elim (Bool-cases (leb i l.last)) [
  | inr n ↦ cc (rw n at h)
  | inl y ↦ let e : some (without_front l i) ≡ some l' = rw y at h in cc
]

pub read-put_self :
    (l : Memory) (i : ℕ) (d : Bytes) (l' : Memory) → put l i d ≡ some l' → l'.at i ≡ some d
read-put_self l i d l' h = sym (ap (λ m. m.at i) (put_inv l i d l' h).1) ∙ ground arith

pub read-put_ne :
    (l : Memory) (i j : ℕ) (d : Bytes) (l' : Memory)
    → put l i d ≡ some l'
    → j ≢ i
    → l'.at j ≡ l.at j
read-put_ne l i j d l' h n = sym (ap (λ m. m.at j) (put_inv l i d l' h).1) ∙ ground arith

pub read-cut : (l : Memory) (i j : ℕ) (l' : Memory) → cut l i ≡ some l' → i ≤ j → l'.at j ≡ l.at j
read-cut l i j l' h le = sym (ap (λ m. m.at j) (cut_inv l i l' h)) ∙ ground arith

abbrev pub memory_api : LogApi
memory_api = record {
  Log = Memory;
  first_index = λ l. l.first;
  last_index = λ l. l.last;
  read = λ l j. l.at j;
  write = put;
  truncate_front = cut;
  write_order = λ l i d l' h. (put_inv l i d l' h).0;
  write_last = λ l i d l' h. sym (ap (λ m. m.last) (put_inv l i d l' h).1);
  read-write_self = read-put_self;
  read-write_ne = read-put_ne;
  truncate_last = λ l i l' h. sym (ap (λ m. m.last) (cut_inv l i l' h));
  truncate_first = λ l i l' h. sym (ap (λ m. m.first) (cut_inv l i l' h));
  read-truncate = read-cut;
}

abbrev pub type_number : WalType → ℕ
type_number header_sync = 0
type_number merkle_sync = 1
type_number prior_sync = 2
type_number data_sync = 3
type_number reconciliation = 4
type_number pots = 5
type_number account_sync = 6

abbrev pub nth_type : ℕ → List WalType → WalType
nth_type n [] = account_sync
nth_type zero (t ∷ ts) = t
nth_type (suc n) (t ∷ ts) = nth_type n ts

abbrev pub number_type : ℕ → WalType
number_type n =
    nth_type n (header_sync ∷ merkle_sync ∷ prior_sync ∷ data_sync ∷ reconciliation ∷ pots ∷ [])

number_type-type_number : (t : WalType) → number_type (type_number t) ≡ t
number_type-type_number header_sync = refl
number_type-type_number merkle_sync = refl
number_type-type_number prior_sync = refl
number_type-type_number data_sync = refl
number_type-type_number reconciliation = refl
number_type-type_number pots = refl
number_type-type_number account_sync = refl

abbrev pub decode : Bytes → Option Entry
decode (t ∷ lsn ∷ time ∷ payload) =
    some (record { wal_type = number_type t; payload = payload; lsn = lsn; timestamp = time })
decode bytes = none

abbrev pub encode : Entry → Bytes
encode e = type_number e.wal_type ∷ e.lsn ∷ e.timestamp ∷ e.payload

pub decode-encode : (e : Entry) → decode (encode e) ≡ some e
decode-encode e = ap (λ t. some (record e { wal_type = t })) (number_type-type_number e.wal_type)

abbrev pub plain_codec : Codec
plain_codec = record { marshal = encode; unmarshal = decode; unmarshal-marshal = decode-encode }

abbrev pub memory_disk : Disk
memory_disk = record {
  log_api = memory_api;
  codec = plain_codec;
  save_ok = λ n. true;
  mark_ok = λ n. true;
}
